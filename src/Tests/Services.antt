-- ===== src/Tests/Services.antt =====
-- Runs of class service.
use watched_agent.Base.{
  some, true, none, ◌⊎◌, length, ◌+◌, ◌∷◌, [], ◌≡◌, refl, arith, codes, ◌==◌, ◌||◌, any,
}
use watched_agent.Socket.{Socket, SockAddr}
use watched_agent.Process.{Process}
use watched_agent.Service.{
  Service, new_service, have_source, add_main_process, update_from, have_pid, has_pid,
}
use watched_agent.Service.Pids.{
  IsFlat, DistinctPids, have_pid-add_main_process, add_main_process-divides,
}
use watched_agent.Service.Updates.{update_from-sources, update_from-pids}
use watched_agent.Service.Views.{Status, Counts, Replies, get_json_status, get_index_counts}
use watched_agent.Service.Status.{failed_sockets, failed_processes, index-agrees}
use watched_agent.Tests.Processes.{system, server, parent-10}

abbrev addr : SockAddr
addr = record {
  port = 80;
  ip1 = 127;
  ip2 = 0;
  ip3 = 0;
  ip4 = 1;
  ip5 = 0;
  ip6 = 0;
  ip7 = 0;
  ip8 = 0;
}

abbrev pub http_socket : Socket
http_socket = record { id = 77; type = codes "tcp"; source = addr; dest = addr }

abbrev pub web : Service
web = record (new_service (codes "host")) {
  name = codes "nginx";
  uniq_name = codes "tcp_127.0.0.1_80";
  sockets = http_socket ∷ [];
  main_process = server ∷ [];
}

abbrev worker : Process
worker = record {
  pid = 11;
  full_path = codes "/usr/sbin/nginx";
  base_name = codes "nginx";
  sockets = [];
}

have_pid-add_main_process_example :
    have_pid (add_main_process system worker web) 10 ≡ (have_pid web 10 || (11 == 10))
have_pid-add_main_process_example = have_pid-add_main_process system worker web 10

empty-IsFlat : IsFlat system (new_service (codes "host")).main_process
unfolding new_service
empty-IsFlat = refl

add_main_process-divides_example :
    IsFlat system (add_main_process system server (new_service (codes "host"))).main_process
    × DistinctPids (add_main_process system server (new_service (codes "host"))).sub_process
unfolding new_service
add_main_process-divides_example =
    add_main_process-divides system server (new_service (codes "host")) (omega arith)
      (omega (arith, parent-10)) empty-IsFlat tt

update_from-sources_example :
    have_source (update_from system web web) (codes "tcp://127.0.0.1:80")
    ≡ (have_source web (codes "tcp://127.0.0.1:80") || have_source web (codes "tcp://127.0.0.1:80"))
update_from-sources_example = update_from-sources system web web (codes "tcp://127.0.0.1:80")

update_from-pids_example :
    have_pid (update_from system web web) 10
    ≡ (have_pid web 10 || any (has_pid 10) web.main_process)
update_from-pids_example = update_from-pids system web web 10 refl

-- Each handler answers true and leaves its service alone.
abbrev pub replies : Replies
replies h s = some (true, s)

index-agrees_example :
    ((get_json_status replies system web ≡ none) × (get_index_counts replies system web ≡ none))
    ⊎ ((status : Status) × (counts : Counts) × (s' : Service) × (get_json_status replies system web
          ≡ some (status, s'))
        × (get_index_counts replies system web ≡ some (counts, s'))
        × (counts.failed ≡ failed_sockets status.sockets + failed_processes status.process)
        × (counts.ok + counts.failed ≡ length s'.sockets + length s'.main_process))
index-agrees_example = index-agrees replies system web
