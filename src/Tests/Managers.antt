-- ===== src/Tests/Managers.antt =====
-- Runs of class servicesManager and class socketDetector.
use watched_agent.Base.{◌≤◌, ◌∷◌, [], List, ◌≡◌, refl, Str, codes, true, false, length, any}
use watched_agent.Socket.{Socket, atoi_u32}
use watched_agent.Process.{
  from_pid, set_sockets, have_inode, add_fds, add_fd, socket_inode, starts_with_dot,
}
use watched_agent.Text.{scan, skip_space, sign}
use watched_agent.Service.{Service, have_pid, has_pid}
use watched_agent.Manager.{enhance, add_service, any_pid}
use watched_agent.Manager.Detector.{Search, match_list, find_services, is_number}
use watched_agent.Manager.Joining.{covers, add_service-keeps, add_service-knows, add_service-covers}
use watched_agent.Manager.Finding.{stands_for, find_services-finds, find_services-keeps}
use watched_agent.Tests.Processes.{system, server}
use watched_agent.Tests.Services.{web, http_socket}

knows-server : any_pid (web ∷ []) 10 ≡ true
unfolding any_pid have_pid
knows-server = refl

add_service-keeps_example : any_pid (add_service system [] web (web ∷ [])) 10 ≡ true
add_service-keeps_example = add_service-keeps system [] web (web ∷ []) 10 refl knows-server

enhanced-main : any (has_pid 10) (enhance [] web).main_process ≡ true
unfolding enhance
enhanced-main = refl

add_service-knows_example : any_pid (add_service system [] web []) 10 ≡ true
add_service-knows_example = add_service-knows system [] web [] 10 refl enhanced-main

add_service-covers_example :
    (any (covers (enhance [] web)) (add_service system [] web (web ∷ [])) ≡ true)
    × (length (add_service system [] web (web ∷ [])) ≤ 2)
add_service-covers_example = add_service-covers system [] web (web ∷ [])

-- A service that knows the parent of process 10.
abbrev init : Service
init = record web { main_process = record server { pid = 1 } ∷ [] }

abbrev search : Search
search = record {
  os = system;
  enhancers = [];
  host = codes "host";
  sockets = http_socket ∷ [];
  rules = [];
}

abbrev listed : List Str
listed = codes "10" ∷ codes "self" ∷ []

is-listed : any (stands_for 10) listed ≡ true
unfolding is_number atoi_u32 scan skip_space sign
is-listed = refl

owns-socket :
    any
      (λ (k : Socket). have_inode (set_sockets system (from_pid system 10)).sockets k.id)
      (http_socket ∷ [])
    ≡ true
unfolding have_inode set_sockets from_pid add_fds add_fd socket_inode starts_with_dot atoi_u32 scan
    skip_space sign
owns-socket = refl

not-matched : match_list (from_pid system 10) [] ≡ false
unfolding match_list
not-matched = refl

find_services-finds_example : any_pid (find_services search []) 10 ≡ true
find_services-finds_example =
    find_services-finds search tt [] listed refl 10 is-listed refl owns-socket not-matched

find_services-keeps_example : any_pid (find_services search (web ∷ [])) 10 ≡ true
find_services-keeps_example =
    find_services-keeps search tt (web ∷ []) listed refl 10 refl knows-server
