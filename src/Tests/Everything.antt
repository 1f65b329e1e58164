-- ===== src/Tests/Everything.antt =====
-- One service with a collector, in the document of everything.
use watched_agent.Base.{
  any, Bool, true, along_some, ◌>>=◌, List, [], ◌∷◌, ◌++◌, none, some, codes, str_eq, lookup, map,
  ◌≡◌, refl,
}
use watched_agent.Systemd.Units.{unit_path}
use watched_agent.Systemd.Replies.{systemd_replies, get_all-keeps}
use watched_agent.Tests.Units.{bus}
use watched_agent.Service.{have_pid, Service, get_id}
use watched_agent.Collector.{HistoryReply}
use watched_agent.Resource.History.{joined}
use watched_agent.Manager.{Reply, get_service_status}
use watched_agent.Manager.Logs.{LogsReply, get_service_log}
use watched_agent.Manager.Collected.{
  Everything, Watched, get_all, CollectorReply, get_collector_history, no_service, no_collector,
}
use watched_agent.Manager.Collected.Visits.{KeepsId}
use watched_agent.Manager.Collected.Agreement.{get_collector_history-agrees, get_all-agrees}
use watched_agent.Tests.Document.{document}
use watched_agent.Tests.Processes.{system, server}
use watched_agent.Tests.Services.{web, replies}
use watched_agent.Tests.Values.{metrics}

abbrev watched : List (Watched document)
watched =
    record {
      service = web;
      logs = record { id = get_id web; host = codes "host"; parsers = [] };
      collectors = (codes "memory", metrics) ∷ [];
    }
    ∷ []

keeps : KeepsId replies web
keeps h b s' e =
    along_some (λ (r : Bool × Service). get_id r.1 ≡ get_id web) (true, web) (b, s') e refl

abbrev doc : Everything document
doc = elim (get_all document replies system 9 watched [] 4).0 [
  | none ↦ record { services = []; system = []; timestamp = 9 }
  | some d ↦ d
]

doc-made : (get_all document replies system 9 watched [] 4).0 ≡ some doc
unfolding get_all watched_agent.Service.Views.get_json_status watched_agent.Service.have_socket
    watched_agent.Process.have_inode watched_agent.Service.new_service
doc-made = refl

get_collector_history-agrees_example :
    get_collector_history document watched
      (codes "nginx-tcp_127.0.0.1_80")
      (codes "memory")
      (codes "swap")
      4
    ≡ elim (lookup str_eq (codes "nginx-tcp_127.0.0.1_80") doc.services) [
      | none ↦ CollectorReply.failure (no_service document (codes "nginx-tcp_127.0.0.1_80"))
      | some part ↦ elim (lookup str_eq (codes "memory") part.collectors) [
        | none ↦
            CollectorReply.failure
              (no_collector document (codes "nginx-tcp_127.0.0.1_80") (codes "memory"))
        | some histories ↦ CollectorReply.history (elim (lookup str_eq (codes "swap") histories) [
          | none ↦ HistoryReply.not_found (codes "No such Metric")
          | some vs ↦ HistoryReply.sent (codes "[\n" ++ (joined document vs ++ codes "\n]\n"))
        ])
      ]
    ]
get_collector_history-agrees_example =
    get_collector_history-agrees document replies system 9 4 watched []
      (codes "nginx-tcp_127.0.0.1_80") (codes "memory") (codes "swap") doc (keeps, tt) (refl, tt)
      doc-made

get_all-agrees_example :
    ((get_service_status replies system (map (λ w. w.service) watched) (codes "nginx")).0
      ≡ elim (lookup str_eq (codes "nginx") doc.services) [
        | none ↦ some (Reply.failure (no_service document (codes "nginx")))
        | some part ↦ part.status >>= λ status. some (Reply.one status)
      ])
    × (some (get_service_log document 4 (map (λ w. w.logs) watched) (codes "nginx"))
        ≡ elim (lookup str_eq (codes "nginx") doc.services) [
          | none ↦ some (LogsReply.log_failure (no_service document (codes "nginx")))
          | some part ↦ part.logs >>= λ logs. some (LogsReply.one_log logs)
        ])
unfolding str_eq
get_all-agrees_example =
    get_all-agrees document replies system 9 4 watched [] (codes "nginx") doc (keeps, tt) (refl, tt)
      (refl, tt) refl doc-made

-- A service under a handler of systemd, of which one of two main processes has ended.
abbrev restarted : List (Watched document)
restarted =
    record {
      service = record web {
        handler = some (unit_path (codes "nginx_2eservice"));
        main_process = server ∷ record server { pid = 99 } ∷ [];
      };
      logs = record { id = get_id web; host = codes "host"; parsers = [] };
      collectors = [];
    }
    ∷ []

knows-10 : any (λ w. have_pid w.service 10) restarted ≡ true
unfolding have_pid
knows-10 = refl

get_all-keeps_example :
    any
      (λ w. have_pid w.service 10)
      (get_all document (systemd_replies bus true system) system 9 restarted [] 4).1
    ≡ true
get_all-keeps_example = get_all-keeps bus true system 10 refl document 9 4 restarted [] knows-10
