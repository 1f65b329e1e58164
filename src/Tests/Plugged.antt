-- ===== src/Tests/Plugged.antt =====
-- A service with the plugins that the factories make.
use watched_agent.Base.{[], ◌∷◌, none, some, codes, Str, str_eq, ◌≡◌, refl}
use watched_agent.Config.{get_collector_cfg, get_parser_cfg}
use watched_agent.Service.Plugged.{
  Plugged, Makers, add_collector, add_log_monitor, set_handler, choose_log,
}
use watched_agent.Service.Plugged.Adding.{add_collector-set_handler}
use watched_agent.Tests.Document.{Tree, document}
use watched_agent.Tests.Processes.{system, server}

-- Collectors, parsers and handlers are the texts of their files.
abbrev plain : Plugged Tree Str Str Str
plain = record { cfg = Tree.nil; collectors = []; parsers = []; handler = none }

abbrev makers : Makers Tree Str Str Str
makers = record {
  collectors = (codes "cpu", (some (λ cfg file. file), [])) ∷ [];
  handlers = (codes "calm", (some (λ file. file), codes "calm.lua")) ∷ [];
  parsers = (codes "syslog", (some (λ file cfg lua. file), codes "syslog.lua")) ∷ [];
}

abbrev with_cpu : Plugged Tree Str Str Str
with_cpu = record plain {
  cfg = get_collector_cfg document (codes "cpu") Tree.nil;
  collectors = (codes "cpu", []) ∷ [];
}

added : add_collector document makers (λ c. c) (codes "cpu") plain ≡ some with_cpu
unfolding add_collector str_eq
added = refl

abbrev with_log : Plugged Tree Str Str Str
with_log = record plain {
  cfg = get_parser_cfg document (codes "syslog") Tree.nil;
  parsers = (codes "watched.agent", codes "/var/log/agent.log") ∷ [];
}

monitored :
    add_log_monitor document makers system
      (codes "/var/log/agent.log")
      (server ∷ [])
      (λ p. p)
      (codes "syslog")
      (codes "watched.agent")
      plain
    ≡ some with_log
unfolding add_log_monitor str_eq choose_log
monitored = refl

chosen :
    choose_log system (codes "/var/log/agent.log") (codes "watched.agent") (server ∷ [])
    ≡ some (codes "/var/log/agent.log")
unfolding choose_log str_eq
chosen = refl

add_collector-set_handler_example :
    (m' : Makers Tree Str Str Str) × (t : Plugged Tree Str Str Str) × (set_handler document makers
        (codes "calm")
        plain
      ≡ some (m', t))
    × (t.handler ≡ some [])
    × (add_collector document m' (λ c. c) (codes "calm") t ≡ none)
unfolding str_eq
add_collector-set_handler_example =
    add_collector-set_handler document makers (λ c. c) (codes "calm") (codes "calm.lua")
      (λ file. file) plain refl refl refl
