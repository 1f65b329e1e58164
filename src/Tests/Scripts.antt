-- ===== src/Tests/Scripts.antt =====
-- Lua plugins on concrete inputs.
use watched_agent.Base.{
  Str, ◌⊎◌, ℕ, ◌||◌, if◌then◌else◌, true, List, [], ◌∷◌, none, some, str_eq, codes, any, ◌≡◌, refl,
  arith,
}
use watched_agent.Service.{Service, new_service, is_empty, get_pids}
use watched_agent.Resource.{Resource}
use watched_agent.Lua.{
  Host, Served, Script, done, call, call_get_type, call_set_type, call_add_collector,
  call_set_handler, text, enhance_lua, is_type,
}
use watched_agent.Lua.Enhancing.{enhance_lua-Keeps, Keeps}
use watched_agent.Lua.Tables.{element, is_type-any}
use watched_agent.Lua.Metrics.{
  LuaCollector, Task, finished, call_then, call_next_val, call_set_prop, call_get_pid_list,
  collect_lua,
}
use watched_agent.Lua.Metrics.Sizes.{Good}
use watched_agent.Lua.Metrics.Ending.{Stops, collect_lua-ends}
use watched_agent.Tests.Document.{Tree, Fields, document}
use watched_agent.Tests.Processes.{system}

abbrev pub maker : Host (List ℕ) (List ℕ) Str
maker = record {
  agent_pid = 10;
  agent_log = codes "/var/log/watched.log";
  os = system;
  start = λ c. c;
  start_parser = λ p. p;
  set_service = λ id c. id;
  handler_name = λ x. x;
}

abbrev pub served : Served Tree (List ℕ) (List ℕ) Str
served = record {
  service = record (new_service (codes "host")) { name = codes "nginx"; uniq_name = codes "80" };
  plugged = record { cfg = Tree.nil; collectors = []; parsers = []; handler = none };
  makers = record {
    collectors = (codes "cpu", (some (λ cfg file. file), codes "cpu.lua")) ∷ [];
    handlers = (codes "systemd", (some (λ file. file), [])) ∷ [];
    parsers = [];
  };
}

-- A plugin that gives a type to a service of an unknown one, with a collector and a handler.
abbrev rename : Script
rename = call call_get_type (λ a. elim a [
  | text t ↦
      if str_eq t (codes "unknown")
      then call (call_set_type (codes "http")) (λ b.
        call (call_add_collector (codes "cpu"))
          (λ c. call (call_set_handler (codes "systemd")) (λ d. done)))
      else done
  | _ ↦ done
])

abbrev renamed : Served Tree (List ℕ) (List ℕ) Str
renamed = elim (enhance_lua document maker true rename served) [ none ↦ served | some st ↦ st ]

rename_lem : enhance_lua document maker true rename served ≡ some renamed
unfolding enhance_lua str_eq new_service watched_agent.Service.Plugged.add_collector
    watched_agent.Service.Plugged.set_handler
rename_lem = refl

renamed-type : renamed.service.type ≡ codes "http"
unfolding enhance_lua str_eq new_service watched_agent.Service.Plugged.add_collector
    watched_agent.Service.Plugged.set_handler
renamed-type = refl

abbrev loads : LuaCollector document
loads = record {
  collector = record {
    cfg = Tree.nil;
    name = codes "cpuload";
    base_path = codes "/system/";
    service = none;
    resources = (codes "avg", record { v = Tree.fields Fields.stop ∷ []; size = 1 }) ∷ [];
    desc = [];
  };
  descriptions = [];
  pids = [];
  service = none;
  counter = record { add = 5; del = 1 };
}

abbrev avg : Task Tree
avg = call_then (call_next_val (codes "avg") (Tree.number 9)) (λ pids.
    call_then (call_set_prop (codes "avg") (codes "avg1") (Tree.number 2)) (λ ids. finished))

abbrev shown : LuaCollector document
shown = elim (collect_lua document system true avg loads) [ none ↦ loads | some c ↦ c ]

avg_lem : collect_lua document system true avg loads ≡ some shown
unfolding collect_lua str_eq watched_agent.Resource.set_property watched_agent.Resource.next_value
avg_lem = refl

loads-Good : Good document 3 loads
unfolding watched_agent.Lua.Metrics.Totals.total
loads-Good = ((omega arith, tt), refl)

is_type-any_example :
    is_type 3 (element (codes "collector" ∷ codes "parser" ∷ [])) 1 (codes "parser")
    ≡ some (
        is_empty (codes "parser")
        || any (λ t. str_eq t (codes "parser")) (codes "collector" ∷ codes "parser" ∷ []))
unfolding is_empty
is_type-any_example =
    is_type-any (codes "parser") (codes "collector" ∷ codes "parser" ∷ []) 3 refl (omega arith)

enhance_lua-Keeps_example : Keeps document served renamed
enhance_lua-Keeps_example = enhance_lua-Keeps document maker true rename served renamed rename_lem

collect_lua-ends_example :
    ((d : LuaCollector document) × (collect_lua document system true avg loads ≡ some d)
      × Good document 3 d)
    ⊎ Stops document system avg loads
collect_lua-ends_example = collect_lua-ends document 3 system true avg loads loads-Good
