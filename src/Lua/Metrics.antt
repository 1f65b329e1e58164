-- ===== src/Lua/Metrics.antt =====
-- Class LuaCollector of src/luacollectors.cpp: a collector whose metrics a Lua plugin writes.
pub mod Totals
pub mod Sizes
pub mod Ending
use watched_agent.Base.{
  ℕ, suc, zero, ◌-◌, Bool, true, List, [], ◌∷◌, ◌++◌, Option, none, some, if◌then◌else◌, Str,
  str_eq, codes, lookup, insert, take, length, ◌>>=◌,
}
use watched_agent.Json.{Json}
use watched_agent.LogParser.{default_value}
use watched_agent.Process.{Os}
use watched_agent.Service.{Service, get_pids}
use watched_agent.Resource.{Resource, Counter, next_value, set_property}
use watched_agent.Collector.{Collector, new_collector, add_resource}
use watched_agent.Swagger.{Description, add_property}

-- The methods of LuaCollector that a plugin calls; the value of setProp is an int, that of setPropD a
-- double. nextVal has the time of the call.
pub data MetricCall (V : Type 0) : Type 0 where
  call_add_res : Str → Str → Str → MetricCall V
  call_add_prop : Str → Str → Str → Str → MetricCall V
  call_next_val : Str → V → MetricCall V
  call_set_prop : Str → Str → V → MetricCall V
  call_get_pid_list : MetricCall V

-- A function of a plugin: what it calls, where it may depend on the table of PIDs.
pub data Task (V : Type 0) : Type 0 where
  finished : Task V
  call_then : MetricCall V → (List ℕ → Task V) → Task V

-- while (pids[1]) table.remove(pids), where the fuel is the length of the table.
unfoldable pub clear_table : ℕ → List ℕ → List ℕ
clear_table zero pids = pids
clear_table (suc fuel) [] = []
clear_table (suc fuel) (p ∷ ps) = clear_table fuel (take (length (p ∷ ps) - 1) (p ∷ ps))

-- table.insert(pids, i) for each i
unfoldable pub insert_all : List ℕ → List ℕ → List ℕ
insert_all [] pids = pids
insert_all (i ∷ is) pids = insert_all is (pids ++ i ∷ [])

module _ (json : Json) where
  open json use {Value, of_ℕ}

  -- A LuaCollector with the table of its plugin, its service, if it is still there, and the counter
  -- of all values.
  pub record LuaCollector : Type 0 where
    pub collector : Collector json
    pub descriptions : List (Str × Description)
    pub pids : List ℕ
    pub service : Option Service
    pub counter : Counter

  -- LuaCollector::LuaCollector, with the members history, poolfreq and name of the plugin's cfg, but
  -- for the call of declare.
  unfoldable pub new_lua_collector : ℕ → ℕ → Str → Option Str → Value → Collector json
  new_lua_collector history poolfreq name serv cfg =
      let c = new_collector json (codes "lua") 0 0 serv cfg in
      record c {
        cfg =
            default_value json (codes "poll-frequency") true (of_ℕ poolfreq)
              (default_value json (codes "history") true (of_ℕ history) c.cfg);
        name = name;
      }

  unfoldable pub with_resource : Str → Resource json → LuaCollector → LuaCollector
  with_resource name r c = record c {
    collector = record c.collector { resources = insert str_eq name r c.collector.resources };
  }

  -- LuaCollector::addRes
  unfoldable pub add_res : Str → Str → Str → LuaCollector → LuaCollector
  add_res name text type c = record c {
    collector = add_resource json name text c.collector;
    descriptions = elim (lookup str_eq name c.collector.resources) [
      | some r ↦ c.descriptions
      | none ↦
          insert str_eq name (record { type_name = type; texts = []; types = [] }) c.descriptions
    ];
  }

  -- LuaCollector::addProp; ressources[name] is a null pointer for a new name, and its use is `none`.
  unfoldable pub add_prop : Str → Str → Str → Str → LuaCollector → Option LuaCollector
  add_prop name property text type c = lookup str_eq name c.descriptions >>= λ d. some (record c {
    descriptions = insert str_eq name (add_property property text type d) c.descriptions;
  })

  -- LuaCollector::nextVal
  unfoldable pub next_val : Str → Value → LuaCollector → Option LuaCollector
  unfolding with_resource
  next_val name now c = lookup str_eq name c.collector.resources >>= λ r.
      let (r', n) = next_value json now r c.counter in
      some (with_resource name r' (record c { counter = n }))

  -- LuaCollector::setProp and setPropD.
  unfoldable pub set_prop : Str → Str → Value → LuaCollector → Option LuaCollector
  unfolding with_resource
  set_prop name property x c = do
    r ← lookup str_eq name c.collector.resources
    r' ← set_property json property x r
    some (with_resource name r' c)

  -- LuaCollector::getPIDList
  unfoldable pub get_pid_list : Os → LuaCollector → LuaCollector
  unfolding clear_table insert_all
  get_pid_list os c =
      let pids = clear_table (length c.pids) c.pids in
      elim c.service [
        | none ↦ record c { pids = pids }
        | some s ↦
            let (ids, s') = get_pids os s in
            record c { pids = insert_all ids pids; service = some s' }
      ]

  unfoldable pub do_metric : Os → MetricCall Value → LuaCollector → Option LuaCollector
  unfolding add_res add_prop next_val set_prop get_pid_list
  do_metric os (call_add_res name text type) c = some (add_res name text type c)
  do_metric os (call_add_prop name property text type) c = add_prop name property text type c
  do_metric os (call_next_val name now) c = next_val name now c
  do_metric os (call_set_prop name property x) c = set_prop name property x c
  do_metric os call_get_pid_list c = some (get_pid_list os c)

  unfoldable pub run_task : Os → Task Value → LuaCollector → Option LuaCollector
  unfolding do_metric
  run_task os finished c = some c
  run_task os (call_then m next) c = do_metric os m c >>= λ d. run_task os (next d.pids) d

  -- LuaCollector::collect
  unfoldable pub collect_lua : Os → Bool → Task Value → LuaCollector → Option LuaCollector
  unfolding run_task
  collect_lua os have_state collect c = if have_state then run_task os collect c else some c
