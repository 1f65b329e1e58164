-- ===== src/Service/Plugged.antt =====
-- The plugins of a service in src/services.cpp: its collectors, its handler and its log parsers, which
-- the factories make.
pub mod Adding
use watched_agent.Base.{
  Bool, true, false, ◌&&◌, ◌||◌, not, List, [], ◌∷◌, ◌++◌, Option, none, some, if◌then◌else◌, Str,
  str_eq, codes, lookup, insert, first, ◌>>=◌,
}
use watched_agent.Json.{Json}
use watched_agent.Config.{get_collector_cfg, get_parser_cfg}
use watched_agent.Process.{Os, Process, get_open_logs, contains}
use watched_agent.Service.{Service}

-- An entry of a factory: the function that makes an object, `none` for a null pointer, and the file of
-- a Lua plugin.
abbrev pub Factory : Type 0 → Type 0
Factory M = List (Str × (Option M × Str))

-- factory[key], which puts in a null pointer and an empty text for a new key.
unfoldable pub entry : {M : Type 0} → Str → Factory M → (Option M × Str) × Factory M
entry key f = elim (lookup str_eq key f) [
  | some e ↦ (e, f)
  | none ↦ ((none, []), f ++ (key, (none, [])) ∷ [])
]

-- s.find(t) over the open logs of the main processes: the first that has the text.
unfoldable pub open_log : Os → Str → List Process → Option Str
open_log os t [] = none
open_log os t (p ∷ ps) =
    let rest = open_log os t ps in
    elim (first (contains t) (get_open_logs os p.pid)) [ some l ↦ some l | none ↦ rest ]

-- The file that addLogMonitor follows: `agent_log` is watched_log_file.
unfoldable pub choose_log : Os → Str → Str → List Process → Option Str
choose_log os agent_log t ps =
    let other = if os.file_exists t then some t else none in
    if str_eq t (codes "watched.agent")
    then some agent_log
    else elim (open_log os t ps) [ some l ↦ some l | none ↦ other ]

-- The plugins of a service, whose configuration is a `V`: its collectors, its parsers by the text
-- that their file contains, and its handler.
pub record Plugged (V C P H : Type 0) : Type 0 where
  pub cfg : V
  pub collectors : List (Str × C)
  pub parsers : List (Str × P)
  pub handler : Option H

-- The factories of the program.
pub record Makers (V C P H : Type 0) : Type 0 where
  pub collectors : Factory (V → Str → C)
  pub handlers : Factory (Str → H)
  pub parsers : Factory (Str → V → Str → P)

module _ (json : Json) {C P H : Type 0} where
  open json use {Value}

  -- service::addCollector: the collector is also started. A call of a null pointer is `none`.
  unfoldable pub add_collector :
      Makers Value C P H → (C → C) → Str → Plugged Value C P H → Option (Plugged Value C P H)
  add_collector m start name s = elim (lookup str_eq name s.collectors) [
    | some c ↦ some s
    | none ↦ elim (lookup str_eq name m.collectors) [
      | none ↦ some s
      | some (none, file) ↦ none
      | some (some make, file) ↦
          let cfg = get_collector_cfg json name s.cfg in
          some (record s {
            cfg = cfg;
            collectors =
                insert str_eq name
                  (start (make (json.get name (json.get (codes "collectors") cfg)) file))
                  s.collectors;
          })
    ]
  ]

  -- service::setHandler. The file comes from the factory of the collectors, which changes.
  unfoldable pub set_handler :
      Makers Value C P H
      → Str
      → Plugged Value C P H
      → Option (Makers Value C P H × Plugged Value C P H)
  unfolding entry
  set_handler m name s = elim (lookup str_eq name s.collectors) [
    | some c ↦ some (m, s)
    | none ↦ elim (lookup str_eq name m.handlers) [
      | none ↦ some (m, s)
      | some (none, file) ↦ none
      | some (some make, file) ↦
          let (e, f) = entry name m.collectors in
          some (record m { collectors = f }, record s { handler = some (make e.1) })
    ]
  ]

  -- service::getCollector
  unfoldable pub find_collector : Str → Plugged Value C P H → Option C
  find_collector name s = lookup str_eq name s.collectors

  -- service::addLogMonitor, on the main processes of the service.
  unfoldable pub add_log_monitor :
      Makers Value C P H
      → Os
      → Str
      → List Process
      → (P → P)
      → Str
      → Str
      → Plugged Value C P H
      → Option (Plugged Value C P H)
  add_log_monitor m os agent_log ps start name t s = elim (lookup str_eq t s.parsers) [
    | some p ↦ some s
    | none ↦ elim (lookup str_eq name m.parsers) [
      | none ↦ some s
      | some (make, lua) ↦ elim (choose_log os agent_log t ps) [
        | none ↦ some s
        | some file ↦ make >>= λ make_parser.
            let cfg = get_parser_cfg json name s.cfg in
            some (record s {
              cfg = cfg;
              parsers =
                  insert str_eq t
                    (start (make_parser file (json.get name (json.get (codes "parsers") cfg)) lua))
                    s.parsers;
            })
      ]
    ]
  ]
