-- ===== src/Lua.antt =====
-- The Lua plugins of src/luacollectors.cpp. The interpreter and the library selene are not modelled: a
-- function of a plugin is the methods that it calls, in order, each of which may depend on what the
-- calls before have given. A function that does not end is left out, and one that ends with an error
-- is done where the error occurs.
pub mod Metrics
pub mod Enhancing
pub mod Tables
use watched_agent.Base.{
  ℕ, suc, zero, ◌+◌, ◌==◌, Bool, true, false, List, [], ◌∷◌, Option, none, some, if◌then◌else◌, Str,
  str_eq, codes, map, ◌>>=◌,
}
use watched_agent.Json.{Json}
use watched_agent.LogParser.{
  Level, Plugin, LogParser, new_parser, default_value, ok, info, notice, warning, error, critical,
}
use watched_agent.Process.{Os}
use watched_agent.Service.{Service, get_id, have_pid, is_self, is_empty}
use watched_agent.Manager.{Enhancer}
use watched_agent.Service.Plugged.{Plugged, Makers, add_collector, set_handler, add_log_monitor}

-- What a call gives.
pub data Answer : Type 0 where
  nothing : Answer
  flag : Bool → Answer
  text : Str → Answer

-- The calls that LuaServiceEnhancer::enhance lets a plugin make on a service.
pub data Call : Type 0 where
  call_add_collector : Str → Call
  call_have_pid : ℕ → Call
  call_is_self : Call
  call_get_type : Call
  call_get_sub_type : Call
  call_get_name : Call
  call_get_id : Call
  call_set_type : Str → Call
  call_set_sub_type : Str → Call
  call_set_uniq_key : Str → Call
  call_set_host : Str → Call
  call_set_handler : Str → Call
  call_add_log_monitor : Str → Str → Call
  call_update_base_paths : Call
  call_set_name : Str → Call

pub data Script : Type 0 where
  done : Script
  call : Call → (Answer → Script) → Script

-- What the methods work with beside the service: its agent's PID and log, the system, the start of a
-- collector and of a parser, Collector::setService for an ID, and the name by which the service knows a
-- handler.
pub record Host (C P H : Type 0) : Type 0 where
  pub agent_pid : ℕ
  pub agent_log : Str
  pub os : Os
  pub start : C → C
  pub start_parser : P → P
  pub set_service : Str → C → C
  pub handler_name : H → Str

-- A service with its plugins, and the factories.
pub record Served (V C P H : Type 0) : Type 0 where
  pub service : Service
  pub plugged : Plugged V C P H
  pub makers : Makers V C P H

module _ (json : Json) {C P H : Type 0} where
  open json use {Value}

  -- service::setHandler, on both views of the handler.
  unfoldable pub with_handler :
      Host C P H
      → Makers Value C P H × Plugged Value C P H
      → Served Value C P H
      → Served Value C P H
  with_handler h r st = record {
    service = record st.service {
      handler = elim r.1.handler [ none ↦ st.service.handler | some x ↦ some (h.handler_name x) ];
    };
    plugged = r.1;
    makers = r.0;
  }

  -- service::updateBasePaths
  unfoldable pub update_base_paths : Host C P H → Str → List (Str × C) → List (Str × C)
  update_base_paths h id [] = []
  update_base_paths h id (e ∷ es) = (e.0, h.set_service id e.1) ∷ update_base_paths h id es

  -- One call; `none` is a call of a null pointer.
  unfoldable pub do_call :
      Host C P H → Call → Served Value C P H → Option (Answer × Served Value C P H)
  unfolding with_handler update_base_paths
  do_call h (call_add_collector name) st =
      add_collector json st.makers h.start name st.plugged >>= λ p.
      some (nothing, record st { plugged = p })
  do_call h (call_have_pid pid) st = some (flag (have_pid st.service pid), st)
  do_call h call_is_self st = some (flag (is_self h.agent_pid st.service), st)
  do_call h call_get_type st = some (text st.service.type, st)
  do_call h call_get_sub_type st = some (text st.service.sub_type, st)
  do_call h call_get_name st = some (text st.service.name, st)
  do_call h call_get_id st = some (text (get_id st.service), st)
  do_call h (call_set_type t) st =
      some (nothing, record st { service = record st.service { type = t } })
  do_call h (call_set_sub_type t) st =
      some (nothing, record st { service = record st.service { sub_type = t } })
  do_call h (call_set_uniq_key t) st =
      some (nothing, record st { service = record st.service { uniq_name = t } })
  do_call h (call_set_host t) st =
      some (nothing, record st { service = record st.service { host = t } })
  do_call h (call_set_handler name) st =
      set_handler json st.makers name st.plugged >>= λ r. some (nothing, with_handler h r st)
  do_call h (call_add_log_monitor name t) st =
      add_log_monitor json st.makers h.os h.agent_log st.service.main_process h.start_parser name t
        st.plugged
      >>= λ p. some (nothing, record st { plugged = p })
  do_call h call_update_base_paths st = some (
    nothing,
    record st {
      plugged = record st.plugged {
        collectors = update_base_paths h (get_id st.service) st.plugged.collectors;
      };
    },
  )
  do_call h (call_set_name t) st =
      some (nothing, record st { service = record st.service { name = t } })

  unfoldable pub run_script : Host C P H → Script → Served Value C P H → Option (Served Value C P H)
  unfolding do_call
  run_script h done st = some st
  run_script h (call c next) st = do_call h c st >>= λ r. run_script h (next r.0) r.1

  -- LuaServiceEnhancer::enhance gives no other service but changes its argument: the result is the
  -- argument as it is left. `script` is the call enhance(p_serv).
  unfoldable pub enhance_lua :
      Host C P H → Bool → Script → Served Value C P H → Option (Served Value C P H)
  unfolding run_script
  enhance_lua h have_state script st = if have_state then run_script h script st else some st

-- LuaServiceHandler::isBlackout, for the service behind its weak pointer, if it is still there.
-- `reply` is what isBlackout(p_serv) gives, of which the calls change nothing.
unfoldable pub lua_blackout : Bool → (Service → Bool) → Option Service → Bool
lua_blackout have_state reply serv =
    let answer : Bool = elim serv [ none ↦ false | some s ↦ reply s ] in
    if have_state then answer else false

-- The numbers of the levels, which the constructor of LuaParser tells the plugin, and the level of a
-- number. A number that no level has is shown as info and is not ok.
unfoldable pub level_number : Level → ℕ
level_number ok = 0
level_number info = 1
level_number notice = 2
level_number warning = 3
level_number error = 4
level_number critical = 5

unfoldable pub level_at : ℕ → Level
level_at n =
    if n == 0
    then ok
    else if n == 2
    then notice
    else if n == 3
    then warning
    else if n == 4
    then error
    else if n == 5
    then critical
    else info

-- LuaParser::getLevel and getDate, over the functions of the plugin.
unfoldable pub lua_plugin : Bool → (Str → ℕ) → (Str → Str) → Plugin
unfolding level_at
lua_plugin have_state level date = record {
  get_level = λ line. if have_state then level_at (level line) else ok;
  get_date = λ line. if have_state then date line else [];
}

-- LuaParser::LuaParser, with the members history and poolfreq of the plugin's cfg.
unfoldable pub lua_parser : (json : Json) → ℕ → ℕ → json.Value → LogParser json
lua_parser json history poolfreq cfg =
    let parser = new_parser json 0 0 cfg in
    record parser {
      cfg =
          default_value json (codes "poll-frequency") true (json.of_ℕ poolfreq)
            (default_value json (codes "history") true (json.of_ℕ history) parser.cfg);
    }

-- LuaSorter::isType, from the element i of the plugin's table `types`, where an element that is not
-- there is empty. `none` is the end of the fuel.
unfoldable pub is_type : ℕ → (ℕ → Str) → ℕ → Str → Option Bool
is_type zero types i name = none
is_type (suc fuel) types i name =
    let rest = is_type fuel types (i + 1) name in
    if str_eq (types i) name then some true else if is_empty (types i) then some false else rest
