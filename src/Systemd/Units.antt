-- ===== src/Systemd/Units.antt =====
-- The detector of the systemd plugin, services/sdbus/systemdbus.cpp: its lists and its search.
use watched_agent.Base.{
  ℕ, Bool, true, false, ◌||◌, not, List, [], ◌∷◌, ◌++◌, Option, none, some, if◌then◌else◌, Str,
  str_eq, codes, map, ◌==◌, ◌>>=◌,
}
use watched_agent.Json.{Json}
use watched_agent.Text.{find_char, rfind_char, substr, add_size, sub_size}
use watched_agent.Process.{Os, Process, from_pid, contains}
use watched_agent.LogParser.{lines_of}
use watched_agent.Service.{Service, new_service, add_main_process, have_pid, is_empty}
use watched_agent.Service.Template.{Arrays}
use watched_agent.Manager.{Enhancer, add_service, update_first, any_pid}
use watched_agent.Manager.Settings.{service_detector, text_of}
use watched_agent.Systemd.{Bus, get_pid, get_sub_status, get_type, get_restart}

-- An entry of a list; a member that is missing is `none`.
pub record UnitRule : Type 0 where
  pub unit_name : Option Str
  pub type : Option Str
  pub restart : Option Str

module _ (json : Json) (arrays : Arrays json) where
  open json use {Value, null, is_member, get, put, of_str}
  open arrays use {elements, of_list}

  unfoldable pub only : Str → Str → Value
  only key text = put key (of_str text) null

  unfoldable pub white_list : List Value
  unfolding only
  white_list =
      only (codes "unit-name") (codes "rsyslog_2eservice")
      ∷ only (codes "unit-name") (codes "watched_2eback_2eservice")
      ∷ only (codes "type") (codes "forking")
      ∷ only (codes "type") (codes "simple")
      ∷ only (codes "type") (codes "dbus")
      ∷ put (codes "restart") (of_str (codes "on-failure")) (only (codes "type") (codes "notify"))
      ∷ []

  unfoldable pub unit_black_list : List Value
  unfolding only
  unit_black_list =
      put (codes "restart") (of_str (codes "no")) (only (codes "type") (codes "dbus"))
      ∷ only (codes "unit-name") (codes "systemd_2d.*_2eservice")
      ∷ []

  -- systemdDetector::systemdDetector, but for the connection.
  unfoldable pub systemd_detector : Value → Value
  unfolding white_list unit_black_list
  systemd_detector cfg =
      let c = service_detector json arrays cfg in
      let d =
        if is_member (codes "whiteList") c
        then c
        else put (codes "whiteList") (of_list white_list) c in
      if is_member (codes "blackList") d
      then d
      else put (codes "blackList") (of_list unit_black_list) d

  -- The members that matchList reads of an element.
  unfoldable pub unit_rule_of : Value → UnitRule
  unit_rule_of v = record {
    unit_name = text_of json arrays (codes "unit-name") v;
    type = text_of json arrays (codes "type") v;
    restart = text_of json arrays (codes "restart") v;
  }

  unfoldable pub unit_rules_of : Str → Value → List UnitRule
  unfolding unit_rule_of
  unit_rules_of list cfg = map unit_rule_of (elements (get list cfg))

-- `matches` is std::regex_match of an expression and a text; `none` is the exception of an expression
-- that is wrong.
module _ (matches : Str → Str → Option Bool) where
  -- One round of the loop of matchList: the last member that is there decides.
  unfoldable pub unit_line_matched : Str → Str → Str → UnitRule → Option Bool
  unit_line_matched small type restart r = do
    named ← elim r.unit_name [ none ↦ some false | some e ↦ matches e small ]
    let typed : Bool = elim r.type [ none ↦ named | some t ↦ str_eq type t ]
    some (elim r.restart [ none ↦ typed | some t ↦ str_eq restart t ])

  unfoldable pub match_rules : Str → Str → Str → List UnitRule → Option Bool
  match_rules small type restart [] = some false
  match_rules small type restart (r ∷ rs) =
      let rest = match_rules small type restart rs in
      unit_line_matched small type restart r >>= λ matched. if matched then some true else rest

-- The path of an object of a unit.
unfoldable pub unit_path : Str → Str
unit_path small = codes "/org/freedesktop/systemd1/unit/" ++ small

-- systemdDetector::matchList
unfoldable pub match_units : (Str → Str → Option Bool) → Bus → Str → List UnitRule → Option Bool
unfolding match_rules
match_units matches bus small rules = do
  type ← get_type bus (unit_path small)
  restart ← get_restart bus (unit_path small)
  match_rules matches small type restart rules

-- line.substr(1,5) == "<node" && line.find("service") != npos
unfoldable pub is_unit_line : Str → Option Bool
is_unit_line line = do
  start ← substr line 1 5
  some (if str_eq start (codes "<node") then contains (codes "service") line else false)

-- The text between the first and the last quote of a line.
unfoldable pub unit_of : Str → Option Str
unit_of line =
    let begin = find_char 34 line in
    substr line (add_size begin 1) (sub_size (sub_size (rfind_char 34 line) begin) 1)

unfoldable pub is_over : Str → Bool
is_over status =
    str_eq status (codes "exited") || (str_eq status (codes "dead") || str_eq status [])

-- What find works with: the regular expressions, the bus, the system, the plugins, the name of the
-- host, and the two lists.
pub record Scan : Type 1 where
  pub matches : Str → Str → Option Bool
  pub bus : Bus
  pub os : Os
  pub enhancers : List Enhancer
  pub host : Str
  pub white : List UnitRule
  pub black : List UnitRule

-- The tests of a unit: its PID, if it is to be detected.
unfoldable pub is_listed : Scan → Str → Option Bool
is_listed f small = do
  white ← match_units f.matches f.bus small f.white
  (if white
      then (match_units f.matches f.bus small f.black >>= λ black. some (not black))
      else some false)

unfoldable pub unit_pid : Scan → Str → Option (Option ℕ)
unfolding is_listed
unit_pid f small = do
  pid ← get_pid f.bus (unit_path small)
  (if pid == 0 then some none else (do
    status ← get_sub_status f.bus (unit_path small)
    (if is_over status
        then some none
        else (do listed ← is_listed f small; some (if listed then some pid else none)))))

-- setHandlerObj, on a service without a handler.
unfoldable pub add_handler : Str → Service → Service
add_handler id s = elim s.handler [ some h ↦ s | none ↦ record s { handler = some id } ]

-- The service that is made for a unit.
unfoldable pub make_unit : Scan → Str → Process → Service
make_unit f small p =
    record (add_main_process f.os p (record (new_service f.host) { uniq_name = small })) {
      handler = some (unit_path small);
    }

-- What find does with a unit that is to be detected.
unfoldable pub take_unit : Scan → Str → ℕ → List Service → List Service
unfolding add_handler make_unit
take_unit f small pid ss =
    if any_pid ss pid
    then (elim (update_first (λ s. have_pid s pid) (add_handler (unit_path small)) ss) [
      | none ↦ ss
      | some ss' ↦ ss'
    ])
    else (let p = from_pid f.os pid in
        if is_empty p.base_name then ss else add_service f.os f.enhancers (make_unit f small p) ss)

-- The first half of a round of the loop of find: the unit of a line with its PID, if it is to be
-- detected; `none` is an exception.
unfoldable pub scan_line : Scan → Str → Option (Option (Str × ℕ))
unfolding unit_pid
scan_line f line = do
  here ← is_unit_line line
  (if not here then some none else (do
    small ← unit_of line
    found ← unit_pid f small
    some (elim found [ none ↦ none | some pid ↦ some (small, pid) ])))

unfoldable pub visit_unit : Scan → Str → List Service → Option (List Service)
unfolding take_unit scan_line
visit_unit f line ss = do
  found ← scan_line f line
  some (elim found [ none ↦ ss | some e ↦ take_unit f e.0 e.1 ss ])

-- The loop: the services behind it, and whether it came to its end. An exception leaves the changes
-- of the rounds before.
unfoldable pub visit_units : Scan → List Str → List Service → List Service × Bool
visit_units f [] ss = (ss, true)
visit_units f (line ∷ lines) ss = elim (visit_unit f line ss) [
  | none ↦ (ss, false)
  | some ss' ↦ visit_units f lines ss'
]

-- The two calls of find that give the text of the units.
unfoldable pub introspect : Bus → Option Str
introspect bus =
    bus.call_method (codes "/org/freedesktop/systemd1/unit")
      (codes "org.freedesktop.DBus.Introspectable") (codes "Introspect") []
    >>= bus.read_text

-- systemdDetector::find
unfoldable pub find_units : Bool → Scan → List Service → List Service × Bool
unfolding visit_units introspect
find_units have_bus f ss = if not have_bus then (ss, true) else elim (introspect f.bus) [
  | none ↦ (ss, true)
  | some text ↦ visit_units f (lines_of [] text) ss
]
