-- ===== src/Tests/Units.antt =====
-- A bus with one unit, and the systemd plugin on it.
use watched_agent.Base.{
  ℕ, true, false, ◌&&◌, ◌||◌, not, List, [], ◌∷◌, Option, none, some, if◌then◌else◌, Str, str_eq,
  codes, any, ◌==◌, ◌≡◌, ◌<◌, ◌^◌, length, refl, arith,
}
use watched_agent.Process.{Os, from_pid, set_sockets, have_inode}
use watched_agent.Service.{Service, have_pid, is_empty}
use watched_agent.LogParser.{lines_of}
use watched_agent.Manager.{any_pid, Enhancer}
use watched_agent.Metrics.Disks.{starts_with_slash}
use watched_agent.Systemd.{
  Basic, number, text, Bus, get_status, get_pid, get_sub_status, is_blackout, enhance_unit,
}
use watched_agent.Systemd.Units.{
  Scan, UnitRule, unit_path, find_units, introspect, is_unit_line, unit_of, is_over, match_units,
}
use watched_agent.Systemd.Listing.{find_units-finds}
use watched_agent.Systemd.Handling.{enhance_unit-KeepsMain, is_blackout-knows}
use watched_agent.Tests.Processes.{system}
use watched_agent.Tests.Services.{web}
use watched_agent.Tests.Sockets.{raw_addr}
use watched_agent.Socket.{Socket}
use watched_agent.Manager.Detector.{listening, match_list}
use watched_agent.Manager.Finding.{stands_for}
use watched_agent.Manager.Searching.{find}
use watched_agent.Searches.Shipped.{detectors, find-keeps_shipped, find-finds_shipped}
use watched_agent.Searches.{units_detector, sockets_detector}

abbrev unit_line : Str
unit_line = codes " <node name=\"nginx_2eservice\"/>"

-- The answer to Get: the property is the second argument.
abbrev property_of : List Basic → Option Basic
property_of (f ∷ text p ∷ args) =
    if str_eq p (codes "ExecMainPID")
    then some (number 10)
    else if str_eq p (codes "SubState")
    then some (text (codes "running"))
    else if str_eq p (codes "ActiveState")
    then some (text (codes "active"))
    else if str_eq p (codes "Type")
    then some (text (codes "forking"))
    else some (text (codes "no"))
property_of _ = none

abbrev answer : Str → List Basic → Option Basic
answer method args =
    if str_eq method (codes "Introspect")
    then some (text unit_line)
    else if str_eq method (codes "GetUnitByPID")
    then some (text (codes "/u/nginx_2eservice"))
    else property_of args

abbrev text_in : Basic → Option Str
text_in (number n) = none
text_in (text s) = some s

abbrev pub bus : Bus
bus = record {
  Message = Basic;
  call_method =
      λ path face method args. if starts_with_slash path then answer method args else none;
  peek_type = λ m. some (b's', []);
  enter_container = λ type contents m. some m;
  read_basic = λ type m. some (m, m);
  exit_container = λ m. some m;
  read_text = text_in;
}

abbrev scan : Scan
scan = record {
  matches = λ e s. some (str_eq e s);
  bus = bus;
  os = system;
  enhancers = [];
  host = codes "host";
  white = record { unit_name = none; type = some (codes "forking"); restart = none } ∷ [];
  black = record { unit_name = some (codes "cups_2eservice"); type = none; restart = none } ∷ [];
}

knows-web : any_pid (web ∷ []) 10 ≡ true
unfolding any_pid have_pid
knows-web = refl

introspected : introspect bus ≡ some unit_line
unfolding introspect starts_with_slash str_eq
introspected = refl

asked-nginx : get_pid bus (unit_path (codes "nginx_2eservice")) ≡ some 10
unfolding get_pid starts_with_slash unit_path str_eq
asked-nginx = refl

listed : any (λ l. str_eq l unit_line) (lines_of [] unit_line) ≡ true
unfolding lines_of str_eq
listed = refl

ended : (find_units true scan []).1 ≡ true
unfolding find_units starts_with_slash str_eq lines_of watched_agent.Systemd.Units.visit_unit
    is_unit_line watched_agent.Text.substr watched_agent.Process.contains unit_of
    watched_agent.Text.add_size watched_agent.Text.sub_size watched_agent.Text.find_char
    watched_agent.Text.rfind_char watched_agent.Text.find_from get_pid unit_path get_sub_status
    is_over match_units watched_agent.Systemd.get_type watched_agent.Systemd.get_restart
    watched_agent.Systemd.Units.unit_line_matched
ended = refl

is-unit : is_unit_line unit_line ≡ some true
unfolding is_unit_line watched_agent.Text.substr str_eq watched_agent.Process.contains
is-unit = refl

unit-nginx : unit_of unit_line ≡ some (codes "nginx_2eservice")
unfolding unit_of watched_agent.Text.substr watched_agent.Text.add_size watched_agent.Text.find_char
    watched_agent.Text.find_from watched_agent.Text.sub_size watched_agent.Text.rfind_char
unit-nginx = refl

shown : get_sub_status bus (unit_path (codes "nginx_2eservice")) ≡ some (codes "running")
unfolding get_sub_status starts_with_slash unit_path str_eq
shown = refl

active : get_status bus (unit_path (codes "nginx_2eservice")) ≡ some (codes "active")
unfolding get_status starts_with_slash unit_path str_eq
active = refl

running : is_over (codes "running") ≡ false
unfolding is_over str_eq
running = refl

white : match_units scan.matches bus (codes "nginx_2eservice") scan.white ≡ some true
unfolding match_units watched_agent.Systemd.get_type starts_with_slash unit_path str_eq
    watched_agent.Systemd.get_restart watched_agent.Systemd.Units.unit_line_matched
white = refl

black : match_units scan.matches bus (codes "nginx_2eservice") scan.black ≡ some false
unfolding match_units watched_agent.Systemd.get_type starts_with_slash unit_path str_eq
    watched_agent.Systemd.get_restart watched_agent.Systemd.Units.unit_line_matched
black = refl

named : is_empty (from_pid system 10).base_name ≡ false
unfolding is_empty from_pid watched_agent.Process.base_name_of watched_agent.Text.add_size
    watched_agent.Text.rfind_char watched_agent.Process.strip_deleted
named = refl

find_units-finds_example : any_pid (find_units true scan []).0 10 ≡ true
find_units-finds_example =
    find_units-finds scan tt [] unit_line unit_line (codes "nginx_2eservice") (codes "running") 10
      introspected listed ended is-unit unit-nginx asked-nginx (λ e. omega (arith, e)) shown running
      white black refl named

is_blackout-knows_example :
    (s' : Service) × (is_blackout bus true system (unit_path (codes "nginx_2eservice")) (some web)
      ≡ some (true, some s'))
    × ((q : ℕ)
        → system.alive q ≡ true
        → have_pid s' q ≡ (
            have_pid web q
            || (str_eq (codes "active") (codes "active")
                && (not (10 == 0)
                    && (not (is_empty (from_pid system 10).base_name) && (10 == q))))))
unfolding str_eq
is_blackout-knows_example =
    is_blackout-knows bus system (unit_path (codes "nginx_2eservice")) (codes "active") web 10
      active asked-nginx

abbrev IsShort : Basic → Type 0
IsShort (number n) = Unit
IsShort (text s) = length s < 2 ^ 63

abbrev enhanced : Service
enhanced = record web {
  uniq_name = codes "nginx_2eservice";
  handler = some (codes "nginx_2eservice");
}

-- The same system with one line of /proc/net/tcp: 127.0.0.1:80 listens at inode 77.
abbrev tcp_line : Str
tcp_line = codes "0: 0100007F:0050 00000000:0000 0A 0:0 0:0 0 0 0 77"

abbrev network : Os
network = record system {
  net_lines = λ type. if str_eq type (codes "tcp") then tcp_line ∷ [] else [];
}

abbrev seen : Socket
seen = record {
  id = 77;
  type = codes "tcp";
  source = record raw_addr { port = 80; ip1 = 127; ip2 = 0; ip3 = 0; ip4 = 1 };
  dest = record raw_addr { port = 0; ip1 = 0; ip2 = 0; ip3 = 0; ip4 = 0 };
}

net_read : listening network raw_addr [] ≡ some (seen ∷ [])
unfolding listening str_eq watched_agent.Socket.token watched_agent.Socket.words
    watched_agent.Manager.Detector.is_skipped watched_agent.Socket.from_line
    watched_agent.Socket.is_v4 watched_agent.Socket.set_sock_from watched_agent.Text.substr
    watched_agent.Text.add_size watched_agent.Text.find_char watched_agent.Text.find_from
    watched_agent.Socket.atoi_u32 watched_agent.Text.strtoul16
net_read = refl

owned :
    any
      (λ (k : Socket). have_inode (set_sockets network (from_pid network 10)).sockets k.id)
      (seen ∷ [])
    ≡ true
unfolding have_inode set_sockets from_pid watched_agent.Process.add_fds watched_agent.Process.add_fd
    watched_agent.Process.starts_with_dot watched_agent.Process.socket_inode
owned = refl

free : match_list (from_pid network 10) [] ≡ false
unfolding match_list
free = refl

named-10 : any (stands_for 10) (codes "10" ∷ codes "self" ∷ []) ≡ true
unfolding watched_agent.Manager.Detector.is_number watched_agent.Socket.atoi_u32
named-10 = refl

abbrev scan_network : Scan
scan_network = record scan { os = network }

ended_network : (find_units true scan_network []).1 ≡ true
unfolding find_units starts_with_slash str_eq lines_of watched_agent.Systemd.Units.visit_unit
    is_unit_line watched_agent.Text.substr watched_agent.Process.contains unit_of
    watched_agent.Text.add_size watched_agent.Text.sub_size watched_agent.Text.find_char
    watched_agent.Text.rfind_char watched_agent.Text.find_from get_pid unit_path get_sub_status
    is_over match_units watched_agent.Systemd.get_type watched_agent.Systemd.get_restart
    watched_agent.Systemd.Units.unit_line_matched
ended_network = refl

-- The enhancer of systemd.
abbrev plugins : List Enhancer
plugins = enhance_unit bus true ∷ []

find-finds_shipped_example :
    any_pid
      (find
        (detectors
          (units_detector true true scan_network)
          (true ∷ [])
          (sockets_detector true network raw_addr plugins (codes "host") []))
        [])
      10
    ≡ true
find-finds_shipped_example =
    find-finds_shipped network raw_addr plugins (enhance_unit-KeepsMain bus true, tt) (codes "host")
      [] (codes "10" ∷ codes "self" ∷ []) refl scan_network refl true true (true ∷ []) (seen ∷ [])
      [] 10 net_read ended_network named-10 refl owned free

find-keeps_shipped_example :
    any_pid
      (find
        (detectors
          (units_detector true true scan_network)
          (true ∷ [])
          (sockets_detector true network raw_addr plugins (codes "host") []))
        (web ∷ []))
      10
    ≡ true
find-keeps_shipped_example =
    find-keeps_shipped network raw_addr plugins (enhance_unit-KeepsMain bus true, tt) (codes "host")
      [] (codes "10" ∷ codes "self" ∷ []) refl scan_network refl true true (true ∷ []) true
      (web ∷ []) 10 refl knows-web
