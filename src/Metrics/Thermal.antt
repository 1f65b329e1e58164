-- ===== src/Metrics/Thermal.antt =====
-- The collector of collectors/thermal.cpp over the entries of /sys/class/thermal, in the order in which
-- readdir gives them.
pub mod Zones
use watched_agent.Base.{
  ℕ, Bool, false, ◌&&◌, not, List, [], ◌∷◌, ◌++◌, Option, none, some, if◌then◌else◌, Str, codes,
  length, take, drop, ◌==◌, ◌>>=◌,
}
use watched_agent.Json.{Json}
use watched_agent.Text.{find_char, npos, sub_size, substr}
use watched_agent.Process.{starts_with, starts_with_dot}
use watched_agent.Service.{is_empty}
use watched_agent.Server.{is_directory}
use watched_agent.Resource.{Counter, Resource, next_value, set_property}

-- An entry: its name, st_mode if stat succeeds, and the files temp, type and device/path, if they are
-- there.
pub record Zone : Type 0 where
  pub name : Str
  pub mode : Option ℕ
  pub temp : Option Str
  pub kind : Option Str
  pub device : Option Str

-- ThermalCollector::getContent: a file without its last byte.
unfoldable pub get_content : Option Str → Str
get_content none = []
get_content (some s) = take (sub_size (length s) 1) s

-- The tests at the begin of the loop.
unfoldable pub is_zone : Zone → Bool
is_zone z =
    starts_with (codes "thermal_zone") z.name
    && (not (starts_with_dot z.name)
        && elim z.mode [ none ↦ false | some mode ↦ is_directory mode ])

-- The name of the property: the type, and the path of the device from its first dot on.
unfoldable pub name_of : Zone → Str
unfolding get_content
name_of z =
    let name = get_content z.kind in
    let sub = get_content z.device in
    let pos = find_char b'.' sub in
    if is_empty sub then name else (if pos == npos then name ++ sub else name ++ drop pos sub)

-- `celsius` is (double)(atoi(s))/1000, which rounds and which may be negative.
module _ (json : Json) (celsius : Str → json.Double) where
  open json use {Value, of_double}

  unfoldable pub value_of : Zone → Value
  unfolding get_content
  value_of z = of_double (celsius (get_content z.temp))

  -- The loop over the entries.
  unfoldable pub set_zones : List Zone → Resource json → Option (Resource json)
  unfolding value_of
  set_zones [] r = some r
  set_zones (z ∷ zs) r =
      (if is_zone z then set_property json (name_of z) (value_of z) r else some r) >>= set_zones zs

  -- ThermalCollector::collect; `none` is a directory that cannot be opened.
  unfoldable pub collect_thermal :
      Value → Option (List Zone) → Resource json → Counter → Option (Resource json × Counter)
  unfolding set_zones
  collect_thermal now none r c = some (r, c)
  collect_thermal now (some zs) r c =
      let (r', c') = next_value json now r c in set_zones zs r' >>= λ s. some (s, c')
