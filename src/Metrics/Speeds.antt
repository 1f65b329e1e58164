-- ===== src/Metrics/Speeds.antt =====
-- Class CpuSpeedCollector of collectors/cpuspeed.cpp over the entries of
-- /sys/devices/system/cpu/cpufreq, in the order in which readdir gives them.
use watched_agent.Base.{
  ℕ, Bool, false, ◌&&◌, not, List, [], ◌∷◌, ◌++◌, Option, none, some, if◌then◌else◌, Str, str_eq,
  codes, lookup, insert, ltb, ◌>>=◌,
}
use watched_agent.Json.{Json}
use watched_agent.Text.{scan, digit_val, to_string}
use watched_agent.Process.{starts_with_dot}
use watched_agent.Server.{is_directory}
use watched_agent.Resource.{Counter, next_value, set_property}
use watched_agent.Collector.{Collector, add_resource}

-- An entry: its name, st_mode if stat succeeds, and the file scaling_cur_freq, if it is there.
pub record Policy : Type 0 where
  pub name : Str
  pub mode : Option ℕ
  pub speed : Option Str

-- The text from its first digit on.
unfoldable pub from_digit : Str → Str
from_digit [] = []
from_digit (c ∷ s) = let rest = from_digit s in if ltb (digit_val c) 10 then c ∷ s else rest

-- sscanf(name, "%*[^0-9]%d"): the number behind the first bytes, of which one at least is no digit.
-- `none` is a cpuid of -1.
unfoldable pub cpu_number : Str → Option ℕ
unfolding from_digit
cpu_number [] = none
cpu_number (c ∷ s) =
    let number : Option ℕ = elim (from_digit s) [
      | [] ↦ none
      | d ∷ t ↦ some (scan 10 0 (d ∷ t)).0
    ] in
    if ltb (digit_val c) 10 then none else number

unfoldable pub is_policy : Policy → Bool
is_policy p =
    not (starts_with_dot p.name) && elim p.mode [ none ↦ false | some mode ↦ is_directory mode ]

-- `megahertz` is atoi(s)/1000, which may be negative.
module _ (json : Json) (megahertz : Str → json.Value) where
  open json use {Value}

  -- What a collector keeps, and the counter of all values.
  pub record Speeds : Type 0 where
    pub collector : Collector json
    pub counter : Counter

  -- The last calls of a round, for an entry that is read.
  unfoldable pub set_speed : Value → ℕ → Str → Str → Speeds → Option Speeds
  set_speed now cpuid name speed s = do
    let c =
        add_resource json name (codes "CPU " ++ (to_string cpuid ++ codes " speed (Mhz)"))
          s.collector
    r ← lookup str_eq name c.resources
    let (r', n) = next_value json now r s.counter
    new ← set_property json (codes "MHz") (megahertz speed) r'
    some (record {
      collector = record c { resources = insert str_eq name new c.resources };
      counter = n;
    })

  -- The loop over the entries.
  unfoldable pub set_speeds : Value → List Policy → Speeds → Option Speeds
  unfolding set_speed
  set_speeds now [] s = some s
  set_speeds now (p ∷ ps) s =
      let round : Option Speeds = elim (cpu_number p.name) [
        | none ↦ some s
        | some cpuid ↦ elim p.speed [
          | none ↦ some s
          | some speed ↦ if is_policy p then set_speed now cpuid p.name speed s else some s
        ]
      ] in
      round >>= set_speeds now ps

  -- CpuSpeedCollector::collect; `none` is a directory that cannot be opened.
  unfoldable pub collect_speeds : Value → Option (List Policy) → Speeds → Option Speeds
  unfolding set_speeds
  collect_speeds now none s = some s
  collect_speeds now (some ps) s = set_speeds now ps s
