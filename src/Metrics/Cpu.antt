-- ===== src/Metrics/Cpu.antt =====
-- Class cpuTicks and class CpuUseCollector of collectors/cpuuse.cpp: the shares of the time of each
-- processor, in /proc/stat.
pub mod Differences
use watched_agent.Base.{
  ℕ, ◌+◌, ◌-◌, ◌%◌, ◌^◌, List, [], ◌∷◌, Bool, true, false, Option, none, some, Str, str_eq, codes,
  lookup, insert, ltb, if◌then◌else◌, ◌>>=◌, take,
}
use watched_agent.Json.{Json}
use watched_agent.Text.{sub_size, find_char, find_char_at, substr}
use watched_agent.Socket.{words, token, atoi_u32}
use watched_agent.Resource.{Counter, Resource, next_value, set_property}
use watched_agent.Resource.Values.{Tick, next_tick, set_tick_value}

-- Where the times stand in a line, in the order of std::map.
abbrev pub cpu_columns : List (Str × ℕ)
cpu_columns =
    (codes "idle", 4)
    ∷ (codes "iowait", 5)
    ∷ (codes "irq", 6)
    ∷ (codes "nice", 2)
    ∷ (codes "softirq", 7)
    ∷ (codes "system", 3)
    ∷ (codes "user", 1)
    ∷ []

-- A time to wait above ten millions counts as none.
unfoldable pub without_bogus : Str → ℕ → ℕ
without_bogus name n = if str_eq name (codes "iowait") then (if ltb 10000000 n then 0 else n) else n

unfoldable pub read_times : List (Str × ℕ) → List Str → Option (List (Str × ℕ))
unfolding without_bogus
read_times [] raw = some []
read_times (c ∷ cs) raw = do
  text ← token raw c.1
  rest ← read_times cs raw
  some ((c.0, without_bogus c.0 (atoi_u32 text)) ∷ rest)

-- old[id], which is 0 where it is new.
unfoldable pub old_time : List (Str × ℕ) → Str → ℕ
old_time old name = elim (lookup str_eq name old) [ none ↦ 0 | some n ↦ n ]

-- live[id] - old[id] on uint.
unfoldable pub differences : List (Str × ℕ) → List (Str × ℕ) → List (Str × ℕ)
unfolding old_time
differences old [] = []
differences old (e ∷ es) = (e.0, (e.1 + 2 ^ 32 - old_time old e.0) % 2 ^ 32) ∷ differences old es

unfoldable pub sum_u32 : List (Str × ℕ) → ℕ
sum_u32 [] = 0
sum_u32 (e ∷ es) = (e.1 + sum_u32 es) % 2 ^ 32

module _ (json : Json) where
  open json use {Value, Double, of_double, double_of, mul, div}

  pub record CpuTicks : Type 0 where
    pub res : Resource json
    pub old : List (Str × ℕ)

  -- (double)diff*100/sum
  unfoldable pub share : ℕ → ℕ → Value
  share n sum = of_double (div (mul (double_of n) (double_of 100)) (double_of sum))

  unfoldable pub set_shares : ℕ → List (Str × ℕ) → Resource json → Option (Resource json)
  unfolding share
  set_shares sum [] r = some r
  set_shares sum (e ∷ es) r =
      if str_eq e.0 (codes "idle")
      then set_shares sum es r
      else set_property json e.0 (share e.1 sum) r >>= set_shares sum es

  -- cpuTicks::setRaw
  unfoldable pub set_cpu_raw : List Str → CpuTicks → Option CpuTicks
  unfolding read_times differences sum_u32 set_shares
  set_cpu_raw raw t = do
    live ← read_times cpu_columns raw
    let diff = differences t.old live
    r ← set_shares (sum_u32 diff) diff t.res
    some (record { res = r; old = live })

  pub record Cpus : Type 0 where
    pub cpus : List (Str × CpuTicks)
    pub intr : Tick json
    pub ctxt : Tick json
    pub counter : Counter

  unfoldable pub cpu_id : Str → Option Str
  cpu_id line =
      if str_eq (take 4 line) (codes "cpu ")
      then some (codes "all")
      else substr line 3 (sub_size (find_char b' ' line) 3)

  unfoldable pub update_cpu : Value → Str → Cpus → Option Cpus
  unfolding cpu_id set_cpu_raw
  update_cpu now line s = do
    id ← cpu_id line
    t ← lookup str_eq id s.cpus
    let (r, c) = next_value json now t.res s.counter
    t' ← set_cpu_raw (words line) (record t { res = r })
    some (record s { cpus = insert str_eq id t' s.cpus; counter = c })

  -- The number behind the name of a counter of five bytes.
  unfoldable pub update_counter : Value → Str → Tick json → Counter → Option (Tick json × Counter)
  update_counter now line t c = do
    let (t', c') = next_tick json now t c
    text ← substr line 5 (sub_size (find_char_at b' ' line 5) 5)
    t'' ← set_tick_value json (codes "value") (atoi_u32 text) t'
    some (t'', c')

  unfoldable pub update_intr : Value → Str → Cpus → Option Cpus
  unfolding update_counter
  update_intr now line s = do
    (t, c) ← update_counter now line s.intr s.counter
    some (record s { intr = t; counter = c })

  unfoldable pub update_ctxt : Value → Str → Cpus → Option Cpus
  unfolding update_counter
  update_ctxt now line s = do
    (t, c) ← update_counter now line s.ctxt s.counter
    some (record s { ctxt = t; counter = c })

  -- CpuUseCollector::collect; `none` is an exception, or a processor that the constructor did not see.
  unfoldable pub collect_cpu : Value → List Str → Cpus → Option Cpus
  unfolding update_cpu update_intr update_ctxt
  collect_cpu now [] s = some s
  collect_cpu now (line ∷ lines) s = do
    s' ←
        (if str_eq (take 3 line) (codes "cpu")
          then update_cpu now line s
          else if str_eq (take 4 line) (codes "intr")
          then update_intr now line s
          else if str_eq (take 4 line) (codes "ctxt")
          then update_ctxt now line s
          else some s)
    collect_cpu now lines s'
