-- ===== src/Metrics/Memory.antt =====
-- Class MemoryCollector of collectors/memory.cpp: the lines of /proc/meminfo.
pub mod Shares
use watched_agent.Base.{
  ℕ, zero, suc, ◌+◌, ◌-◌, ◌*◌, ◌%◌, ◌^◌, Bool, true, false, List, [], ◌∷◌, Option, none, some,
  if◌then◌else◌, Str, str_eq, length, drop, ltb, ◌==◌, codes, ◌>>=◌,
}
use watched_agent.Json.{Json}
use watched_agent.Text.{add_size, sub_size, find_char, find_char_at, substr}
use watched_agent.Socket.{atoi_u32}
use watched_agent.Resource.{Counter, Resource, next_value, set_property}

-- The loop that looks for the first byte that is no space, from `i` on; `start` if there is none.
unfoldable pub skip_from : ℕ → ℕ → Str → ℕ
skip_from start i [] = start
skip_from start i (c ∷ s) = let rest = skip_from start (i + 1) s in if c == b' ' then rest else i

-- The place of the value in a line.
unfoldable pub amount_start : Str → ℕ
unfolding skip_from
amount_start line =
    let from = add_size (find_char b':' line) 1 in skip_from from from (drop from line)

-- The name and the value of a line.
unfoldable pub read_amount : Str → Option (Str × ℕ)
unfolding amount_start
read_amount line = do
  id ← substr line 0 (find_char b':' line)
  let start = amount_start line
  text ← substr line start (sub_size (find_char_at b' ' line (start + 1)) start)
  some (id, atoi_u32 text)

pub record MemInfo : Type 0 where
  pub total : ℕ
  pub free : ℕ
  pub slab : ℕ
  pub buffers : ℕ
  pub cached : ℕ
  pub swap_total : ℕ
  pub swap_free : ℕ

abbrev pub no_info : MemInfo
no_info = record {
  total = 0;
  free = 0;
  slab = 0;
  buffers = 0;
  cached = 0;
  swap_total = 0;
  swap_free = 0;
}

-- The chain of tests on a line's name.
unfoldable pub store : Str → ℕ → MemInfo → MemInfo
store id value m =
    if str_eq id (codes "MemTotal")
    then record m { total = value }
    else if str_eq id (codes "MemFree")
    then record m { free = value }
    else if str_eq id (codes "Buffers")
    then record m { buffers = value }
    else if str_eq id (codes "Cached")
    then record m { cached = value }
    else if str_eq id (codes "Slab")
    then record m { slab = value }
    else if str_eq id (codes "SwapTotal")
    then record m { swap_total = value }
    else if str_eq id (codes "SwapFree")
    then record m { swap_free = value }
    else m

unfoldable pub read_meminfo : List Str → MemInfo → Option MemInfo
read_meminfo [] m = some m
read_meminfo (line ∷ lines) m = do
  (id, value) ← read_amount line
  read_meminfo lines (store id value m)

-- The differences, on uint32_t.
unfoldable pub minus_u32 : ℕ → ℕ → ℕ
minus_u32 a b = (a + 2 ^ 32 - b % 2 ^ 32) % 2 ^ 32

unfoldable pub swap_used : MemInfo → ℕ
unfolding minus_u32
swap_used m = minus_u32 m.swap_total m.swap_free

unfoldable pub apps : MemInfo → ℕ
unfolding minus_u32
apps m = minus_u32 m.total (m.free + m.cached + m.slab + m.buffers)

-- 100*MemFree, on uint32_t.
unfoldable pub hundredfold : ℕ → ℕ
hundredfold free = 100 * free % 2 ^ 32

module _ (json : Json) where
  open json use {Value, of_ℕ, of_double, div, double_of}

  unfoldable pub percent : ℕ → ℕ → Value
  percent free total = of_double (div (double_of (hundredfold free)) (double_of total))

  unfoldable pub set_properties : List (Str × Value) → Resource json → Option (Resource json)
  set_properties [] r = some r
  set_properties (e ∷ es) r = set_property json e.0 e.1 r >>= set_properties es

  unfoldable pub swap_values : MemInfo → List (Str × Value)
  unfolding percent
  swap_values m =
      (codes "free", of_ℕ m.swap_free)
      ∷ (codes "used", of_ℕ (swap_used m))
      ∷ (codes "pct", percent m.swap_free m.swap_total)
      ∷ []

  unfoldable pub memory_values : MemInfo → List (Str × Value)
  unfolding percent
  memory_values m =
      (codes "free", of_ℕ m.free)
      ∷ (codes "buffer", of_ℕ m.buffers)
      ∷ (codes "apps", of_ℕ (apps m))
      ∷ (codes "cached", of_ℕ m.cached)
      ∷ (codes "slab", of_ℕ m.slab)
      ∷ (codes "pct", percent m.free m.total)
      ∷ []

  -- The two histories that a collector of the memory keeps, and the values' counter.
  pub record Memory : Type 0 where
    pub swap : Resource json
    pub memory : Resource json
    pub counter : Counter

  -- MemoryCollector::collect, on the lines of the file; `none` is an exception or a history of no
  -- place.
  unfoldable pub collect_memory : Value → List Str → Memory → Option Memory
  unfolding read_meminfo set_properties swap_values memory_values
  collect_memory now [] s = some s
  collect_memory now (line ∷ lines) s = do
    m ← read_meminfo (line ∷ lines) no_info
    let (swap, c) = next_value json now s.swap s.counter
    swap' ← set_properties (swap_values m) swap
    let (memory, c') = next_value json now s.memory c
    memory' ← set_properties (memory_values m) memory
    some (record { swap = swap'; memory = memory'; counter = c' })
