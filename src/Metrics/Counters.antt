-- ===== src/Metrics/Counters.antt =====
-- The collectors that show the rates of counters: collectors/vmstat.cpp, collectors/netdev.cpp and
-- collectors/diskstats.cpp.
use watched_agent.Base.{
  ℕ, ◌+◌, List, [], ◌∷◌, Option, none, some, if◌then◌else◌, Str, str_eq, any, length, take, drop,
  leb, codes, ◌>>=◌, lookup, insert,
}
use watched_agent.Json.{Json}
use watched_agent.Text.{add_size, sub_size, find_char, rfind_char, substr}
use watched_agent.Socket.{words, token, atoi_u32}
use watched_agent.Resource.{Counter, new_resource}
use watched_agent.Resource.Values.{Tick, set_tick_value, next_tick}

-- The counters of /proc/vmstat that are shown.
abbrev pub vm_names : List Str
vm_names =
    codes "pgpgin"
    ∷ codes "pgpgout"
    ∷ codes "pswpin"
    ∷ codes "pswpout"
    ∷ codes "pgfree"
    ∷ codes "pgactivate"
    ∷ codes "pgdeactivate"
    ∷ codes "pgfault"
    ∷ []

-- Where the counters of netDevRess and diskStatsRess stand in a line.
abbrev pub net_columns : List (Str × ℕ)
net_columns =
    (codes "rbytes", 0)
    ∷ (codes "rpackets", 1)
    ∷ (codes "rerrs", 2)
    ∷ (codes "rdrop", 3)
    ∷ (codes "rmulti", 7)
    ∷ (codes "tbytes", 8)
    ∷ (codes "tpackets", 9)
    ∷ (codes "terrs", 10)
    ∷ (codes "tdrop", 11)
    ∷ []

abbrev pub disk_columns : List (Str × ℕ)
disk_columns =
    (codes "rcount", 3)
    ∷ (codes "rmerge", 4)
    ∷ (codes "rsector", 5)
    ∷ (codes "rtime", 6)
    ∷ (codes "wcount", 7)
    ∷ (codes "wmerge", 8)
    ∷ (codes "wsector", 9)
    ∷ (codes "wtime", 10)
    ∷ (codes "iotime", 12)
    ∷ (codes "iowtime", 13)
    ∷ []

-- The name and the text behind it, of a line of /proc/net/dev; `none` is an exception.
unfoldable pub net_line : Str → Option (Str × Str)
net_line line = do
  let end = find_char b':' line
  let start = add_size (rfind_char b' ' (take (end + 1) line)) 1
  id ← substr line start (sub_size end start)
  text ← substr line (add_size end 1) (length line)
  some (id, text)

module _ (json : Json) where
  open json use {Value}

  -- setRaw of netDevRess and of diskStatsRess.
  unfoldable pub set_raw : List (Str × ℕ) → List Str → Tick json → Option (Tick json)
  set_raw [] raw t = some t
  set_raw (c ∷ cs) raw t = do
    text ← token raw c.1
    t' ← set_tick_value json c.0 (atoi_u32 text) t
    set_raw cs raw t'

  unfoldable pub vm_lines : List Str → Tick json → Option (Tick json)
  vm_lines [] t = some t
  vm_lines (line ∷ lines) t =
      let id = take (find_char b' ' line) line in
      let text = drop (add_size (find_char b' ' line) 1) line in
      if any (str_eq id) vm_names
      then set_tick_value json id (atoi_u32 text) t >>= vm_lines lines
      else vm_lines lines t

  -- vmStatCollector::collect
  unfoldable pub collect_vm : Value → List Str → Tick json × Counter → Option (Tick json × Counter)
  unfolding vm_lines
  collect_vm now lines s = do
    let (t, c) = next_tick json now s.0 s.1
    t' ← vm_lines lines t
    some (t', c)

  -- The resources of a collector by their names, and the values' counter.
  pub record Ticks : Type 0 where
    pub ticks : List (Str × Tick json)
    pub counter : Counter

  -- ressources[id], made when it is not there, with a next value and the counters of a line.
  unfoldable pub update_tick :
      Value → ℕ → ℕ → List (Str × ℕ) → Str → List Str → Ticks → Option Ticks
  unfolding set_raw
  update_tick now history freq columns id raw s = do
    let found : Tick json = elim (lookup str_eq id s.ticks) [
      | none ↦ record { res = new_resource json history; old = []; freq = freq }
      | some t ↦ t
    ]
    let (t, c) = next_tick json now found s.counter
    t' ← set_raw columns raw t
    some (record { ticks = insert str_eq id t' s.ticks; counter = c })

  -- NetDevCollector::collect
  unfoldable pub collect_net : Value → ℕ → ℕ → List Str → Ticks → Option Ticks
  unfolding update_tick net_line
  collect_net now history freq [] s = some s
  collect_net now history freq (line ∷ lines) s =
      if leb (length line) (find_char b':' line) then collect_net now history freq lines s else do
        (id, text) ← net_line line
        s' ← update_tick now history freq net_columns id (words text) s
        collect_net now history freq lines s'

  -- diskStatsCollector::collect
  unfoldable pub collect_disk : Value → ℕ → ℕ → List Str → Ticks → Option Ticks
  unfolding update_tick
  collect_disk now history freq [] s = some s
  collect_disk now history freq (line ∷ lines) s = do
    id ← token (words line) 2
    if str_eq (take 3 id) (codes "dm-") then collect_disk now history freq lines s else do
      s' ← update_tick now history freq disk_columns id (words line) s
      collect_disk now history freq lines s'
