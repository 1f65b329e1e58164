-- ===== src/Metrics/ServiceMemory.antt =====
-- The collectors of a service that add up over its processes: services/mem.cpp and services/io.cpp.
use watched_agent.Base.{
  ℕ, ◌+◌, ◌%◌, ◌^◌, List, [], ◌∷◌, Option, none, some, if◌then◌else◌, Str, str_eq, length, take,
  drop, ◌==◌, codes, ◌>>=◌,
}
use watched_agent.Json.{Json}
use watched_agent.Text.{add_size, find_char, substr, npos}
use watched_agent.Process.{starts_with}
use watched_agent.Socket.{atoi_u32}
use watched_agent.Resource.{Counter, Resource, next_value}
use watched_agent.Resource.Values.{Pids, next_pids, set_pid_value}
use watched_agent.Metrics.Memory.{set_properties}

-- The sums, uint32_t.
pub record Sums : Type 0 where
  pub total : ℕ
  pub swap : ℕ
  pub shared : ℕ

-- The position of the first occurrence of a text, where `s` begins at position `i`.
unfoldable pub find_text : Str → ℕ → Str → ℕ
find_text t i [] = npos
find_text t i (c ∷ s) =
    let rest = find_text t (i + 1) s in if starts_with t (c ∷ s) then i else rest

-- The chain of tests on a line's name: the sums are on uint32_t.
unfoldable pub add_amount : Str → ℕ → Sums → Sums
add_amount key value s =
    if str_eq key (codes "Rss")
    then record s { total = (s.total + value) % 2 ^ 32 }
    else if str_eq key (codes "Swap")
    then record s { swap = (s.swap + value) % 2 ^ 32 }
    else if str_eq key (codes "Shared_Clean")
    then record s { shared = (s.shared + value) % 2 ^ 32 }
    else s

-- One line: with no colon, the call of substr throws.
unfoldable pub add_smap : Str → Sums → Option Sums
unfolding find_text add_amount
add_smap line s =
    let unit = find_text (codes " kB") 0 line in
    if unit == npos then some s else do
      key ← substr line 0 (find_char b':' line)
      value ← substr line (add_size (length key) 1) unit
      some (add_amount key (atoi_u32 value) s)

unfoldable pub add_smaps : List Str → Sums → Option Sums
add_smaps [] s = some s
add_smaps (line ∷ lines) s = add_smap line s >>= add_smaps lines

-- The loop over the processes: `smaps` gives the lines of a file that can be opened.
unfoldable pub add_processes : (ℕ → Option (List Str)) → List ℕ → Sums → Option Sums
unfolding add_smaps
add_processes smaps [] s = some s
add_processes smaps (pid ∷ pids) s = elim (smaps pid) [
  | none ↦ add_processes smaps pids s
  | some lines ↦ add_smaps lines s >>= add_processes smaps pids
]

module _ (json : Json) where
  open json use {Value, of_ℕ}

  -- ServMemCollector::collect, on the result of getPIDs.
  unfoldable pub collect_service_memory :
      Value
      → (ℕ → Option (List Str))
      → List ℕ
      → Resource json × Counter
      → Option (Resource json × Counter)
  unfolding add_processes
  collect_service_memory now smaps pids s = do
    sums ← add_processes smaps pids (record { total = 0; swap = 0; shared = 0 })
    let (r, c) = next_value json now s.0 s.1
    r' ←
        set_properties json
          ((codes "total", of_ℕ sums.total)
            ∷ (codes "swap", of_ℕ sums.swap)
            ∷ (codes "shared", of_ℕ sums.shared)
            ∷ [])
          r
    some (r', c)

  unfoldable pub io_line : ℕ → Str → Pids json → Option (Pids json)
  io_line pid line p =
      let colon = find_char b':' line in
      if colon == npos
      then some p
      else let key = take colon line in
        let value = drop (length key + 1) line in
        if str_eq key (codes "read_bytes")
        then set_pid_value json (codes "rd") pid (atoi_u32 value) p
        else if str_eq key (codes "write_bytes")
        then set_pid_value json (codes "wt") pid (atoi_u32 value) p
        else some p

  unfoldable pub io_lines : ℕ → List Str → Pids json → Option (Pids json)
  unfolding io_line
  io_lines pid [] p = some p
  io_lines pid (line ∷ lines) p = io_line pid line p >>= io_lines pid lines

  unfoldable pub io_processes : (ℕ → Option (List Str)) → List ℕ → Pids json → Option (Pids json)
  unfolding io_lines
  io_processes files [] p = some p
  io_processes files (pid ∷ pids) p = elim (files pid) [
    | none ↦ io_processes files pids p
    | some lines ↦ io_lines pid lines p >>= io_processes files pids
  ]

  -- ServioCollector::collect
  unfoldable pub collect_io :
      Value → (ℕ → Option (List Str)) → List ℕ → Pids json × Counter → Option (Pids json × Counter)
  unfolding io_processes
  collect_io now files pids s = do
    (p, c) ← next_pids json now s.0 s.1
    p' ← io_processes files pids p
    some (p', c)
