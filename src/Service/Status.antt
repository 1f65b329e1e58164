-- ===== src/Service/Status.antt =====
-- The index page and the JSON status of a service agree.
use watched_agent.Base.{
  ℕ, ◌+◌, Bool, true, false, ◌&&◌, not, List, [], ◌∷◌, some, ◌≡◌, arith, if◌then◌else◌, length, ◌⊎◌,
  none, refl, Option-cases, inl, inr,
}
use watched_agent.Socket.{Socket}
use watched_agent.Process.{Os, Process}
use watched_agent.Service.{Service, have_socket}
use watched_agent.Service.Views.{
  State, failed, SocketEntry, ProcessEntry, is_blackout, socket_entries, process_entries,
  get_json_status, Counts, count_up, count_sockets, count_processes, get_index_counts, Replies,
  Status, status_of, counts_of,
}

abbrev pub is_failed : State → Bool
is_failed failed = true
is_failed _ = false

-- The entries that a status shows as failed.
pub failed_sockets : List SocketEntry → ℕ
failed_sockets [] = 0
failed_sockets (e ∷ es) = (if is_failed e.status then 1 else 0) + failed_sockets es

pub failed_processes : List ProcessEntry → ℕ
failed_processes [] = 0
failed_processes (e ∷ es) = (if is_failed e.status then 1 else 0) + failed_processes es

count_sockets_sum :
    (os : Os) (s : Service) (black : Bool) (ks : List Socket) (c : Counts)
    → ((count_sockets os s black ks c).failed
        ≡ c.failed + failed_sockets (socket_entries os s black ks))
      × ((count_sockets os s black ks c).ok + (count_sockets os s black ks c).failed
          ≡ c.ok + c.failed + length ks)
unfolding count_sockets socket_entries failed_sockets
count_sockets_sum os s black [] c = omega arith
count_sockets_sum os s black (k ∷ ks) c =
    ground (
      arith,
      count_sockets_sum os s black ks (count_up (not (have_socket os s k.id) && not black) c),
    )

count_processes_sum :
    (os : Os) (black : Bool) (ps : List Process) (c : Counts)
    → ((count_processes os black ps c).failed
        ≡ c.failed + failed_processes (process_entries os black ps))
      × ((count_processes os black ps c).ok + (count_processes os black ps c).failed
          ≡ c.ok + c.failed + length ps)
unfolding count_processes process_entries failed_processes
count_processes_sum os black [] c = omega arith
count_processes_sum os black (p ∷ ps) c =
    ground (arith, count_processes_sum os black ps (count_up (not (os.alive p.pid) && not black) c))

counts-agree :
    (os : Os) (s : Service) (black : Bool)
    → ((counts_of os black s).failed
        ≡ failed_sockets (status_of os black s).sockets
          + failed_processes (status_of os black s).process)
      × ((counts_of os black s).ok + (counts_of os black s).failed
          ≡ length s.sockets + length s.main_process)
unfolding counts_of status_of
counts-agree os s black =
    let zero_counts : Counts = record { ok = 0; failed = 0 } in
    let c = count_sockets os s black s.sockets zero_counts in
    let a = count_sockets_sum os s black s.sockets zero_counts in
    let b = count_processes_sum os black s.main_process c in
    (omega (arith, a.0, b.0), omega (arith, a.1, b.1))

-- The index page and the JSON status of a service both end with an exception of the handler, or both
-- leave one and the same service: then the page counts as failed exactly the sockets and processes
-- that the status shows as failed, and its two counts make up all sockets and main processes that the
-- service has after the handler was asked.
pub index-agrees :
    (replies : Replies) (os : Os) (s : Service)
    → ((get_json_status replies os s ≡ none) × (get_index_counts replies os s ≡ none))
      ⊎ ((status : Status) × (counts : Counts) × (s' : Service) × (get_json_status replies os s
            ≡ some (status, s'))
          × (get_index_counts replies os s ≡ some (counts, s'))
          × (counts.failed ≡ failed_sockets status.sockets + failed_processes status.process)
          × (counts.ok + counts.failed ≡ length s'.sockets + length s'.main_process))
unfolding get_index_counts get_json_status
index-agrees replies os s = elim (Option-cases (is_blackout replies os s)) [
  | inl thrown ↦ inl (rw (get_json_status, thrown) refl, rw (get_index_counts, thrown) refl)
  | inr ((black, s'), asked) ↦
      let agree = counts-agree os s' black in
      inr (
        status_of os black s',
        counts_of os black s',
        s',
        rw (get_json_status, asked) refl,
        rw (get_index_counts, asked) refl,
        agree.0,
        agree.1,
      )
]
