-- ===== src/Manager/Finding.antt =====
-- socketDetector::find: every running process that listens ends up in a service.
pub mod Visits
use watched_agent.Base.{
  ℕ, Bool, true, false, ◌&&◌, List, [], ◌∷◌, some, ◌≡◌, refl, ◌∙◌, subst, arith, ◌==◌,
  if◌then◌else◌, Str, any, first, All, any-append, Bool-cases, first-none, Option-cases, inl, inr,
}
use watched_agent.Socket.{Socket, atoi_u32}
use watched_agent.Process.{Os, Process, from_pid, set_sockets, have_inode, get_ppid}
use watched_agent.Service.{
  Service, new_service, has_pid, set_socket, add_main_process, push_main, adopt_children,
  name_after, have_pid,
}
use watched_agent.Service.Pids.{main-name_after}
use watched_agent.Manager.{Enhancer, enhance, update_first, any_pid}
use watched_agent.Manager.Joining.{update_first-any, add_service-Joined, handle_sub_process-knows}
use watched_agent.Manager.Detector.{
  Search, match_list, gather_sockets, refresh_first, refresh_process, refresh_service,
  refresh_known, make_service, try_process, visit_pid, is_number, visit_all, find_services,
}
use watched_agent.Manager.Finding.Visits.{
  pid-set_sockets, pid-from_pid, main-make_service, KeepsMain, main-enhance, refresh_known-keeps,
}

-- The process of a directory of /proc.
abbrev pub stands_for : ℕ → Str → Bool
stands_for pid name = is_number name && (atoi_u32 name == pid)

module _ (f : Search) (keep : All KeepsMain f.enhancers) where
  try_process-keeps :
      (p : Process) (q : ℕ) (ss : List Service)
      → f.os.alive q ≡ true
      → any_pid ss q ≡ true
      → any_pid (try_process f p ss) q ≡ true
  unfolding try_process
  try_process-keeps p q ss alive h =
      elim (Option-cases (first (λ (k : Socket). have_inode p.sockets k.id) f.sockets)) [
        | inl gone ↦ rw (gone, try_process) h
        | inr (k, e) ↦
            rw (e, try_process)
              ((add_service-Joined f.os f.enhancers (make_service f.os f.host f.sockets p k)
                  ss).keeps_pids
                q alive h)
      ]

  -- A process with a listening socket becomes the main process of a service.
  try_process-finds :
      (p : Process) (ss : List Service)
      → f.os.alive p.pid ≡ true
      → any (λ (k : Socket). have_inode p.sockets k.id) f.sockets ≡ true
      → any_pid (try_process f p ss) p.pid ≡ true
  unfolding try_process
  try_process-finds p ss alive owns =
      elim (Option-cases (first (λ (k : Socket). have_inode p.sockets k.id) f.sockets)) [
        | inl gone ↦
            absurd
              (cc (owns, first-none (λ (k : Socket). have_inode p.sockets k.id) f.sockets gone))
        | inr (k, e) ↦
            let made = make_service f.os f.host f.sockets p k in
            rw (e, try_process)
              ((add_service-Joined f.os f.enhancers made ss).has_pids p.pid alive (
                main-enhance f.enhancers made p.pid keep
                  (main-make_service f.os f.host f.sockets p k)))
      ]

  -- A visit forgets no running process.
  visit_pid-keeps :
      (pid q : ℕ) (ss : List Service)
      → f.os.alive q ≡ true
      → any_pid ss q ≡ true
      → any_pid (visit_pid f pid ss) q ≡ true
  unfolding visit_pid
  visit_pid-keeps pid q ss alive h =
      let p = from_pid f.os pid in
      elim (Bool-cases (any_pid ss pid)) [
        | inl known ↦ rw (known, visit_pid) (refresh_known-keeps f pid q ss h)
        | inr new ↦ elim (Bool-cases (any_pid ss (get_ppid f.os pid))) [
          | inl child ↦
              rw (new, child, visit_pid)
                (ground (
                  arith,
                  (handle_sub_process-knows f.os p ss q (rw (pid-from_pid f.os pid) child)).0,
                ))
          | inr root ↦ ground (arith, try_process-keeps (set_sockets f.os p) q ss alive h)
        ]
      ]

  -- A running process that has a listening socket and is not on the black list is known after its
  -- visit.
  visit_pid-finds :
      (pid : ℕ) (ss : List Service)
      → f.os.alive pid ≡ true
      → any
          (λ (k : Socket). have_inode (set_sockets f.os (from_pid f.os pid)).sockets k.id)
          f.sockets
        ≡ true
      → match_list (from_pid f.os pid) f.rules ≡ false
      → any_pid (visit_pid f pid ss) pid ≡ true
  unfolding visit_pid
  visit_pid-finds pid ss alive owns free =
      let p = from_pid f.os pid in
      let e : p.pid ≡ pid = pid-from_pid f.os pid in
      let e' : (set_sockets f.os p).pid ≡ pid = pid-set_sockets f.os p ∙ e in
      elim (Bool-cases (any_pid ss pid)) [
        | inl known ↦ rw (known, visit_pid) (refresh_known-keeps f pid pid ss known)
        | inr new ↦ elim (Bool-cases (any_pid ss (get_ppid f.os pid))) [
          | inl child ↦
              rw (new, child, visit_pid)
                (ground (arith, e, (handle_sub_process-knows f.os p ss pid (rw e child)).0))
          | inr root ↦
              rw (new, root, free, visit_pid)
                (subst (λ n. any_pid (try_process f (set_sockets f.os p) ss) n ≡ true) e'
                  (try_process-finds (set_sockets f.os p) ss (rw e' alive) owns))
        ]
      ]

  visit_all-keeps :
      (names : List Str) (q : ℕ) (ss : List Service)
      → f.os.alive q ≡ true
      → any_pid ss q ≡ true
      → any_pid (visit_all f names ss) q ≡ true
  unfolding visit_all
  visit_all-keeps [] q ss alive h = h
  visit_all-keeps (name ∷ names) q ss alive h = elim (Bool-cases (is_number name)) [
    | inl number ↦
        rw (number, visit_all)
          (visit_all-keeps names q (visit_pid f (atoi_u32 name) ss) alive
            (visit_pid-keeps (atoi_u32 name) q ss alive h))
    | inr other ↦ rw (other, visit_all) (visit_all-keeps names q ss alive h)
  ]

  visit_all-finds :
      (names : List Str) (pid : ℕ) (ss : List Service)
      → any (stands_for pid) names ≡ true
      → f.os.alive pid ≡ true
      → any
          (λ (k : Socket). have_inode (set_sockets f.os (from_pid f.os pid)).sockets k.id)
          f.sockets
        ≡ true
      → match_list (from_pid f.os pid) f.rules ≡ false
      → any_pid (visit_all f names ss) pid ≡ true
  unfolding visit_all
  visit_all-finds [] pid ss listed alive owns free = cc
  visit_all-finds (name ∷ names) pid ss listed alive owns free =
      elim (Bool-cases (stands_for pid name)) [
        | inl here ↦
            let number : is_number name ≡ true = ground arith in
            let e : atoi_u32 name ≡ pid = ground arith in
            rw (number, e, visit_all)
              (visit_all-keeps names pid (visit_pid f pid ss) alive
                (visit_pid-finds pid ss alive owns free))
        | inr later ↦
            let rest : any (stands_for pid) names ≡ true = ground arith in
            visit_all-finds names pid
              (if is_number name then visit_pid f (atoi_u32 name) ss else ss) rest alive owns free
      ]

  find_services-some :
      (P : Socket → Bool) (ss : List Service) (names : List Str) (ks : List Socket)
      → f.os.proc_entries ≡ some names
      → f.sockets ≡ ks
      → any P ks ≡ true
      → find_services f ss ≡ visit_all f names ss
  unfolding find_services
  find_services-some P ss names [] e k h = cc
  find_services-some P ss names (x ∷ ks) e k h = ground arith

  find_services-keeps_from :
      (ss : List Service) (names : List Str) (ks : List Socket)
      → f.os.proc_entries ≡ some names
      → f.sockets ≡ ks
      → (q : ℕ) → f.os.alive q ≡ true
      → any_pid ss q ≡ true
      → any_pid (find_services f ss) q ≡ true
  unfolding find_services
  find_services-keeps_from ss names [] e k q alive h = rw (k, find_services) h
  find_services-keeps_from ss names (x ∷ ks) e k q alive h =
      rw (k, e, find_services) (visit_all-keeps names q ss alive h)

  -- Completeness of a search, when /proc can be opened: after find, each running process of /proc
  -- that has a listening socket and is not on the black list is known to a service, provided that
  -- plugins keep the main processes of a service.
  pub find_services-finds :
      (ss : List Service) (names : List Str)
      → f.os.proc_entries ≡ some names
      → (pid : ℕ) → any (stands_for pid) names ≡ true
      → f.os.alive pid ≡ true
      → any
          (λ (k : Socket). have_inode (set_sockets f.os (from_pid f.os pid)).sockets k.id)
          f.sockets
        ≡ true
      → match_list (from_pid f.os pid) f.rules ≡ false
      → any_pid (find_services f ss) pid ≡ true
  find_services-finds ss names e pid listed alive owns free =
      rw
        (find_services-some (λ k. have_inode (set_sockets f.os (from_pid f.os pid)).sockets k.id) ss
          names f.sockets e refl owns)
        (visit_all-finds names pid ss listed alive owns free)

  -- A search forgets nobody, when /proc can be opened: after find, each running process that a
  -- service knew is still known, provided that plugins keep the main processes of a service.
  pub find_services-keeps :
      (ss : List Service) (names : List Str)
      → f.os.proc_entries ≡ some names
      → (q : ℕ) → f.os.alive q ≡ true
      → any_pid ss q ≡ true
      → any_pid (find_services f ss) q ≡ true
  find_services-keeps ss names e q alive h =
      find_services-keeps_from ss names f.sockets e refl q alive h
