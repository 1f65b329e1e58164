-- ===== src/Manager/Finding/Visits.antt =====
-- What the loops of socketDetector::find over the sockets and the plugins keep.
use watched_agent.Base.{
  ℕ, true, List, [], ◌∷◌, some, ◌≡◌, refl, ◌∙◌, arith, Str, any, All, any-append, Option-cases, inl,
  inr,
}
use watched_agent.Socket.{Socket}
use watched_agent.Process.{Os, Process, from_pid, set_sockets}
use watched_agent.Service.{
  Service, new_service, has_pid, set_socket, add_main_process, push_main, adopt_children,
  name_after, have_pid,
}
use watched_agent.Service.Pids.{main-name_after}
use watched_agent.Manager.{Enhancer, enhance, update_first, any_pid}
use watched_agent.Manager.Joining.{update_first-any}
use watched_agent.Manager.Detector.{
  Search, gather_sockets, refresh_first, refresh_process, refresh_service, refresh_known,
  make_service,
}

pub pid-set_sockets : (os : Os) (p : Process) → (set_sockets os p).pid ≡ p.pid
unfolding set_sockets
pid-set_sockets os p = ground arith

pub pid-from_pid : (os : Os) (pid : ℕ) → (from_pid os pid).pid ≡ pid
unfolding from_pid
pid-from_pid os pid = ground arith

any-refresh_first :
    (os : Os) (pid q : ℕ) (ps : List Process)
    → any (has_pid q) (refresh_first os pid ps) ≡ any (has_pid q) ps
unfolding refresh_first
any-refresh_first os pid q [] = refl
any-refresh_first os pid q (p ∷ ps) =
    ground (arith, any-refresh_first os pid q ps, pid-set_sockets os p)

main-set_socket :
    (k : Socket) (s : Service)
    → ((set_socket k s).main_process ≡ s.main_process)
      × ((set_socket k s).sub_process ≡ s.sub_process)
unfolding set_socket
main-set_socket k s = ground arith

main-gather_sockets :
    (os : Os) (ks : List Socket) (s : Service)
    → ((gather_sockets os ks s).main_process ≡ s.main_process)
      × ((gather_sockets os ks s).sub_process ≡ s.sub_process)
unfolding gather_sockets
main-gather_sockets os [] s = (refl, refl)
main-gather_sockets os (k ∷ ks) s = ground (
  arith,
  main-gather_sockets os ks s,
  main-gather_sockets os ks (set_socket k s),
  main-set_socket k s,
)

have_pid-refresh_service :
    (os : Os) (ks : List Socket) (pid q : ℕ) (s : Service)
    → have_pid (refresh_service os ks pid s) q ≡ have_pid s q
unfolding have_pid refresh_service refresh_process
have_pid-refresh_service os ks pid q s = ground (
  arith,
  main-gather_sockets os ks (refresh_process os pid s),
  any-refresh_first os pid q s.main_process,
  any-refresh_first os pid q s.sub_process,
)

pub main-add_main_process_alone :
    (os : Os) (p : Process) (s : Service)
    → s.main_process ≡ []
    → any (has_pid p.pid) (add_main_process os p s).main_process ≡ true
unfolding add_main_process push_main
main-add_main_process_alone os p s e =
    let t = name_after p s in
    let u = adopt_children os p.pid t in
    ground (
      arith,
      main-name_after p s,
      any-append (has_pid p.pid) t.main_process (p ∷ []),
      any-append (has_pid p.pid) u.main_process (p ∷ []),
    )

-- A new service has the process for its main process.
pub main-make_service :
    (os : Os) (host : Str) (ks : List Socket) (p : Process) (k : Socket)
    → any (has_pid p.pid) (make_service os host ks p k).main_process ≡ true
unfolding make_service
main-make_service os host ks p k =
    let s = set_socket k (new_service host) in
    let e : s.main_process ≡ [] = unfold new_service in (main-set_socket k (new_service host)).0 in
    rw ((main-gather_sockets os ks (add_main_process os p s)).0)
      (main-add_main_process_alone os p s e)

-- A plugin that gives a service for one keeps its main processes.
abbrev pub KeepsMain : Enhancer → Type 0
KeepsMain e =
    (s s' : Service) (q : ℕ)
    → e s ≡ some s'
    → any (has_pid q) s.main_process ≡ true
    → any (has_pid q) s'.main_process ≡ true

pub main-enhance :
    (es : List Enhancer) (s : Service) (q : ℕ)
    → All KeepsMain es
    → any (has_pid q) s.main_process ≡ true
    → any (has_pid q) (enhance es s).main_process ≡ true
unfolding enhance
main-enhance [] s q keep h = h
main-enhance (e ∷ es) s q keep h = elim (Option-cases (e s)) [
  | inl gone ↦ rw (gone, enhance) (main-enhance es s q keep.1 h)
  | inr (s', better) ↦ rw (better, enhance) (main-enhance es s' q keep.1 (keep.0 s s' q better h))
]

pub refresh_known-keeps :
    (f : Search) (pid q : ℕ) (ss : List Service)
    → any_pid ss q ≡ true
    → any_pid (refresh_known f pid ss) q ≡ true
unfolding refresh_known any_pid
refresh_known-keeps f pid q ss h =
    let known = λ (s : Service). have_pid s pid in
    let change = refresh_service f.os f.sockets pid in
    elim (Option-cases (update_first known change ss)) [
      | inl gone ↦ rw (gone, refresh_known) h
      | inr (ss', e) ↦
          rw (e, refresh_known)
            (update_first-any known change (λ s. have_pid s q)
              (λ s k. have_pid-refresh_service f.os f.sockets pid q s ∙ k) ss ss' e h)
    ]
