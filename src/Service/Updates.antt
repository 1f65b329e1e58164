-- ===== src/Service/Updates.antt =====
-- updateMainProcess and updateFrom: what a service knows after it was found again.
use watched_agent.Base.{
  ℕ, true, ◌||◌, List, [], ◌∷◌, ◌≡◌, refl, arith, ◌==◌, any, keep_if, erase_first, Str, str_eq,
  str_eq_iff, ◌∙◌,
}
use watched_agent.Socket.{Socket, get_source}
use watched_agent.Process.{Os, Process}
use watched_agent.Service.{
  Service, is_child, has_pid, has_source, is_stale, have_pid, have_source, add_main_process,
  update_main_process, update_main_processes, renew_socket, renew_sockets, update_from, set_socket,
  add_sub_process, add_sub_processes, adopt_children, push_main, name_after,
}
use watched_agent.Service.Pids.{have_pid-add_main_process}
use watched_agent.Service.Sources.{have_source-set_socket}

-- The erasure of an ended process keeps the processes that run.
any-erase_stale :
    (os : Os) (path : Str) (q : ℕ) (ps : List Process)
    → os.alive q ≡ true
    → any (has_pid q) (erase_first (is_stale os path) ps) ≡ any (has_pid q) ps
any-erase_stale os path q [] h = refl
any-erase_stale os path q (p ∷ ps) h = ground (arith, any-erase_stale os path q ps h)

have_pid-erase_stale :
    (os : Os) (path : Str) (s : Service) (q : ℕ)
    → os.alive q ≡ true
    → have_pid (record s { main_process = erase_first (is_stale os path) s.main_process }) q
      ≡ have_pid s q
unfolding have_pid
have_pid-erase_stale os path s q h = ground (arith, any-erase_stale os path q s.main_process h)

-- updateMainProcess forgets no process that runs, and learns the new one.
pub have_pid-update_main_process :
    (os : Os) (p : Process) (s : Service) (q : ℕ)
    → os.alive q ≡ true
    → have_pid (update_main_process os p s) q ≡ (have_pid s q || (p.pid == q))
unfolding update_main_process
have_pid-update_main_process os p s q h = ground (
  arith,
  have_pid-add_main_process os p
      (record s { main_process = erase_first (is_stale os p.full_path) s.main_process }) q,
  have_pid-erase_stale os p.full_path s q h,
)

have_pid-update_main_processes :
    (os : Os) (ps : List Process) (s : Service) (q : ℕ)
    → os.alive q ≡ true
    → have_pid (update_main_processes os ps s) q ≡ (have_pid s q || any (has_pid q) ps)
unfolding update_main_processes
have_pid-update_main_processes os [] s q h = ground arith
have_pid-update_main_processes os (p ∷ ps) s q h = ground (
  arith,
  have_pid-update_main_processes os ps (update_main_process os p s) q h,
  have_pid-update_main_process os p s q h,
)

have_pid-renew_sockets :
    (ks : List Socket) (s : Service) (q : ℕ) → have_pid (renew_sockets ks s) q ≡ have_pid s q
unfolding renew_sockets renew_socket set_socket have_pid
have_pid-renew_sockets [] s q = refl
have_pid-renew_sockets (k ∷ ks) s q = ground (arith, have_pid-renew_sockets ks (renew_socket k s) q)

any-erase_source :
    (a b : Str) (ks : List Socket)
    → (any (has_source b) (erase_first (has_source a) ks) || str_eq a b)
      ≡ (any (has_source b) ks || str_eq a b)
any-erase_source a b [] = refl
any-erase_source a b (k ∷ ks) = ground (
  arith,
  any-erase_source a b ks,
  str_eq_iff a b,
  str_eq_iff (get_source k) a,
  str_eq_iff (get_source k) b,
)

have_source-renew_socket :
    (k : Socket) (s : Service) (source : Str)
    → have_source (renew_socket k s) source ≡ (have_source s source || str_eq (get_source k) source)
unfolding renew_socket have_source
have_source-renew_socket k s source =
    unfold have_source in
    (have_source-set_socket k
      (record s { sockets = erase_first (has_source (get_source k)) s.sockets }) source)
    ∙ any-erase_source (get_source k) source s.sockets

have_source-renew_sockets :
    (ks : List Socket) (s : Service) (source : Str)
    → have_source (renew_sockets ks s) source ≡ (have_source s source || any (has_source source) ks)
unfolding renew_sockets
have_source-renew_sockets [] s source = ground arith
have_source-renew_sockets (k ∷ ks) s source = ground (
  arith,
  have_source-renew_sockets ks (renew_socket k s) source,
  have_source-renew_socket k s source,
)

sockets-add_sub_processes :
    (ps : List Process) (s : Service) → (add_sub_processes ps s).sockets ≡ s.sockets
unfolding add_sub_processes add_sub_process
sockets-add_sub_processes [] s = refl
sockets-add_sub_processes (p ∷ ps) s =
    ground (arith, sockets-add_sub_processes ps (add_sub_process p s))

sockets-name_after : (p : Process) (s : Service) → (name_after p s).sockets ≡ s.sockets
unfolding name_after
sockets-name_after p s = ground arith

sockets-add_sub_process : (p : Process) (s : Service) → (add_sub_process p s).sockets ≡ s.sockets
unfolding add_sub_process
sockets-add_sub_process p s = ground arith

sockets-adopt_children :
    (os : Os) (pid : ℕ) (s : Service) → (adopt_children os pid s).sockets ≡ s.sockets
unfolding adopt_children
sockets-adopt_children os pid s =
    sockets-add_sub_processes (keep_if (is_child os pid) s.main_process) s

-- Processes and sockets of a service are independent.
sockets-add_main_process :
    (os : Os) (p : Process) (s : Service) → (add_main_process os p s).sockets ≡ s.sockets
unfolding add_main_process push_main
sockets-add_main_process os p s = ground (
  arith,
  sockets-name_after p s,
  sockets-add_sub_process p (name_after p s),
  sockets-adopt_children os p.pid (name_after p s),
)

sockets-update_main_processes :
    (os : Os) (ps : List Process) (s : Service)
    → (update_main_processes os ps s).sockets ≡ s.sockets
unfolding update_main_processes update_main_process
sockets-update_main_processes os [] s = refl
sockets-update_main_processes os (p ∷ ps) s = ground (
  arith,
  sockets-update_main_processes os ps (update_main_process os p s),
  sockets-add_main_process os p
      (record s { main_process = erase_first (is_stale os p.full_path) s.main_process }),
)

-- What updateFrom joins.
update_from-joins :
    (os : Os) (src s : Service)
    → ((source : Str)
        → have_source (update_from os src s) source
          ≡ (have_source s source || have_source src source))
      × ((q : ℕ)
          → os.alive q ≡ true
          → have_pid (update_from os src s) q ≡ (have_pid s q || any (has_pid q) src.main_process))
unfolding update_from have_source
update_from-joins os src s =
    let t = update_main_processes os src.main_process s in
    (
      λ source. ground (
        arith,
        have_source-renew_sockets src.sockets t source,
        sockets-update_main_processes os src.main_process s,
      ),
      λ q h.
          have_pid-renew_sockets src.sockets t q
          ∙ have_pid-update_main_processes os src.main_process s q h,
    )

-- After updateFrom a service has exactly the sources that it had and those of the other service.
pub update_from-sources :
    (os : Os) (src s : Service) (source : Str)
    → have_source (update_from os src s) source ≡ (have_source s source || have_source src source)
update_from-sources os src s source = (update_from-joins os src s).0 source

-- After updateFrom a service knows a running process exactly when it knew it before or it is a main
-- process of the other service.
pub update_from-pids :
    (os : Os) (src s : Service) (q : ℕ)
    → os.alive q ≡ true
    → have_pid (update_from os src s) q ≡ (have_pid s q || any (has_pid q) src.main_process)
update_from-pids os src s q alive = (update_from-joins os src s).1 q alive
