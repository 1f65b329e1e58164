-- ===== src/Manager/Joining.antt =====
-- addService: nothing that was known is lost, and what was found stands in one service.
use watched_agent.Base.{
  ◌||◌, ◌==◌, ℕ, ◌+◌, ◌≤◌, Bool, true, false, List, [], ◌∷◌, ◌++◌, none, some, ◌≡◌, refl, ◌∙◌,
  arith, Str, str_eq_refl, any, all, length, length-append, any-append, Option-cases, inl, inr,
}
use watched_agent.Socket.{Socket, get_source}
use watched_agent.Process.{Os, Process, get_ppid}
use watched_agent.Service.{
  Service, has_pid, has_source, same_service, need_socket_from, update_from, have_pid, have_source,
  add_sub_process,
}
use watched_agent.Service.Pids.{have_pid-add_sub_process}
use watched_agent.Service.Updates.{update_from-sources, update_from-pids}
use watched_agent.Manager.{
  Enhancer, enhance, update_first, merge_service, add_service, any_pid, handle_sub_process,
}

module _ (p : Service → Bool) (f : Service → Service) where
  -- What holds of some service, and of its change, still holds of some service.
  pub update_first-any :
      (Q : Service → Bool) (keeps : (s : Service) → Q s ≡ true → Q (f s) ≡ true)
      (ss ss' : List Service)
      → update_first p f ss ≡ some ss'
      → any Q ss ≡ true
      → any Q ss' ≡ true
  unfolding update_first
  update_first-any Q keeps [] ss' e h = cc
  update_first-any Q keeps (s ∷ ss) ss' e h = elim (Option-cases (update_first p f ss)) [
    | inl gone ↦ ground (arith, keeps s)
    | inr (rest, more) ↦ ground (arith, keeps s, update_first-any Q keeps ss rest more)
  ]

  -- What holds of the change of a service that passes the test holds of some service.
  update_first-new :
      (Q : Service → Bool) (makes : (s : Service) → p s ≡ true → Q (f s) ≡ true)
      (ss ss' : List Service)
      → update_first p f ss ≡ some ss'
      → any Q ss' ≡ true
  unfolding update_first
  update_first-new Q makes [] ss' e = cc
  update_first-new Q makes (s ∷ ss) ss' e = elim (Option-cases (update_first p f ss)) [
    | inl gone ↦ ground (arith, makes s)
    | inr (rest, more) ↦ ground (arith, makes s, update_first-new Q makes ss rest more)
  ]

  length-update_first :
      (ss ss' : List Service) → update_first p f ss ≡ some ss' → length ss' ≡ length ss
  unfolding update_first
  length-update_first [] ss' e = cc
  length-update_first (s ∷ ss) ss' e = elim (Option-cases (update_first p f ss)) [
    | inl gone ↦ ground arith
    | inr (rest, more) ↦ ground (arith, length-update_first ss rest more)
  ]

  -- A service is changed exactly when one passes the test.
  update_first-none : (ss : List Service) → update_first p f ss ≡ none → any p ss ≡ false
  unfolding update_first
  update_first-none [] e = refl
  update_first-none (s ∷ ss) e = elim (Option-cases (update_first p f ss)) [
    | inl gone ↦ ground (arith, update_first-none ss gone)
    | inr (rest, more) ↦ ground arith
  ]

-- The service has all the sources of the other.
abbrev pub covers : Service → Service → Bool
covers add s = all (λ k. have_source s (get_source k)) add.sockets

covers_all :
    (s : Service) (ks : List Socket)
    → ((source : Str) → any (has_source source) ks ≡ true → have_source s source ≡ true)
    → all (λ k. have_source s (get_source k)) ks ≡ true
covers_all s [] h = refl
covers_all s (k ∷ ks) h =
    let first_one = h (get_source k) (ground (arith, str_eq_refl (get_source k))) in
    let others = covers_all s ks (λ source m. h source (ground arith)) in ground arith

-- What addService has to guarantee for a service that was found.
pub record Joined (os : Os) (add : Service) (ss ss' : List Service) : Type 0 where
  pub keeps_pids : (q : ℕ) → os.alive q ≡ true → any_pid ss q ≡ true → any_pid ss' q ≡ true
  pub has_pids :
      (q : ℕ) → os.alive q ≡ true → any (has_pid q) add.main_process ≡ true → any_pid ss' q ≡ true
  pub has_sources : any (covers add) ss' ≡ true
  pub grows : length ss' ≤ length ss + 1

covers-update_from : (os : Os) (add s : Service) → covers add (update_from os add s) ≡ true
unfolding have_source
covers-update_from os add s =
    covers_all (update_from os add s) add.sockets
      (λ source m. ground (arith, update_from-sources os add s source))

covers_self : (s : Service) → covers s s ≡ true
covers_self s = covers_all s s.sockets (unfold have_source in (λ source m. m))

-- A branch of addService that updates a service.
update_first-Joined :
    (os : Os) (add : Service) (p : Service → Bool) (ss ss' : List Service)
    → update_first p (update_from os add) ss ≡ some ss'
    → Joined os add ss ss'
unfolding any_pid
update_first-Joined os add p ss ss' e = record {
  keeps_pids = λ q alive.
      update_first-any p (update_from os add) (λ s. have_pid s q)
        (λ s h. update_from-pids os add s q alive ∙ ground arith) ss ss' e;
  has_pids = λ q alive m.
      update_first-new p (update_from os add) (λ s. have_pid s q)
        (λ s h. update_from-pids os add s q alive ∙ ground arith) ss ss' e;
  has_sources =
      update_first-new p (update_from os add) (covers add) (λ s h. covers-update_from os add s) ss
        ss' e;
  grows = omega (arith, length-update_first p (update_from os add) ss ss' e);
}

push-Joined : (os : Os) (add : Service) (ss : List Service) → Joined os add ss (ss ++ add ∷ [])
unfolding any_pid have_pid
push-Joined os add ss = record {
  keeps_pids = λ q alive h. ground (arith, any-append (λ s. have_pid s q) ss (add ∷ []));
  has_pids = λ q alive m. ground (arith, any-append (λ s. have_pid s q) ss (add ∷ []));
  has_sources = ground (arith, any-append (covers add) ss (add ∷ []), covers_self add);
  grows = omega (arith, length-append ss (add ∷ []));
}

-- addService on each of its branches.
pub add_service-Joined :
    (os : Os) (es : List Enhancer) (found : Service) (ss : List Service)
    → Joined os (enhance es found) ss (add_service os es found ss)
unfolding add_service merge_service
add_service-Joined os es found ss =
    let add = enhance es found in
    elim (Option-cases (update_first (same_service add) (update_from os add) ss)) [
      | inr (ss', e) ↦
          rw (e, merge_service) (update_first-Joined os add (same_service add) ss ss' e)
      | inl gone ↦
          elim (Option-cases
            (update_first (λ s. need_socket_from os s add) (update_from os add) ss)) [
              | inr (ss', e) ↦
                  rw (gone, e, merge_service)
                    (update_first-Joined os add (λ s. need_socket_from os s add) ss ss' e)
              | inl none_needs ↦ rw (gone, none_needs, merge_service) (push-Joined os add ss)
            ]
    ]

-- addService keeps every running process that some service knew.
pub add_service-keeps :
    (os : Os) (es : List Enhancer) (found : Service) (ss : List Service) (q : ℕ)
    → os.alive q ≡ true
    → any_pid ss q ≡ true
    → any_pid (add_service os es found ss) q ≡ true
add_service-keeps os es found ss q alive h =
    (add_service-Joined os es found ss).keeps_pids q alive h

-- addService makes every running main process of the enhanced service known.
pub add_service-knows :
    (os : Os) (es : List Enhancer) (found : Service) (ss : List Service) (q : ℕ)
    → os.alive q ≡ true
    → any (has_pid q) (enhance es found).main_process ≡ true
    → any_pid (add_service os es found ss) q ≡ true
add_service-knows os es found ss q alive h = (add_service-Joined os es found ss).has_pids q alive h

-- addService leaves all sources of the enhanced service in one service, and adds one service at most.
pub add_service-covers :
    (os : Os) (es : List Enhancer) (found : Service) (ss : List Service)
    → (any (covers (enhance es found)) (add_service os es found ss) ≡ true)
      × (length (add_service os es found ss) ≤ length ss + 1)
add_service-covers os es found ss =
    let j = add_service-Joined os es found ss in (j.has_sources, j.grows)

update_first-adds :
    (p : Service → Bool) (f : Service → Service) (Q : Service → Bool) (b : Bool)
    (adds : (s : Service) → Q (f s) ≡ (Q s || b)) (ss ss' : List Service)
    → update_first p f ss ≡ some ss'
    → any Q ss' ≡ (any Q ss || b)
unfolding update_first
update_first-adds p f Q b adds [] ss' e = cc
update_first-adds p f Q b adds (s ∷ ss) ss' e = elim (Option-cases (update_first p f ss)) [
  | inl gone ↦ ground (arith, adds s)
  | inr (rest, more) ↦ ground (arith, adds s, update_first-adds p f Q b adds ss rest more)
]

-- When a service knows the parent of a process, the services know after handleSubProcess exactly
-- the processes that they knew and this one, and are as many as before.
pub handle_sub_process-knows :
    (os : Os) (p : Process) (ss : List Service) (q : ℕ)
    → any_pid ss (get_ppid os p.pid) ≡ true
    → (any_pid (handle_sub_process os p ss) q ≡ (any_pid ss q || (p.pid == q)))
      × (length (handle_sub_process os p ss) ≡ length ss)
unfolding any_pid handle_sub_process
handle_sub_process-knows os p ss q h =
    let parent = λ (s : Service). have_pid s (get_ppid os p.pid) in
    elim (Option-cases (update_first parent (add_sub_process p) ss)) [
      | inl gone ↦ absurd (cc (h, update_first-none parent (add_sub_process p) ss gone))
      | inr (ss', e) ↦
          rw (e, handle_sub_process)
            (
              update_first-adds parent (add_sub_process p) (λ s. have_pid s q) (p.pid == q)
                  (λ s. have_pid-add_sub_process p s q) ss ss' e,
              length-update_first parent (add_sub_process p) ss ss' e,
            )
    ]
