-- ===== src/Service/Pids.antt =====
-- Which processes a service knows after addMainProcess, and how it divides them.
use watched_agent.Base.{
  ℕ, Bool, true, false, ◌||◌, not, List, [], ◌∷◌, ◌++◌, ◌≡◌, ◌≢◌, refl, arith, ◌==◌, any, all,
  keep_if, any-append, Bool-cases, inl, inr, all-append,
}
use watched_agent.Process.{Os, Process, get_ppid}
use watched_agent.Service.{
  Service, has_pid, is_child, add_sub_process, add_sub_processes, adopt_children, push_main,
  name_after, add_main_process, have_pid,
}

any-has_pid_eq :
    (a b : ℕ) (ps : List Process) → (a == b) ≡ true → any (has_pid a) ps ≡ any (has_pid b) ps
any-has_pid_eq a b ps h = ground arith

-- A test finds what it found, in the part that another test keeps or in the rest.
any-keep_if :
    (c p : Process → Bool) (ps : List Process)
    → (any p (keep_if c ps) || any p (keep_if (λ x. not (c x)) ps)) ≡ any p ps
any-keep_if c p [] = refl
any-keep_if c p (x ∷ ps) = ground (arith, any-keep_if c p ps)

sub-add_sub_process :
    (p : Process) (s : Service) (q : ℕ)
    → any (has_pid q) (add_sub_process p s).sub_process
      ≡ (any (has_pid q) s.sub_process || (p.pid == q))
unfolding add_sub_process
sub-add_sub_process p s q =
    ground
      (arith, any-has_pid_eq p.pid q s.sub_process, any-append (has_pid q) s.sub_process (p ∷ []))

sub-add_sub_processes :
    (ps : List Process) (s : Service) (q : ℕ)
    → any (has_pid q) (add_sub_processes ps s).sub_process
      ≡ (any (has_pid q) s.sub_process || any (has_pid q) ps)
unfolding add_sub_processes
sub-add_sub_processes [] s q = ground arith
sub-add_sub_processes (p ∷ ps) s q =
    ground (arith, sub-add_sub_processes ps (add_sub_process p s) q, sub-add_sub_process p s q)

-- Only the subprocesses change.
main-add_sub_process :
    (p : Process) (s : Service) → (add_sub_process p s).main_process ≡ s.main_process
unfolding add_sub_process
main-add_sub_process p s = ground arith

pub have_pid-add_sub_process :
    (p : Process) (s : Service) (q : ℕ)
    → have_pid (add_sub_process p s) q ≡ (have_pid s q || (p.pid == q))
unfolding have_pid
have_pid-add_sub_process p s q = ground (arith, sub-add_sub_process p s q, main-add_sub_process p s)

have_pid-push_main :
    (p : Process) (s : Service) (q : ℕ)
    → have_pid (push_main p s) q ≡ (have_pid s q || (p.pid == q))
unfolding have_pid push_main
have_pid-push_main p s q = ground (arith, any-append (has_pid q) s.main_process (p ∷ []))

have_pid-adopt_children :
    (os : Os) (pid : ℕ) (s : Service) (q : ℕ) → have_pid (adopt_children os pid s) q ≡ have_pid s q
unfolding have_pid adopt_children
have_pid-adopt_children os pid s q = ground (
  arith,
  sub-add_sub_processes (keep_if (is_child os pid) s.main_process) s q,
  any-keep_if (is_child os pid) (has_pid q) s.main_process,
)

have_pid-name_after :
    (p : Process) (s : Service) (q : ℕ) → have_pid (name_after p s) q ≡ have_pid s q
unfolding have_pid name_after
have_pid-name_after p s q = ground arith

-- After addMainProcess a service knows exactly the processes that it knew and the new one: making
-- a process or its children subprocesses forgets nobody.
pub have_pid-add_main_process :
    (os : Os) (p : Process) (s : Service) (q : ℕ)
    → have_pid (add_main_process os p s) q ≡ (have_pid s q || (p.pid == q))
unfolding add_main_process
have_pid-add_main_process os p s q = ground (
  arith,
  have_pid-push_main p (name_after p s) q,
  have_pid-add_sub_process p (name_after p s) q,
  have_pid-push_main p (adopt_children os p.pid (name_after p s)) q,
  have_pid-adopt_children os p.pid (name_after p s) q,
  have_pid-name_after p s q,
)

-- A process of the list whose parent is not in it. Processes of a configuration file have pid 0.
abbrev pub is_root : Os → List Process → Process → Bool
is_root os ps p = (p.pid == 0) || not (any (has_pid (get_ppid os p.pid)) ps)

-- No main process that runs is the child of another main process.
abbrev pub IsFlat : Os → List Process → Type 0
IsFlat os ps = all (is_root os ps) ps ≡ true

-- No two subprocesses have one pid.
abbrev pub DistinctPids : List Process → Type 0
DistinctPids [] = Unit
DistinctPids (p ∷ ps) = (any (has_pid p.pid) ps ≡ false) × DistinctPids ps

DistinctPids-append :
    (ps : List Process) (p : Process)
    → DistinctPids ps
    → any (has_pid p.pid) ps ≡ false
    → DistinctPids (ps ++ p ∷ [])
DistinctPids-append [] p d h = (refl, tt)
DistinctPids-append (x ∷ ps) p d h =
    ground (arith, DistinctPids-append ps p, any-append (has_pid x.pid) ps (p ∷ []))

add_sub_process-Distinct :
    (p : Process) (s : Service)
    → DistinctPids s.sub_process
    → DistinctPids (add_sub_process p s).sub_process
unfolding add_sub_process
add_sub_process-Distinct p s d = ground (arith, DistinctPids-append s.sub_process p d)

add_sub_processes-Distinct :
    (ps : List Process) (s : Service)
    → DistinctPids s.sub_process
    → DistinctPids (add_sub_processes ps s).sub_process
unfolding add_sub_processes
add_sub_processes-Distinct [] s d = d
add_sub_processes-Distinct (p ∷ ps) s d =
    add_sub_processes-Distinct ps (add_sub_process p s) (add_sub_process-Distinct p s d)

-- Roots of a list are roots of what a test keeps of it, when the new process is not their parent.
all-is_root :
    (os : Os) (pid : ℕ) (new : Process) (ms ps : List Process)
    → new.pid ≡ pid
    → all (is_root os ms) ps ≡ true
    → all
        (is_root os (keep_if (λ p. not (is_child os pid p)) ms ++ new ∷ []))
        (keep_if (λ p. not (is_child os pid p)) ps)
      ≡ true
all-is_root os pid new ms [] e h = refl
all-is_root os pid new ms (p ∷ ps) e h = ground (
  arith,
  all-is_root os pid new ms ps e,
  any-append (has_pid (get_ppid os p.pid)) (keep_if (λ p. not (is_child os pid p)) ms) (new ∷ []),
  any-keep_if (is_child os pid) (has_pid (get_ppid os p.pid)) ms,
)

push_main-IsFlat :
    (os : Os) (p : Process) (s : Service)
    → IsFlat os s.main_process
    → any (has_pid (get_ppid os p.pid)) s.main_process ≡ false
    → get_ppid os p.pid ≢ p.pid
    → IsFlat os (push_main p (adopt_children os p.pid s)).main_process
unfolding push_main adopt_children
push_main-IsFlat os p s f h n =
    let kept = keep_if (λ m. not (is_child os p.pid m)) s.main_process in
    ground (
      arith,
      all-append (is_root os (kept ++ p ∷ [])) kept (p ∷ []),
      all-is_root os p.pid p s.main_process s.main_process refl f,
      any-append (has_pid (get_ppid os p.pid)) kept (p ∷ []),
      any-keep_if (is_child os p.pid) (has_pid (get_ppid os p.pid)) s.main_process,
    )

push_main-Distinct :
    (os : Os) (p : Process) (s : Service)
    → DistinctPids s.sub_process
    → DistinctPids (push_main p (adopt_children os p.pid s)).sub_process
unfolding push_main adopt_children
push_main-Distinct os p s d =
    add_sub_processes-Distinct (keep_if (is_child os p.pid) s.main_process) s d

pub main-name_after : (p : Process) (s : Service) → (name_after p s).main_process ≡ s.main_process
unfolding name_after
main-name_after p s = ground arith

sub-name_after : (p : Process) (s : Service) → (name_after p s).sub_process ≡ s.sub_process
unfolding name_after
sub-name_after p s = ground arith

-- addMainProcess of a process with a pid that is not 0 and not that of its own parent keeps the
-- division of a service: no main process with a pid is the child of another one, and no two
-- subprocesses have one pid.
pub add_main_process-divides :
    (os : Os) (p : Process) (s : Service)
    → p.pid ≢ 0
    → get_ppid os p.pid ≢ p.pid
    → IsFlat os s.main_process
    → DistinctPids s.sub_process
    → IsFlat os (add_main_process os p s).main_process
      × DistinctPids (add_main_process os p s).sub_process
unfolding add_main_process
add_main_process-divides os p s h n f d =
    let t = name_after p s in
    let ft : IsFlat os t.main_process = rw (main-name_after p s) f in
    let dt : DistinctPids t.sub_process = rw (sub-name_after p s) d in
    let z : (p.pid == 0) ≡ false = ground arith in
    elim (Bool-cases (any (has_pid (get_ppid os p.pid)) t.main_process)) [
      | inl child ↦
          rw (z, child) (rw (main-add_sub_process p t) ft, add_sub_process-Distinct p t dt)
      | inr root ↦ rw (z, root) (push_main-IsFlat os p t ft root n, push_main-Distinct os p t dt)
    ]
