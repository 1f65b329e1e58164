-- ===== src/Collector/Thread/Ends.antt =====
-- Every order of the steps of a collector's thread and its destructor: the lock, and where they stop.
use watched_agent.Base.{
  Bool, true, false, ◌&&◌, not, ◌≡◌, refl, arith, ◌⊎◌, inl, inr, ◌↔◌, ◌≢◌, sym, subst,
}
use watched_agent.Collector.Thread.{
  testing, locking, checking, collecting, waiting, ended, away, entered, cleared, joining, gone,
  Worker, Destroyer, State, worker_holds, destroyer_holds, Step, Reachable, is_cleared, is_gone,
  is_ended,
}

-- What each reachable state satisfies.
abbrev Sound : State → Type 0
Sound s =
    ((worker_holds s.worker && destroyer_holds s.destroyer) ≡ false)
    × ((is_cleared s.destroyer && s.active) ≡ false)
    × ((is_gone s.destroyer && not (is_ended s.worker)) ≡ false)

Step-Sound : (s t : State) → Step s t → Sound s → Sound t
unfolding worker_holds destroyer_holds is_cleared is_gone is_ended
Step-Sound s t (Step.test d true k) h = ground arith
Step-Sound s t (Step.test d false k) h = ground arith
Step-Sound s t (Step.lock d a k e) h = ground arith
Step-Sound s t (Step.check d true k) h = ground arith
Step-Sound s t (Step.check d false k) h = ground arith
Step-Sound s t (Step.collected d a k) h = ground arith
Step-Sound s t (Step.wake d a k) h = ground arith
Step-Sound s t (Step.enter w a k e) h = ground arith
Step-Sound s t (Step.clear w k) h = ground arith
Step-Sound s t (Step.pass w k) h = ground arith
Step-Sound s t (Step.kill w a k) h = ground arith
Step-Sound s t (Step.join a k) h = ground arith

-- In every order of the steps, the thread and the destructor never hold the lock together, the
-- collector is inactive from the destructor's assignment on, and the destructor only returns behind
-- the end of the thread.
pub Reachable-Sound :
    (s : State)
    → Reachable s
    → ((worker_holds s.worker && destroyer_holds s.destroyer) ≡ false)
      × ((is_cleared s.destroyer && s.active) ≡ false)
      × ((is_gone s.destroyer && not (is_ended s.worker)) ≡ false)
unfolding worker_holds destroyer_holds is_cleared is_gone is_ended
Reachable-Sound s Reachable.started = (refl, refl, refl)
Reachable-Sound s (Reachable.then_ r t reached step) =
    Step-Sound r t step (Reachable-Sound r reached)

abbrev Stuck : State → Type 0
Stuck s = (t : State) → ¬ Step s t

moves :
    (w : Worker) (d : Destroyer) (a k : Bool)
    → Stuck (record { worker = w; destroyer = d; active = a; terminate = k })
    → ((w ≡ ended) × (d ≡ gone)) ⊎ ((w ≡ locking) × (d ≡ joining))
unfolding worker_holds destroyer_holds
moves testing d a k h = absurd (h _ (Step.test d a k))
moves locking away a k h = absurd (h _ (Step.lock away a k refl))
moves locking entered true k h = absurd (h _ (Step.clear locking k))
moves locking entered false k h = absurd (h _ (Step.pass locking k))
moves locking cleared a k h = absurd (h _ (Step.kill locking a k))
moves locking joining a k h = inr (refl, refl)
moves locking gone a k h = absurd (h _ (Step.lock gone a k refl))
moves checking d a k h = absurd (h _ (Step.check d a k))
moves collecting d a k h = absurd (h _ (Step.collected d a k))
moves waiting d a k h = absurd (h _ (Step.wake d a k))
moves ended away a k h = absurd (h _ (Step.enter ended a k refl))
moves ended entered true k h = absurd (h _ (Step.clear ended k))
moves ended entered false k h = absurd (h _ (Step.pass ended k))
moves ended cleared a k h = absurd (h _ (Step.kill ended a k))
moves ended joining a k h = absurd (h _ (Step.join a k))
moves ended gone a k h = inl (refl, refl)

-- The thread waits for the lock that the destructor holds while it joins the thread.
deadlock :
    (a k : Bool)
    → Stuck (record { worker = locking; destroyer = joining; active = a; terminate = k })
unfolding destroyer_holds
deadlock a k t (Step.lock d b j e) = absurd (ground arith)

finished :
    (a k : Bool) → Stuck (record { worker = ended; destroyer = gone; active = a; terminate = k })
finished a k t step = elim step [ ]

moves_iff :
    (w : Worker) (d : Destroyer) (a k : Bool)
    → Stuck (record { worker = w; destroyer = d; active = a; terminate = k })
      ↔ (((w ≡ ended) × (d ≡ gone)) ⊎ ((w ≡ locking) × (d ≡ joining)))
moves_iff w d a k = (
  moves w d a k,
  λ h. elim h [
    | inl e ↦
        subst (λ x. Stuck (record { worker = x; destroyer = d; active = a; terminate = k }))
          (sym e.0)
          (subst (λ x. Stuck (record { worker = ended; destroyer = x; active = a; terminate = k }))
            (sym e.1) (finished a k))
    | inr e ↦
        subst (λ x. Stuck (record { worker = x; destroyer = d; active = a; terminate = k }))
          (sym e.0)
          (subst
            (λ x. Stuck (record { worker = locking; destroyer = x; active = a; terminate = k }))
            (sym e.1) (deadlock a k))
  ],
)

-- The two threads stop in two kinds of states and no other: when the destructor is done and the
-- thread at its end, and, for ever, when the thread waits for the lock that the destructor holds
-- while it joins the thread.
pub stuck_iff :
    (s : State)
    → ((t : State) → ¬ Step s t) ↔ (
        ((s.worker ≡ ended) × (s.destroyer ≡ gone))
        ⊎ ((s.worker ≡ locking) × (s.destroyer ≡ joining)))
stuck_iff s = moves_iff s.worker s.destroyer s.active s.terminate

-- The second kind is reachable: the destructor takes the lock between the thread's test of its loop
-- and its own turn at the lock.
deadlock-reached : (s : State) × (Reachable s × ((s.destroyer ≢ gone) × ((t : State) → ¬ Step s t)))
unfolding worker_holds
deadlock-reached = (
  record { worker = locking; destroyer = joining; active = false; terminate = true },
  (
    Reachable.then_ _ _
        (Reachable.then_ _ _
          (Reachable.then_ _ _ (Reachable.then_ _ _ Reachable.started (Step.test away true false))
            (Step.enter locking true false refl))
          (Step.clear locking false))
        (Step.kill locking false false),
    (λ e. ground arith, deadlock false true),
  ),
)
