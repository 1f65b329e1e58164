-- ===== src/Tests/Threads.antt =====
-- Runs of the threads of a collector and of the services' manager.
use watched_agent.Manager.Searching.{Searcher, Closer, Search, Move, Reached, Run}
use watched_agent.Manager.Searching.Ending.{Run-ends}
use watched_agent.Base.{ℕ, ◌+◌, ◌≤◌, refl, ◌&&◌, ◌≡◌, ◌↔◌, true, false, ◌⊎◌, not}
use watched_agent.Collector.Thread.{
  Worker, Destroyer, State, Step, Reachable, worker_holds, destroyer_holds, is_cleared, is_gone,
  is_ended,
}
use watched_agent.Collector.Thread.Ends.{Reachable-Sound, stuck_iff}

abbrev joined_locked : State
joined_locked = record {
  worker = Worker.locking;
  destroyer = Destroyer.joining;
  active = false;
  terminate = true;
}

-- The destructor takes the lock between the test of the thread and its wait for the lock.
joined_locked-Reachable : Reachable joined_locked
unfolding worker_holds
joined_locked-Reachable =
    Reachable.then_ _ _
      (Reachable.then_ _ _
        (Reachable.then_ _ _
          (Reachable.then_ _ _ Reachable.started (Step.test Destroyer.away true false))
          (Step.enter Worker.locking true false refl))
        (Step.clear Worker.locking false))
      (Step.kill Worker.locking false false)

Reachable-Sound_example :
    ((worker_holds joined_locked.worker && destroyer_holds joined_locked.destroyer) ≡ false)
    × ((is_cleared joined_locked.destroyer && joined_locked.active) ≡ false)
    × ((is_gone joined_locked.destroyer && not (is_ended joined_locked.worker)) ≡ false)
Reachable-Sound_example = Reachable-Sound joined_locked joined_locked-Reachable

stuck_iff_example : ((t : State) → ¬ Step joined_locked t) ↔ (
    ((joined_locked.worker ≡ Worker.ended) × (joined_locked.destroyer ≡ Destroyer.gone))
    ⊎ ((joined_locked.worker ≡ Worker.locking) × (joined_locked.destroyer ≡ Destroyer.joining)))
stuck_iff_example = stuck_iff joined_locked

-- The destructor has set `active` to false while the thread was in wait_for.
abbrev closing : Search
closing = record {
  thread = Searcher.waiting;
  closer = Closer.cleared;
  active = false;
  terminate = false;
}

closing-Reached : Reached closing
closing-Reached =
    Reached.next _ _
      (Reached.next _ _
        (Reached.next _ _ (Reached.next _ _ Reached.first (Move.slept Closer.away true false))
          (Move.searched Closer.away true false))
        (Move.test Closer.away true false))
      (Move.clear Searcher.waiting false)

abbrev over : Search
over = record { thread = Searcher.ended; closer = Closer.gone; active = false; terminate = true }

Run-ends_example :
    (m : ℕ) × (u : Search) × Run m closing u
    × (0 + m ≤ 5)
    × (u.thread ≡ Searcher.ended)
    × (u.closer ≡ Closer.gone)
Run-ends_example = Run-ends 0 closing closing closing-Reached refl (Run.done closing)
