-- ===== src/Collector/Thread.antt =====
-- The thread of a collector and its destructor: startThread and ~Collector of src/collectors.cpp
-- with timer_killer of include/collectors.h, one step for each operation that another thread can
-- see. The thread and the destructor of logParser take the same steps.
pub mod Ends
use watched_agent.Base.{
  Bool, true, false, ◌&&◌, not, ◌≡◌, refl, arith, if◌then◌else◌, ◌⊎◌, inl, inr, ◌↔◌, ◌≢◌, sym,
  subst,
}

-- Where the thread stands: at the test of its loop, at the lock, inside the block that holds the
-- lock with its test behind and before it, in collect, in wait_for, or at its end.
pub data Worker : Type 0 where
  testing : Worker
  locking : Worker
  checking : Worker
  collecting : Worker
  waiting : Worker
  ended : Worker

-- Where the destructor stands: not called, behind the lock, behind active = false, at the join, or
-- at its end, which gives the lock back.
pub data Destroyer : Type 0 where
  away : Destroyer
  entered : Destroyer
  cleared : Destroyer
  joining : Destroyer
  gone : Destroyer

-- `active` and the timer's `terminate`; who holds the lock follows from the two places.
pub record State : Type 0 where
  pub worker : Worker
  pub destroyer : Destroyer
  pub active : Bool
  pub terminate : Bool

-- startThread, on an enabled collector.
abbrev pub start : State
start = record { worker = testing; destroyer = away; active = true; terminate = false }

unfoldable pub worker_holds : Worker → Bool
worker_holds checking = true
worker_holds collecting = true
worker_holds _ = false

unfoldable pub destroyer_holds : Destroyer → Bool
destroyer_holds away = false
destroyer_holds gone = false
destroyer_holds _ = true

-- The steps of the two threads.
pub data Step : State → State → Type 0 where
  -- while(active)
  test :
      (d : Destroyer) (a k : Bool)
      → Step
          (record { worker = testing; destroyer = d; active = a; terminate = k })
          (record {
            worker = if a then locking else ended;
            destroyer = d;
            active = a;
            terminate = k;
          })
  -- std::unique_lock<std::mutex> locker(lock)
  lock :
      (d : Destroyer) (a k : Bool)
      → destroyer_holds d ≡ false
      → Step
          (record { worker = locking; destroyer = d; active = a; terminate = k })
          (record { worker = checking; destroyer = d; active = a; terminate = k })
  -- if (active)
  check :
      (d : Destroyer) (a k : Bool)
      → Step
          (record { worker = checking; destroyer = d; active = a; terminate = k })
          (record {
            worker = if a then collecting else waiting;
            destroyer = d;
            active = a;
            terminate = k;
          })
  -- collect() returns or throws, and the lock is given back.
  collected :
      (d : Destroyer) (a k : Bool)
      → Step
          (record { worker = collecting; destroyer = d; active = a; terminate = k })
          (record { worker = waiting; destroyer = d; active = a; terminate = k })
  -- The time of timer.wait_for is over, or `terminate` is set.
  wake :
      (d : Destroyer) (a k : Bool)
      → Step
          (record { worker = waiting; destroyer = d; active = a; terminate = k })
          (record { worker = testing; destroyer = d; active = a; terminate = k })
  -- ~Collector: std::unique_lock<std::mutex> locker(lock)
  enter :
      (w : Worker) (a k : Bool)
      → worker_holds w ≡ false
      → Step
          (record { worker = w; destroyer = away; active = a; terminate = k })
          (record { worker = w; destroyer = entered; active = a; terminate = k })
  -- if (active) active = false
  clear :
      (w : Worker) (k : Bool)
      → Step
          (record { worker = w; destroyer = entered; active = true; terminate = k })
          (record { worker = w; destroyer = cleared; active = false; terminate = k })
  -- if (active), when it is not
  pass :
      (w : Worker) (k : Bool)
      → Step
          (record { worker = w; destroyer = entered; active = false; terminate = k })
          (record { worker = w; destroyer = joining; active = false; terminate = k })
  -- timer.kill()
  kill :
      (w : Worker) (a k : Bool)
      → Step
          (record { worker = w; destroyer = cleared; active = a; terminate = k })
          (record { worker = w; destroyer = joining; active = a; terminate = true })
  -- my_thread.join()
  join :
      (a k : Bool)
      → Step
          (record { worker = ended; destroyer = joining; active = a; terminate = k })
          (record { worker = ended; destroyer = gone; active = a; terminate = k })

pub data Reachable : State → Type 0 where
  started : Reachable start
  then_ : (s t : State) → Reachable s → Step s t → Reachable t

-- Behind the assignment of `active` in the destructor.
unfoldable pub is_cleared : Destroyer → Bool
is_cleared away = false
is_cleared entered = false
is_cleared _ = true

unfoldable pub is_gone : Destroyer → Bool
is_gone gone = true
is_gone _ = false

unfoldable pub is_ended : Worker → Bool
is_ended ended = true
is_ended _ = false
