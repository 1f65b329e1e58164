-- ===== src/Manager/Searching.antt =====
-- The thread of servicesManager::startThreads and its destructor in src/servicesManager.cpp, one step
-- for each operation that the other can see. No lock is taken here.
pub mod Ending
use watched_agent.Base.{
  ℕ, zero, suc, ◌+◌, Bool, true, false, ◌&&◌, if◌then◌else◌, Str, List, [], ◌∷◌,
}
use watched_agent.Service.{Service}

-- A detector: enabled(), and find() on the list of the services, which may throw.
pub record Detector : Type 0 where
  pub enabled : Bool
  pub search : List Service → List Service
  pub throws : List Service → Bool

-- servicesManager::find: an exception of a detector ends the loop, and its changes stay.
unfoldable pub find : List Detector → List Service → List Service
find [] ss = ss
find (d ∷ ds) ss =
    let rest = find ds (d.search ss) in
    if d.enabled then (if d.throws ss then d.search ss else rest) else find ds ss

-- Where the thread stands: in its first sleep, in find, at the first test of `active`, in wait_for,
-- at the second test, or at its end.
pub data Searcher : Type 0 where
  sleeping searching testing waiting retesting ended : Searcher

-- Where the destructor stands: not called, behind active = false, at the join, or at its end.
pub data Closer : Type 0 where
  away cleared joining gone : Closer

pub record Search : Type 0 where
  pub thread : Searcher
  pub closer : Closer
  pub active : Bool
  pub terminate : Bool

-- startThreads
abbrev pub begun : Search
begun = record { thread = sleeping; closer = away; active = true; terminate = false }

pub data Move : Search → Search → Type 0 where
  -- sleep_for
  slept :
      (c : Closer) (a k : Bool)
      → Move
          (record { thread = sleeping; closer = c; active = a; terminate = k })
          (record { thread = searching; closer = c; active = a; terminate = k })
  -- find() returns, or what it throws is logged.
  searched :
      (c : Closer) (a k : Bool)
      → Move
          (record { thread = searching; closer = c; active = a; terminate = k })
          (record { thread = testing; closer = c; active = a; terminate = k })
  -- while (active &&
  test :
      (c : Closer) (a k : Bool)
      → Move
          (record { thread = testing; closer = c; active = a; terminate = k })
          (record { thread = if a then waiting else ended; closer = c; active = a; terminate = k })
  -- timer.wait_for(...) && : false if `terminate` is set, and true when the time is over.
  woken :
      (c : Closer) (a k : Bool)
      → Move
          (record { thread = waiting; closer = c; active = a; terminate = k })
          (record {
            thread = if k then ended else retesting;
            closer = c;
            active = a;
            terminate = k;
          })
  -- active)
  retest :
      (c : Closer) (a k : Bool)
      → Move
          (record { thread = retesting; closer = c; active = a; terminate = k })
          (record {
            thread = if a then searching else ended;
            closer = c;
            active = a;
            terminate = k;
          })
  -- if (active) active=false
  clear :
      (t : Searcher) (k : Bool)
      → Move
          (record { thread = t; closer = away; active = true; terminate = k })
          (record { thread = t; closer = cleared; active = false; terminate = k })
  -- timer.kill()
  kill :
      (t : Searcher) (a k : Bool)
      → Move
          (record { thread = t; closer = cleared; active = a; terminate = k })
          (record { thread = t; closer = joining; active = a; terminate = true })
  -- my_thread.join()
  join :
      (a k : Bool)
      → Move
          (record { thread = ended; closer = joining; active = a; terminate = k })
          (record { thread = ended; closer = gone; active = a; terminate = k })

-- The states that are reached, and the runs of `n` steps.
pub data Reached : Search → Type 0 where
  first : Reached begun
  next : (s t : Search) → Reached s → Move s t → Reached t

pub data Run : ℕ → Search → Search → Type 0 where
  done : (s : Search) → Run 0 s s
  step : (n : ℕ) (s t u : Search) → Move s t → Run n t u → Run (n + 1) s u
