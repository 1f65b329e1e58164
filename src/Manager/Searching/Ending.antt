-- ===== src/Manager/Searching/Ending.antt =====
-- The destructor of servicesManager ends.
use watched_agent.Base.{subst, ℕ, ◌+◌, ◌≤◌, Bool, true, false, ◌&&◌, not, ◌≡◌, refl, arith}
use watched_agent.Manager.Searching.{
  Searcher, Closer, Search, Move, Reached, Run, sleeping, searching, testing, waiting, retesting,
  ended, away, cleared, joining, gone,
}

-- The destructor has set `active` to false.
abbrev pub is_closing : Closer → Bool
is_closing away = false
is_closing _ = true

abbrev is_over : Closer → Bool
is_over gone = true
is_over _ = false

abbrev has_ended : Searcher → Bool
has_ended ended = true
has_ended _ = false

-- What holds in each state: `active` says that the destructor was not called, and the destructor
-- returns behind the end of the thread.
pub Valid : Search → Type 0
Valid s =
    (s.active ≡ not (is_closing s.closer))
    × ((is_over s.closer && not (has_ended s.thread)) ≡ false)

Move-Valid : (s t : Search) → Move s t → Valid s → Valid t
unfolding Valid
Move-Valid s t (Move.slept c a k) h = ground arith
Move-Valid s t (Move.searched c a k) h = ground arith
Move-Valid s t (Move.test c true k) h = ground arith
Move-Valid s t (Move.test c false k) h = ground arith
Move-Valid s t (Move.woken c a true) h = ground arith
Move-Valid s t (Move.woken c a false) h = ground arith
Move-Valid s t (Move.retest c true k) h = ground arith
Move-Valid s t (Move.retest c false k) h = ground arith
Move-Valid s t (Move.clear w k) h = ground arith
Move-Valid s t (Move.kill w a k) h = ground arith
Move-Valid s t (Move.join a k) h = ground arith

pub Reached-Valid : (s : Search) → Reached s → Valid s
unfolding Valid
Reached-Valid s Reached.first = (refl, refl)
Reached-Valid s (Reached.next r t reached move) = Move-Valid r t move (Reached-Valid r reached)

-- The steps that are left to the thread and to the destructor once `active` is false.
thread_left : Searcher → ℕ
thread_left sleeping = 3
thread_left searching = 2
thread_left testing = 1
thread_left waiting = 2
thread_left retesting = 1
thread_left ended = 0

closer_left : Closer → ℕ
closer_left away = 3
closer_left cleared = 2
closer_left joining = 1
closer_left gone = 0

abbrev left : Search → ℕ
left s = thread_left s.thread + closer_left s.closer

Move-left :
    (s t : Search) → Move s t → s.active ≡ false → (t.active ≡ false) × (left t + 1 ≤ left s)
unfolding thread_left closer_left
Move-left s t (Move.slept c a k) h = (h, omega arith)
Move-left s t (Move.searched c a k) h = (h, omega arith)
Move-left s t (Move.test c true k) h = absurd (ground arith)
Move-left s t (Move.test c false k) h = (h, omega arith)
Move-left s t (Move.woken c a true) h = (h, omega arith)
Move-left s t (Move.woken c a false) h = (h, omega arith)
Move-left s t (Move.retest c true k) h = absurd (ground arith)
Move-left s t (Move.retest c false k) h = (h, omega arith)
Move-left s t (Move.clear w k) h = absurd (ground arith)
Move-left s t (Move.kill w a k) h = (h, omega arith)
Move-left s t (Move.join a k) h = (h, omega arith)

Run-left : (n : ℕ) (s t : Search) → Run n s t → s.active ≡ false → n + left t ≤ left s
Run-left n s t (Run.done u) h = omega arith
Run-left n s t (Run.step m u v w move run) h =
    let (inactive, less) = Move-left u v move h in omega (arith, less, Run-left m v w run inactive)

thread_left-le : (t : Searcher) → thread_left t ≤ 3
unfolding thread_left
thread_left-le sleeping = omega arith
thread_left-le searching = omega arith
thread_left-le testing = omega arith
thread_left-le waiting = omega arith
thread_left-le retesting = omega arith
thread_left-le ended = omega arith

left-inactive :
    (t : Searcher) (c : Closer) → not (is_closing c) ≡ false → thread_left t + closer_left c ≤ 5
unfolding thread_left closer_left
left-inactive t away h = absurd (ground arith)
left-inactive t cleared h = omega (arith, thread_left-le t)
left-inactive t joining h = omega (arith, thread_left-le t)
left-inactive t gone h = omega (arith, thread_left-le t)

-- The runs that end the thread and the destructor once `active` is false.
thread-ends :
    (w : Searcher) (c : Closer) (k : Bool)
    → (m : ℕ) × Run m
        (record { thread = w; closer = c; active = false; terminate = k })
        (record { thread = ended; closer = c; active = false; terminate = k })
      × (m ≤ thread_left w)
unfolding thread_left
thread-ends sleeping c k = (
  3,
  Run.step 2 _ _ _ (Move.slept c false k) (
      Run.step 1 _ _ _ (Move.searched c false k)
        (Run.step 0 _ _ _ (Move.test c false k) (Run.done _))),
  omega arith,
)
thread-ends searching c k = (
  2,
  Run.step 1 _ _ _ (Move.searched c false k) (Run.step 0 _ _ _ (Move.test c false k) (Run.done _)),
  omega arith,
)
thread-ends testing c k = (1, Run.step 0 _ _ _ (Move.test c false k) (Run.done _), omega arith)
thread-ends waiting c true =
    (1, Run.step 0 _ _ _ (Move.woken c false true) (Run.done _), omega arith)
thread-ends waiting c false = (
  2,
  Run.step 1 _ _ _ (Move.woken c false false)
      (Run.step 0 _ _ _ (Move.retest c false false) (Run.done _)),
  omega arith,
)
thread-ends retesting c k = (1, Run.step 0 _ _ _ (Move.retest c false k) (Run.done _), omega arith)
thread-ends ended c k = (0, Run.done _, omega arith)

closer-ends :
    (c : Closer) (k : Bool)
    → is_closing c ≡ true
    → (m : ℕ) × (u : Search) × Run m
        (record { thread = ended; closer = c; active = false; terminate = k })
        u
      × (m ≤ closer_left c)
      × (u.thread ≡ ended)
      × (u.closer ≡ gone)
unfolding closer_left
closer-ends away k h = absurd (ground arith)
closer-ends cleared k h = (
  2,
  _,
  Run.step 1 _ _ _ (Move.kill ended false k) (Run.step 0 _ _ _ (Move.join false true) (Run.done _)),
  omega arith,
  refl,
  refl,
)
closer-ends joining k h =
    (1, _, Run.step 0 _ _ _ (Move.join false k) (Run.done _), omega arith, refl, refl)
closer-ends gone k h = (0, _, Run.done _, omega arith, refl, refl)

Run-append : (n m : ℕ) (s t u : Search) → Run n s t → Run m t u → Run (n + m) s u
Run-append n m s t u (Run.done v) second = subst (λ (j : ℕ). Run j s u) (omega arith) second
Run-append n m s t u (Run.step k a b c move first) second =
    subst (λ (j : ℕ). Run j s u) (omega arith)
      (Run.step (k + m) a b u move (Run-append k m b c u first second))

both-end :
    (w : Searcher) (c : Closer) (a k : Bool)
    → a ≡ false
    → is_closing c ≡ true
    → (m : ℕ) × (u : Search) × Run m
        (record { thread = w; closer = c; active = a; terminate = k })
        u
      × (m ≤ thread_left w + closer_left c)
      × (u.thread ≡ ended)
      × (u.closer ≡ gone)
both-end w c true k inactive closing = absurd (ground arith)
both-end w c false k inactive closing =
    let (n, first, small) = thread-ends w c k in
    let (m, u, second, less, over, left_behind) = closer-ends c k closing in
    (n + m, u, Run-append n m _ _ u first second, omega (arith, small, less), over, left_behind)

Run-Reached : (n : ℕ) (s t : Search) → Reached s → Run n s t → Reached t
Run-Reached n s t reached (Run.done u) = reached
Run-Reached n s t reached (Run.step m a b c move run) =
    Run-Reached m b c (Reached.next a b reached move) run

Run-inactive : (n : ℕ) (s t : Search) → s.active ≡ false → Run n s t → t.active ≡ false
Run-inactive n s t h (Run.done u) = h
Run-inactive n s t h (Run.step m a b c move run) = Run-inactive m b c (Move-left a b move h).0 run

-- When the destructor was called in a state that is reached, each run of steps from there, in any
-- order, goes on to one of at most five steps in all, behind which the thread has ended and the
-- destructor has returned.
pub Run-ends :
    (n : ℕ) (s t : Search)
    → Reached s
    → is_closing s.closer ≡ true
    → Run n s t
    → (m : ℕ) × (u : Search) × Run m t u × (n + m ≤ 5) × (u.thread ≡ ended) × (u.closer ≡ gone)
unfolding Valid
Run-ends n s t reached closing run =
    let inactive : s.active ≡ false = ground (arith, (Reached-Valid s reached).0, closing) in
    let still = Run-inactive n s t inactive run in
    let valid = (Reached-Valid t (Run-Reached n s t reached run)).0 in
    let (m, u, rest, less, over, left_behind) =
      both-end t.thread t.closer t.active t.terminate still (ground (arith, valid, still)) in
    let bound = left-inactive s.thread s.closer (ground (arith, closing)) in
    (m, u, rest, omega (arith, less, bound, Run-left n s t run inactive), over, left_behind)
