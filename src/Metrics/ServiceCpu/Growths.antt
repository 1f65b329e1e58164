-- ===== src/Metrics/ServiceCpu/Growths.antt =====
-- What the growths of the processes of a service add up to, in ServCpuCollector of services/cpu.cpp.
use watched_agent.Base.{
  ℕ, ◌+◌, ◌-◌, ◌%◌, ◌^◌, ◌<◌, false, List, [], ◌∷◌, none, some, if◌then◌else◌, ltb, ◌==◌, lookup,
  insert, any, ◌≡◌, refl, arith, Bool-cases, Option-cases, inl, inr,
}
use watched_agent.Metrics.ServiceCpu.{Growth, add_growth}

lookup-insert_number :
    {A : Type 0} (k key : ℕ) (x : A) (m : List (ℕ × A))
    → lookup ◌==◌ k (insert ◌==◌ key x m) ≡ (if key == k then some x else lookup ◌==◌ k m)
lookup-insert_number k key x [] = refl
lookup-insert_number k key x (e ∷ m) = ground (arith, lookup-insert_number k key x m)

-- The readings of one counter of several processes, in turn.
unfoldable pub add_growths : List (ℕ × ℕ) → Growth → Growth
add_growths [] g = g
add_growths (e ∷ es) g = add_growths es (add_growth e.0 e.1 g)

-- How much one process grew.
unfoldable pub step_of : ℕ → ℕ → List (ℕ × ℕ) → ℕ
step_of pid v last = elim (lookup ◌==◌ pid last) [ none ↦ 0 | some old ↦ v - old ]

-- How much each process grew over its last value: nothing if it is new, or if the counter fell.
unfoldable pub growth_of : List (ℕ × ℕ) → List (ℕ × ℕ) → ℕ
growth_of last [] = 0
growth_of last (e ∷ es) = step_of e.0 e.1 last + growth_of last es

-- No process is read twice.
abbrev DistinctReadings : List (ℕ × ℕ) → Type 0
DistinctReadings [] = Unit
DistinctReadings (e ∷ es) = (any (λ (x : ℕ × ℕ). x.0 == e.0) es ≡ false) × DistinctReadings es

growth_of-insert :
    (pid v : ℕ) (last es : List (ℕ × ℕ))
    → any (λ (x : ℕ × ℕ). x.0 == pid) es ≡ false
    → growth_of (insert ◌==◌ pid v last) es ≡ growth_of last es
unfolding growth_of step_of
growth_of-insert pid v last [] h = refl
growth_of-insert pid v last (e ∷ es) h =
    ground (arith, growth_of-insert pid v last es, lookup-insert_number e.0 pid v last)

add_growth-sum :
    (pid v : ℕ) (g : Growth)
    → g.sum < 2 ^ 32
    → (add_growth pid v g).sum ≡ (g.sum + step_of pid v g.last) % 2 ^ 32
unfolding add_growth step_of
add_growth-sum pid v g h = elim (Option-cases (lookup ◌==◌ pid g.last)) [
  | inl e ↦ rw (add_growth, step_of, e) (omega arith)
  | inr (old, e) ↦ elim (Bool-cases (ltb old v)) [
    | inl k ↦ rw (add_growth, step_of, e, k) refl
    | inr k ↦ rw (add_growth, step_of, e, k) (ground arith)
  ]
]

-- When no process is read twice, the sum of a counter, below 2 ^ 32 before, grows by
-- what the processes that were known grew by, on uint32_t: a process that is new or whose counter
-- fell adds nothing.
add_growths-sum :
    (es : List (ℕ × ℕ)) (g : Growth)
    → DistinctReadings es
    → g.sum < 2 ^ 32
    → (add_growths es g).sum ≡ (g.sum + growth_of g.last es) % 2 ^ 32
unfolding add_growths growth_of add_growth
add_growths-sum [] g d h = omega arith
add_growths-sum (e ∷ es) g d h =
    let one = add_growth-sum e.0 e.1 g h in
    let rest = add_growths-sum es (add_growth e.0 e.1 g) d.1 (omega (arith, one)) in
    let same = growth_of-insert e.0 e.1 g.last es d.0 in omega (arith, one, rest, same)
