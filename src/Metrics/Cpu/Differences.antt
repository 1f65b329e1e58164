-- ===== src/Metrics/Cpu/Differences.antt =====
-- The differences of the times of a processor add up to the growth of all its times.
use watched_agent.Base.{ℕ, ◌+◌, ◌%◌, ◌^◌, ◌<◌, ◌≡◌, refl, arith, List, [], ◌∷◌, Str}
use watched_agent.Metrics.Cpu.{old_time, differences, sum_u32}

-- What the old times of some names add up to.
unfoldable pub sum_old : List (Str × ℕ) → List (Str × ℕ) → ℕ
sum_old old [] = 0
sum_old old (e ∷ es) = old_time old e.0 + sum_old old es

-- The sum that the shares are divided by is the growth of the sum of all times since the last call,
-- on uint32_t, also where a time or a sum wrapped around, if the old times are below 2 ^ 32.
sum_u32-differences :
    (old live : List (Str × ℕ))
    → ((name : Str) → old_time old name < 2 ^ 32)
    → (sum_u32 (differences old live) + sum_old old live) % 2 ^ 32 ≡ sum_u32 live
unfolding sum_u32 differences sum_old
sum_u32-differences old [] h = refl
sum_u32-differences old (e ∷ es) h = omega (arith, sum_u32-differences old es h, h e.0)
