-- ===== src/Resource/Rates.antt =====
-- A tickRessource shows the rate of a counter, also across its wrap-around.
use watched_agent.Base.{
  ℕ, ◌+◌, ◌-◌, ◌/◌, ◌%◌, ◌^◌, ◌<◌, ◌≡◌, ◌≢◌, refl, arith, true, List, ◌∷◌, some, if◌then◌else◌, Str,
  str_eq, lookup, insert, lookup-insert, str_eq_refl, ap, ◌∙◌,
}
use watched_agent.Json.{Json}
use watched_agent.Resource.{set_property, put_first}
use watched_agent.Resource.Values.{Tick, rate, set_tick_value}

module _ (json : Json) where
  open json use {Value, null, of_ℕ, get, put, is_map, get-put}

  -- The metric once a value is set.
  abbrev pub after : Str → ℕ → ℕ → Value → List Value → Tick json → Tick json
  after name value n x xs t = record t {
    res = record { v = put name (of_ℕ n) x ∷ xs; size = t.res.size };
    old = insert str_eq name value t.old;
  }

  rate_wraps :
      (a d freq : ℕ)
      → freq ≢ 0
      → d < 2 ^ 32
      → rate (some (a % 2 ^ 32)) ((a + d) % 2 ^ 32) freq ≡ some (d / freq)
  unfolding rate
  rate_wraps a d freq f h =
      let e : ((a + d) % 2 ^ 32 + 2 ^ 32 - a % 2 ^ 32) % 2 ^ 32 ≡ d = omega arith in
      ground (arith, ap (λ (z : ℕ). some (z / freq)) e)

  set_tick_value-after :
      (name : Str) (value n : ℕ) (x : Value) (xs : List Value) (size freq : ℕ)
      (old : List (Str × ℕ))
      → rate (lookup str_eq name old) value freq ≡ some n
      → let t : Tick json = record {
        res = record { v = x ∷ xs; size = size };
        old = old;
        freq = freq;
      } in
        set_tick_value json name value t ≡ some (after name value n x xs t)
  unfolding set_tick_value set_property put_first
  set_tick_value-after name value n x xs size freq old e = rw e refl

  -- A metric with a value that is an object, of a frequency that is not 0, that has seen a 32-bit
  -- counter of the kernel at `a`, shows its growth by `d` below 2 ^ 32 as d / freq, also when the
  -- counter wrapped around, and then has seen it there; it has seen the counters of the other
  -- properties where it had.
  pub set_tick_value-wraps :
      (name : Str) (a d : ℕ) (x : Value) (xs : List Value) (size freq : ℕ) (old : List (Str × ℕ))
      → is_map x ≡ true
      → freq ≢ 0
      → d < 2 ^ 32
      → lookup str_eq name old ≡ some (a % 2 ^ 32)
      → let t : Tick json = record {
        res = record { v = x ∷ xs; size = size };
        old = old;
        freq = freq;
      } in
        (t' : Tick json) × (set_tick_value json name ((a + d) % 2 ^ 32) t ≡ some t')
        × ((y : Value) × ((t'.res.v ≡ y ∷ xs) × (get name y ≡ of_ℕ (d / freq))))
        × ((k : Str)
            → lookup str_eq k t'.old
              ≡ (if str_eq name k then some ((a + d) % 2 ^ 32) else lookup str_eq k old))
  set_tick_value-wraps name a d x xs size freq old is f h seen =
      let value = (a + d) % 2 ^ 32 in
      let t : Tick json = record {
        res = record { v = x ∷ xs; size = size };
        old = old;
        freq = freq;
      } in
      let e = ap (λ o. rate o value freq) seen ∙ rate_wraps a d freq f h in
      (
        after name value (d / freq) x xs t,
        set_tick_value-after name value (d / freq) x xs size freq old e,
        (
          put name (of_ℕ (d / freq)) x,
          (refl, get-put name name (of_ℕ (d / freq)) x is ∙ (rw (str_eq_refl name) refl)),
        ),
        λ k. lookup-insert k name value old,
      )
