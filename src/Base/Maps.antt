-- ===== src/Base/Maps.antt =====
-- A std::map as the list of its entries, with the key of an entry under a Boolean test.
use mathlib.Core.Path.{◌≡◌, refl, ◌∙◌}
use mathlib.Core.Logic.{inl, inr}
use mathlib.Core.Bool.{Bool, true, false}
use mathlib.Core.List.{List, [], ◌∷◌}
use mathlib.Core.Option.{Option, none, some}
use native.Mathlib.Omega.{arith}
use watched_agent.Base.Tests.{if◌then◌else◌, Str, str_eq, str_eq_iff, str_eq_comm, Bool-cases}
use watched_agent.Base.Lists.{any, first}

module _ {ℓ} {K : Type 0} {A : Type ℓ} (same : K → K → Bool) where
  -- m.find(key)
  abbrev pub lookup : K → List (K × A) → Option A
  lookup key [] = none
  lookup key (e ∷ m) = if same e.0 key then some e.1 else lookup key m

  -- m[key] = x
  abbrev pub insert : K → A → List (K × A) → List (K × A)
  insert key x [] = (key, x) ∷ []
  insert key x (e ∷ m) = if same e.0 key then (e.0, x) ∷ m else e ∷ insert key x m

pub lookup-insert {ℓ} :
    {A : Type ℓ} (k key : Str) (x : A) (m : List (Str × A))
    → lookup str_eq k (insert str_eq key x m) ≡ (if str_eq key k then some x else lookup str_eq k m)
lookup-insert k key x [] = refl
lookup-insert k key x (e ∷ m) =
    ground (arith, lookup-insert k key x m, str_eq_iff e.0 key, str_eq_iff e.0 k, str_eq_iff key k)

module _ {ℓ κ} {S : Type ℓ} {A : Type κ} (key : S → Str) (value : S → A) where
  -- for (s : ss) m[key(s)] = value(s)
  abbrev pub gather : List S → List (Str × A) → List (Str × A)
  gather [] m = m
  gather (s ∷ ss) m = gather ss (insert str_eq (key s) (value s) m)

-- No two entries have one key.
abbrev pub DistinctKeys {ℓ} : {S : Type ℓ} → (S → Str) → List S → Type 0
DistinctKeys key [] = Unit
DistinctKeys key (s ∷ ss) = (any (λ t. str_eq (key s) (key t)) ss ≡ false) × DistinctKeys key ss

module _ {ℓ κ} {S : Type ℓ} {A : Type κ} (key : S → Str) (value : S → A) where
  gather-absent :
      (k : Str) (ss : List S) (m : List (Str × A))
      → any (λ t. str_eq k (key t)) ss ≡ false
      → lookup str_eq k (gather key value ss m) ≡ lookup str_eq k m
  gather-absent k [] m h = refl
  gather-absent k (s ∷ ss) m h = ground (
    arith,
    gather-absent k ss (insert str_eq (key s) (value s) m),
    lookup-insert k (key s) (value s) m,
    str_eq_comm k (key s),
  )

  same_key :
      (k : Str) (s : S) (ss : List S)
      → str_eq k (key s) ≡ true
      → any (λ t. str_eq (key s) (key t)) ss ≡ false
      → any (λ t. str_eq k (key t)) ss ≡ false
  same_key k s ss e h = rw ((str_eq_iff k (key s)).0 e) h

  -- With distinct keys the entry of a key is that of the first element with this key.
  pub lookup-gather :
      (k : Str) (ss : List S) (m : List (Str × A))
      → DistinctKeys key ss
      → lookup str_eq k (gather key value ss m) ≡ elim (first (λ s. str_eq k (key s)) ss) [
        | none ↦ lookup str_eq k m
        | some s ↦ some (value s)
      ]
  lookup-gather k [] m h = refl
  lookup-gather k (s ∷ ss) m h =
      let m' = insert str_eq (key s) (value s) m in
      let at = lookup-insert k (key s) (value s) m in
      elim (Bool-cases (str_eq k (key s))) [
        | inl e ↦ rw e (
            gather-absent k ss m' (same_key k s ss e h.0)
            ∙ (at ∙ (rw ((str_eq_comm (key s) k), e) refl)))
        | inr e ↦ rw e (ground (arith, lookup-gather k ss m' h.1, at, str_eq_comm (key s) k))
      ]
