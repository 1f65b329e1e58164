-- ===== src/Lua/Metrics/Totals.antt =====
-- Numbers of values in the histories of a collector, and their sizes.
use watched_agent.Base.{
  ℕ, ◌+◌, ◌≤◌, List, [], ◌∷◌, none, some, Str, str_eq, All, lookup, insert, length, ◌≡◌, refl, ap,
  arith, Bool-cases, inl, inr, along_some,
}
use watched_agent.Json.{Json}
use watched_agent.Resource.{Resource, set_property, put_first}

module _ (json : Json) where
  open json use {Value}

  -- The number of values of some histories.
  unfoldable pub total : List (Str × Resource json) → ℕ
  total [] = 0
  total (e ∷ es) = length e.1.v + total es

  pub total-insert :
      (k : Str) (r r' : Resource json) (es : List (Str × Resource json))
      → lookup str_eq k es ≡ some r
      → total (insert str_eq k r' es) + length r.v ≡ total es + length r'.v
  unfolding total
  total-insert k r r' [] h = cc
  total-insert k r r' (e ∷ es) h = elim (Bool-cases (str_eq e.0 k)) [
    | inl same ↦
        let found : e.1 ≡ r = ground (arith, rw same at h) in
        rw same (omega (arith, ap (λ (x : Resource json). length x.v) found))
    | inr other ↦ rw other (omega (arith, total-insert k r r' es (rw other at h)))
  ]

  pub total-lookup :
      (k : Str) (r : Resource json) (es : List (Str × Resource json))
      → lookup str_eq k es ≡ some r
      → length r.v ≤ total es
  unfolding total
  total-lookup k r [] h = cc
  total-lookup k r (e ∷ es) h = elim (Bool-cases (str_eq e.0 k)) [
    | inl same ↦
        let found : e.1 ≡ r = ground (arith, rw same at h) in
        omega (arith, ap (λ (x : Resource json). length x.v) found)
    | inr other ↦ omega (arith, total-lookup k r es (rw other at h))
  ]

  pub total-insert_new :
      (k : Str) (r : Resource json) (es : List (Str × Resource json))
      → lookup str_eq k es ≡ none
      → total (insert str_eq k r es) ≡ total es + length r.v
  unfolding total
  total-insert_new k r [] h = omega arith
  total-insert_new k r (e ∷ es) h = elim (Bool-cases (str_eq e.0 k)) [
    | inl same ↦ absurd (ground (arith, rw same at h))
    | inr other ↦ rw other (omega (arith, total-insert_new k r es (rw other at h)))
  ]

  pub set_property-length :
      (property : Str) (x : Value) (r r' : Resource json)
      → set_property json property x r ≡ some r'
      → (length r'.v ≡ length r.v) × (r'.size ≡ r.size)
  unfolding set_property put_first
  set_property-length property x r r' e = go r.v refl e
    where
      go :
          (v : List Value)
          → r.v ≡ v
          → set_property json property x r ≡ some r'
          → (length r'.v ≡ length r.v) × (r'.size ≡ r.size)
      go [] h e = absurd (ground (arith, rw (set_property, h) at e))
      go (y ∷ ys) h e =
          along_some (λ (t : Resource json). (length t.v ≡ length r.v) × (t.size ≡ r.size))
            (record r { v = json.put property x y ∷ ys }) r' (rw (set_property, h) at e)
            (rw h refl, refl)

  -- Each history is within its size.
  abbrev pub Sized : List (Str × Resource json) → Type 0
  Sized es = All (λ (e : Str × Resource json). length e.1.v ≤ e.1.size) es

  pub Sized-insert :
      (k : Str) (r : Resource json) (es : List (Str × Resource json))
      → length r.v ≤ r.size
      → Sized es
      → Sized (insert str_eq k r es)
  Sized-insert k r [] h sized = (h, tt)
  Sized-insert k r (e ∷ es) h sized = elim (Bool-cases (str_eq e.0 k)) [
    | inl same ↦ rw same (h, sized.1)
    | inr other ↦ rw other (sized.0, Sized-insert k r es h sized.1)
  ]

  pub Sized-lookup :
      (k : Str) (r : Resource json) (es : List (Str × Resource json))
      → lookup str_eq k es ≡ some r
      → Sized es
      → length r.v ≤ r.size
  Sized-lookup k r [] h sized = cc
  Sized-lookup k r (e ∷ es) h sized = elim (Bool-cases (str_eq e.0 k)) [
    | inl same ↦
        along_some (λ (x : Resource json). length x.v ≤ x.size) e.1 r (rw same at h) sized.0
    | inr other ↦ Sized-lookup k r es (rw other at h) sized.1
  ]
