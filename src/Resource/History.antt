-- ===== src/Resource/History.antt =====
-- The history stays within its size and keeps the newest values; both prints show the same values.
use mathlib.Core.List.{reverse}
use watched_agent.Base.{
  ℕ, zero, suc, ◌+◌, ◌%◌, ◌^◌, true, false, List, [], ◌∷◌, ◌++◌, ◌≡◌, refl, arith, Str, length,
  take, keep_if, codes, append_assoc, append-nil, ◌∙◌, ap, sym, Bool-cases, inl, inr, min, take_all,
}
use watched_agent.Json.{Json}
use watched_agent.Resource.{
  Counter, Resource, next_value, push_copy, stamp, is_recent, append_recent, get_history_json,
  write_recent, get_history,
}

pub length-take : {A : Type 0} (n : ℕ) (xs : List A) → length (take n xs) ≡ min n (length xs)
length-take zero xs = omega arith
length-take (suc n) [] = omega arith
length-take (suc n) (x ∷ xs) = omega (arith, length-take n xs)

module _ (json : Json) where
  open json use {Value, Double, object, put, show}

  length-stamp :
      (now : Value) (v : List Value) → length (stamp json now (push_copy json v)) ≡ suc (length v)
  unfolding stamp push_copy
  length-stamp now [] = refl
  length-stamp now (x ∷ xs) = refl

  next_value-keeps_list :
      (now : Value) (r : Resource json) (l : List Value) (c : Counter)
      → r.v ≡ l
      → (next_value json now r c).0.v
        ≡ take r.size (elim l [
          | [] ↦ put (codes "timestamp") now object ∷ []
          | x ∷ xs ↦ put (codes "timestamp") now x ∷ x ∷ xs
        ])
  unfolding next_value
  next_value-keeps_list now r [] c e =
      ground (arith, take_all r.size (put (codes "timestamp") now object ∷ []))
  next_value-keeps_list now r (x ∷ xs) c e =
      ground (arith, take_all r.size (put (codes "timestamp") now x ∷ x ∷ xs))

  -- nextValue adds one value, up to the size of the history. When the counters keep the number of
  -- values, what `add` is ahead of `del` on uint32_t beside the values of other histories, they
  -- keep it behind the call.
  pub next_value-counts :
      (now : Value) (r : Resource json) (c : Counter) (others : ℕ)
      → (c.add % 2 ^ 32 ≡ (c.del + others + length r.v) % 2 ^ 32)
      → let (r', c') = next_value json now r c in
        (length r'.v ≡ min (length r.v + 1) r.size)
        × (r'.size ≡ r.size)
        × (c'.add % 2 ^ 32 ≡ (c'.del + others + length r'.v) % 2 ^ 32)
  unfolding next_value
  next_value-counts now r c others h =
      let v = stamp json now (push_copy json r.v) in
      ground (arith, length-stamp now r.v, length-take r.size v)

  -- The value of a history of at least one place is the one before it, or an empty object, with a
  -- new time, and the older values are those of before, as many as there is room for.
  pub next_value-keeps :
      (now : Value) (r : Resource json) (c : Counter)
      → (next_value json now r c).0.v
        ≡ take r.size (elim r.v [
          | [] ↦ put (codes "timestamp") now object ∷ []
          | x ∷ xs ↦ put (codes "timestamp") now x ∷ x ∷ xs
        ])
  unfolding next_value
  next_value-keeps now r c = next_value-keeps_list now r r.v c refl

  -- The values that a client sees, oldest first.
  abbrev pub recent : Double → List Value → List Value
  recent since v = keep_if (is_recent json since) v

  append_recent_eq :
      (since : Double) (out v : List Value) → append_recent json since out v ≡ out ++ recent since v
  unfolding append_recent
  append_recent_eq since out [] = sym (append-nil out)
  append_recent_eq since out (x ∷ xs) = ground (
    arith,
    append_recent_eq since out xs,
    append_recent_eq since (out ++ x ∷ []) xs,
    append_assoc out (x ∷ []) (recent since xs),
  )

  behind : List Value → Str
  behind [] = []
  behind (x ∷ xs) = codes ",\n" ++ (show x ++ behind xs)

  -- The texts of some values with a separator between two.
  pub joined : List Value → Str
  unfolding behind
  joined [] = []
  joined (x ∷ xs) = show x ++ behind xs

  write_recent-behind :
      (since : Double) (out : Str) (v : List Value)
      → write_recent json since out false v ≡ out ++ behind (recent since v)
  unfolding write_recent behind
  write_recent-behind since out [] = sym (append-nil out)
  write_recent-behind since out (x ∷ xs) = elim (Bool-cases (is_recent json since x)) [
    | inl new ↦
        rw (new, write_recent-behind since ((out ++ codes ",\n") ++ show x) xs) (simp append_assoc)
    | inr old ↦ rw (old, write_recent-behind since out xs)
  ]

  write_recent-joined :
      (since : Double) (out : Str) (v : List Value)
      → write_recent json since out true v ≡ out ++ joined (recent since v)
  unfolding write_recent joined
  write_recent-joined since out [] = sym (append-nil out)
  write_recent-joined since out (x ∷ xs) = elim (Bool-cases (is_recent json since x)) [
    | inl new ↦ rw (new, write_recent-behind since (out ++ show x) xs) (append_assoc out (show x) _)
    | inr old ↦ rw (old, write_recent-joined since out xs)
  ]

  -- Both forms of getHistory give the values whose time is known and not before `since`, oldest
  -- first: one appends them to an array, the other writes them in brackets, with a comma and a line
  -- end between two.
  pub get_history-agrees :
      (since : Double) (r : Resource json) (out : List Value)
      → (get_history_json json since r out ≡ out ++ recent since (reverse r.v))
        × (get_history json since r
            ≡ codes "[\n" ++ (joined (recent since (reverse r.v)) ++ codes "\n]\n"))
  unfolding get_history_json get_history
  get_history-agrees since r out = (
    append_recent_eq since out (reverse r.v),
    ap (λ s. s ++ codes "\n]\n") (write_recent-joined since (codes "[\n") (reverse r.v))
        ∙ append_assoc (codes "[\n") (joined (recent since (reverse r.v))) (codes "\n]\n"),
  )
