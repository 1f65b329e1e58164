-- ===== src/Collector/Own/Shown.antt =====
-- The self collector shows for each counter what was made and not deleted.
use watched_agent.Base.{
  ℕ, ◌+◌, ◌%◌, ◌^◌, true, false, List, [], ◌∷◌, ◌++◌, Option, none, some, Str, str_eq, str_eq_iff,
  str_eq_comm, codes, ◌-◌, ◌/◌, lookup, insert, ◌≡◌, ◌≢◌, refl, arith, any, DistinctKeys, ◌==◌,
  Bool-cases, Option-cases, inl, inr, ◌∙◌, sym, take, suc, subst,
}
use watched_agent.Json.{Json}
use watched_agent.Resource.{Counter, Resource, next_value, set_property, put_first}
use watched_agent.Resource.Values.{Tick, next_tick, set_tick_value, rate}
use watched_agent.Resource.History.{next_value-keeps}
use watched_agent.Collector.Own.{
  value_counter, Counters, live, set_counts, Own, next_own, collect_self,
}

rate-some : (o : Option ℕ) (value freq : ℕ) → freq ≢ 0 → (n : ℕ) × (rate o value freq ≡ some n)
unfolding rate
rate-some none value freq h = (0, refl)
rate-some (some o) value freq h =
    let e : (freq == 0) ≡ false = ground (arith, h) in
    ((value + 2 ^ 32 - o) % 2 ^ 32 / freq, rw e refl)

lookup-none :
    {A : Type 0} (k : Str) (es : List (Str × A))
    → any (λ e. str_eq k e.0) es ≡ false
    → lookup str_eq k es ≡ none
lookup-none k [] h = refl
lookup-none k (e ∷ es) h = ground (arith, lookup-none k es, str_eq_comm k e.0)

any-insert :
    {A : Type 0} (k key : Str) (x : A) (m : List (Str × A))
    → any (λ e. str_eq k e.0) m ≡ false
    → str_eq k key ≡ false
    → any (λ e. str_eq k e.0) (insert str_eq key x m) ≡ false
any-insert k key x [] h other = ground (arith, other)
any-insert k key x (e ∷ m) h other = ground (arith, any-insert k key x m)

insert-DistinctKeys :
    {A : Type 0} (key : Str) (x : A) (m : List (Str × A))
    → DistinctKeys (λ (e : Str × A). e.0) m
    → DistinctKeys (λ (e : Str × A). e.0) (insert str_eq key x m)
insert-DistinctKeys key x [] d = (refl, tt)
insert-DistinctKeys key x (e ∷ m) d = elim (Bool-cases (str_eq e.0 key)) [
  | inl h ↦ rw h d
  | inr h ↦ rw h (any-insert e.0 key x m d.0 h, insert-DistinctKeys key x m d.1)
]

module _ (json : Json) where
  open json use {Value, of_ℕ, get, put, is_map}

  -- A rate has a first value and a frequency that is not 0.
  abbrev Ready : Tick json → Type 0
  Ready t = (t.freq ≢ 0) × ((y : Value) × (ys : List Value) × (t.res.v ≡ y ∷ ys))

  set_tick_value-Ready :
      (name : Str) (value : ℕ) (t : Tick json)
      → Ready t
      → (t' : Tick json) × (set_tick_value json name value t ≡ some t') × Ready t'
  unfolding set_tick_value set_property put_first
  set_tick_value-Ready name value t (f, (y, ys, e)) =
      let (n, r) = rate-some (lookup str_eq name t.old) value t.freq f in
      (
        record t {
          res = record t.res { v = put name (of_ℕ n) y ∷ ys };
          old = insert str_eq name value t.old;
        },
        rw (set_tick_value, r, set_property, put_first, e) refl,
        (f, (put name (of_ℕ n) y, ys, refl)),
      )

  -- A value that is set is read back: no later counter has its name.
  get-count :
      (k : Str) (e : Str × Counter) (es : Counters) (x : Value)
      → any (λ (t : Str × Counter). str_eq e.0 t.0) es ≡ false
      → is_map x ≡ true
      → (elim (lookup str_eq k es) [
        | some c ↦ of_ℕ (live c)
        | none ↦ get k (put e.0 (of_ℕ (live e.1)) x)
      ])
        ≡ elim (lookup str_eq k (e ∷ es)) [ some c ↦ of_ℕ (live c) | none ↦ get k x ]
  get-count k e es x d m =
      let got = json.get-put k e.0 (of_ℕ (live e.1)) x m in
      elim (Bool-cases (str_eq e.0 k)) [
        | inl h ↦
            let same : e.0 ≡ k = (str_eq_iff e.0 k).0 h in
            let last = lookup-none k es (rw same at d) in rw (h, last, got, h) refl
        | inr h ↦ elim (Option-cases (lookup str_eq k es)) [
          | inl n ↦ rw (h, n, got, h) refl
          | inr (c, n) ↦ rw (h, n) refl
        ]
      ]

  -- The first value once the counters are set.
  Shows : Counters → Value → List Value → ℕ → Option (Resource json × Tick json) → Type 0
  Shows es x xs size result =
      (r : Resource json) × (t : Tick json) × (result ≡ some (r, t))
      × ((y : Value) × (r.v ≡ y ∷ xs)
          × ((k : Str)
              → get k y ≡ elim (lookup str_eq k es) [ some c ↦ of_ℕ (live c) | none ↦ get k x ]))

  set_counts-Shows :
      (es : Counters) (x : Value) (xs : List Value) (size : ℕ) (t : Tick json)
      → DistinctKeys (λ (e : Str × Counter). e.0) es
      → is_map x ≡ true
      → Ready t
      → Shows es x xs size (set_counts json es (record { v = x ∷ xs; size = size }) t)
  unfolding set_counts Shows set_property put_first
  set_counts-Shows [] x xs size t d m h =
      (record { v = x ∷ xs; size = size }, t, refl, (x, refl, λ k. refl))
  set_counts-Shows (e ∷ es) x xs size t d m h =
      let (t', e1, h') = set_tick_value-Ready (e.0 ++ codes "_del") e.1.del t h in
      let (t'', e2, h'') = set_tick_value-Ready (e.0 ++ codes "_add") e.1.add t' h' in
      let x' = put e.0 (of_ℕ (live e.1)) x in
      let (r, u, made, (y, first, shown)) =
        set_counts-Shows es x' xs size t'' d.1 (json.is_map-put e.0 (of_ℕ (live e.1)) x) h'' in
      (
        r,
        u,
        rw (set_counts, set_property, put_first, e1, e2) made,
        (y, first, λ k. shown k ∙ get-count k e es x d.0 m),
      )

  set_counts-at :
      (es : Counters) (x : Value) (xs : List Value) (r : Resource json) (t : Tick json)
      → r.v ≡ x ∷ xs
      → DistinctKeys (λ (e : Str × Counter). e.0) es
      → is_map x ≡ true
      → Ready t
      → Shows es x xs r.size (set_counts json es r t)
  set_counts-at es x xs r t e d m h =
      subst (λ v. Shows es x xs r.size (set_counts json es (record { v = v; size = r.size }) t))
        (sym e) (set_counts-Shows es x xs r.size t d m h)

  -- The newest value of a history, or the empty object that nextValue starts with.
  abbrev pub newest : List Value → Value
  newest [] = json.object
  newest (x ∷ xs) = x

  pub first-next_value :
      (now : Value) (r : Resource json) (c : Counter) (v : List Value) (s : ℕ)
      → r.v ≡ v
      → r.size ≡ suc s
      → (xs : List Value) × ((next_value json now r c).0.v
          ≡ put (codes "timestamp") now (newest v) ∷ xs)
  first-next_value now r c [] s e n = (take s [], next_value-keeps json now r c ∙ (rw (e, n) refl))
  first-next_value now r c (x ∷ xs) s e n =
      (take s (x ∷ xs), next_value-keeps json now r c ∙ (rw (e, n) refl))

  -- When both histories have room for a value, the frequency of the rates is not 0 and no counter is
  -- listed twice, the collector returns, and its newest value shows for each counter of the program
  -- what was made and not deleted, on uint32_t, and every other member as in the value before, with
  -- the new time.
  pub collect_self-live :
      (now : Value) (o : Own json) (s s' : ℕ)
      → o.values.size ≡ suc s
      → o.changes.res.size ≡ suc s'
      → o.changes.freq ≢ 0
      → DistinctKeys (λ (e : Str × Counter). e.0) o.counters
      → (o' : Own json) × (y : Value) × (ys : List Value) × (collect_self json now o ≡ some o')
        × (o'.values.v ≡ y ∷ ys)
        × ((k : Str)
            → get k y ≡ elim (lookup str_eq k o'.counters) [
              | some c ↦ of_ℕ (live c)
              | none ↦ get k (put (codes "timestamp") now (newest o.values.v))
            ])
  unfolding collect_self next_own next_tick Shows
  collect_self-live now o s s' room room' f d =
      let n = next_own json now o in
      let c = value_counter o.counters in
      let first = first-next_value now o.values c o.values.v s refl room in
      let second =
        first-next_value now o.changes.res (next_value json now o.values c).1 o.changes.res.v s'
          refl room' in
      let x = put (codes "timestamp") now (newest o.values.v) in
      let old = put (codes "timestamp") now (newest o.changes.res.v) in
      let (r, t, made, (y, shown, each)) =
        set_counts-at n.counters x first.0 n.values n.changes first.1
          (insert-DistinctKeys (codes "values_count")
            (next_tick json now o.changes (next_value json now o.values c).1).1 o.counters d)
          (json.is_map-put (codes "timestamp") now (newest o.values.v))
          (f, (old, second.0, second.1)) in
      (record n { values = r; changes = t }, y, first.0, rw (collect_self, made) refl, shown, each)
