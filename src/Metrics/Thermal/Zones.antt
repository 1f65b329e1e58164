-- ===== src/Metrics/Thermal/Zones.antt =====
-- What the collector of collectors/thermal.cpp shows: the temperature of the last zone of a name.
use watched_agent.Base.{
  ℕ, true, false, ◌&&◌, List, [], ◌∷◌, Option, none, some, if◌then◌else◌, Str, str_eq, codes, suc,
  ◌≡◌, refl, ◌∙◌, sym, subst, Bool-cases, Option-cases, inl, inr,
}
use watched_agent.Json.{Json}
use watched_agent.Resource.{Counter, Resource, next_value, set_property, put_first}
use watched_agent.Collector.Own.Shown.{newest, first-next_value}
use watched_agent.Metrics.Thermal.{Zone, is_zone, name_of, value_of, set_zones, collect_thermal}

module _ (json : Json) (celsius : Str → json.Double) where
  open json use {Value, get, put, is_map}

  -- The temperature of the last zone whose property is `k`.
  unfoldable pub last_value : Str → List Zone → Option Value
  last_value k [] = none
  last_value k (z ∷ zs) = elim (last_value k zs) [
    | some x ↦ some x
    | none ↦ if is_zone z && str_eq (name_of z) k then some (value_of json celsius z) else none
  ]

  abbrev pub or_before : Str → Value → Option Value → Value
  or_before k before none = get k before
  or_before k before (some x) = x

  last-put :
      (k : Str) (z : Zone) (zs : List Zone) (x : Value)
      → is_map x ≡ true
      → is_zone z ≡ true
      → or_before k (put (name_of z) (value_of json celsius z) x) (last_value k zs)
        ≡ or_before k x (last_value k (z ∷ zs))
  unfolding last_value
  last-put k z zs x m h =
      let got = json.get-put k (name_of z) (value_of json celsius z) x m in
      elim (Option-cases (last_value k zs)) [
        | inr (y, e) ↦ rw (last_value, e) refl
        | inl e ↦ elim (Bool-cases (str_eq (name_of z) k)) [
          | inl q ↦ rw (last_value, e, h, q, got, q) refl
          | inr q ↦ rw (last_value, e, h, q, got, q) refl
        ]
      ]

  last-skip :
      (k : Str) (z : Zone) (zs : List Zone) (x : Value)
      → is_zone z ≡ false
      → or_before k x (last_value k zs) ≡ or_before k x (last_value k (z ∷ zs))
  unfolding last_value
  last-skip k z zs x h = elim (Option-cases (last_value k zs)) [
    | inr (y, e) ↦ rw (last_value, e) refl
    | inl e ↦ rw (last_value, e, h) refl
  ]

  Warm : List Zone → Value → List Value → Option (Resource json) → Type 0
  Warm zs x xs result =
      (r : Resource json) × (y : Value) × (result ≡ some r)
      × (r.v ≡ y ∷ xs)
      × ((k : Str) → get k y ≡ or_before k x (last_value k zs))

  set_zones-Warm :
      (zs : List Zone) (x : Value) (xs : List Value) (size : ℕ)
      → is_map x ≡ true
      → Warm zs x xs (set_zones json celsius zs (record { v = x ∷ xs; size = size }))
  unfolding set_zones Warm last_value set_property put_first
  set_zones-Warm [] x xs size m = (record { v = x ∷ xs; size = size }, x, refl, refl, λ k. refl)
  set_zones-Warm (z ∷ zs) x xs size m = elim (Bool-cases (is_zone z)) [
    | inr h ↦
        let (r, y, made, shown, each) = set_zones-Warm zs x xs size m in
        (r, y, rw (set_zones, h) made, shown, λ k. each k ∙ last-skip k z zs x h)
    | inl h ↦
        let x' = put (name_of z) (value_of json celsius z) x in
        let (r, y, made, shown, each) =
          set_zones-Warm zs x' xs size (json.is_map-put (name_of z) (value_of json celsius z) x) in
        (
          r,
          y,
          rw (set_zones, h, set_property, put_first) made,
          shown,
          λ k. each k ∙ last-put k z zs x m h,
        )
  ]

  set_zones-at :
      (zs : List Zone) (x : Value) (xs : List Value) (r : Resource json)
      → r.v ≡ x ∷ xs
      → is_map x ≡ true
      → Warm zs x xs (set_zones json celsius zs r)
  set_zones-at zs x xs r e m =
      subst (λ v. Warm zs x xs (set_zones json celsius zs (record { v = v; size = r.size })))
        (sym e) (set_zones-Warm zs x xs r.size m)

  -- When the directory can be opened and the history has room for a value, the collector returns, and
  -- its newest value shows for each name the temperature of the last zone of that name, and every other
  -- member as in the value before, with the new time.
  collect_thermal-last :
      (now : Value) (zs : List Zone) (r : Resource json) (c : Counter) (s : ℕ)
      → r.size ≡ suc s
      → (r' : Resource json) × (c' : Counter) × (y : Value) × (ys : List Value) × (collect_thermal
            json celsius now
            (some zs)
            r
            c
          ≡ some (r', c'))
        × (r'.v ≡ y ∷ ys)
        × ((k : Str)
            → get k y
              ≡ or_before k (put (codes "timestamp") now (newest json r.v)) (last_value k zs))
  unfolding collect_thermal Warm
  collect_thermal-last now zs r c s room =
      let first = first-next_value json now r c r.v s refl room in
      let x = put (codes "timestamp") now (newest json r.v) in
      let n = next_value json now r c in
      let (out, y, made, shown, each) =
        set_zones-at zs x first.0 n.0 first.1
          (json.is_map-put (codes "timestamp") now (newest json r.v)) in
      (out, n.1, y, first.0, rw (collect_thermal, made) refl, shown, each)
