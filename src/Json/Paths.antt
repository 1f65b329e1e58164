-- ===== src/Json/Paths.antt =====
-- Assignments such as v["a"]["b"][0] = x to a value of jsoncpp, and a run of them.
use watched_agent.Base.{
  ℕ, Bool, true, false, ◌&&◌, List, [], ◌∷◌, if◌then◌else◌, Str, str_eq, str_eq_iff, str_eq_refl,
  All, ◌++◌, all, ◌==◌, ==_iff, ◌≡◌, refl, ◌∙◌, ap, arith, Bool-cases, inl, inr,
}
use watched_agent.Json.{Json}

-- A step of a path: a member, or an element of an array.
pub data Key : Type 0 where
  name : Str → Key
  at : ℕ → Key

-- The elements of jsoncpp's arrays: v[i], v after v[i] = x, and whether v is null or an array, so that
-- v[i] is allowed.
pub record Indexed (json : Json) : Type 1 where
  pub get_at : ℕ → json.Value → json.Value
  pub put_at : ℕ → json.Value → json.Value → json.Value
  pub is_list : json.Value → Bool
  pub is_list_null : is_list json.null ≡ true
  pub is_list-put_at : (i : ℕ) (x v : json.Value) → is_list (put_at i x v) ≡ true
  pub get_at_null : (i : ℕ) → get_at i json.null ≡ json.null
  pub get_at-put_at :
      (j i : ℕ) (x v : json.Value)
      → is_list v ≡ true
      → get_at j (put_at i x v) ≡ (if i == j then x else get_at j v)

module _ (json : Json) (indexed : Indexed json) where
  open json use {Value, null, get, put, is_map}
  open indexed use {get_at, put_at, is_list}

  -- v[k1][k2]... = x
  unfoldable pub set_path : List Key → Value → Value → Value
  set_path [] x v = x
  set_path (name k ∷ ks) x v = put k (set_path ks x (get k v)) v
  set_path (at i ∷ ks) x v = put_at i (set_path ks x (get_at i v)) v

  unfoldable pub get_path : List Key → Value → Value
  get_path [] v = v
  get_path (name k ∷ ks) v = get_path ks (get k v)
  get_path (at i ∷ ks) v = get_path ks (get_at i v)

  -- A run of assignments.
  unfoldable pub write_all : List (List Key × Value) → Value → Value
  unfolding set_path
  write_all [] v = v
  write_all (a ∷ more) v = write_all more (set_path a.0 a.1 v)

  -- The path may be walked: no value on its way has another type.
  unfoldable pub fits : List Key → Value → Bool
  fits [] v = true
  fits (name k ∷ ks) v = is_map v && fits ks (get k v)
  fits (at i ∷ ks) v = is_list v && fits ks (get_at i v)

  pub fits-null : (ks : List Key) → fits ks null ≡ true
  unfolding fits
  fits-null [] = refl
  fits-null (name k ∷ ks) =
      rw (json.is_map_null, json.get_absent k null (json.member_null k)) (fits-null ks)
  fits-null (at i ∷ ks) = rw (indexed.is_list_null, indexed.get_at_null i) (fits-null ks)

  pub get_path-set_path :
      (ks : List Key) (x v : Value) → fits ks v ≡ true → get_path ks (set_path ks x v) ≡ x
  unfolding get_path set_path fits
  get_path-set_path [] x v h = refl
  get_path-set_path (name k ∷ ks) x v h =
      rw (json.get-put k k (set_path ks x (get k v)) v (ground arith), str_eq_refl k)
        (get_path-set_path ks x (get k v) (ground arith))
  get_path-set_path (at i ∷ ks) x v h =
      rw
        (
          indexed.get_at-put_at i i (set_path ks x (get_at i v)) v (ground arith),
          (==_iff i i).1 refl,
        )
        (get_path-set_path ks x (get_at i v) (ground arith))

-- The paths part at some step.
unfoldable pub differs : List Key → List Key → Bool
differs (name k ∷ ks) (name j ∷ js) = let rest = differs ks js in if str_eq j k then rest else true
differs (at k ∷ ks) (at j ∷ js) = let rest = differs ks js in if j == k then rest else true
differs _ _ = false

-- An assignment to the second path leaves the first one walkable.
unfoldable pub is_open : List Key → List Key → Bool
is_open [] js = true
is_open (name k ∷ ks) (name j ∷ js) = let rest = is_open ks js in if str_eq j k then rest else true
is_open (at k ∷ ks) (at j ∷ js) = let rest = is_open ks js in if j == k then rest else true
is_open _ _ = false

-- Each assignment of a run leaves the paths of the later ones walkable.
unfoldable pub are_open : {A : Type 0} → List (List Key × A) → Bool
unfolding is_open
are_open [] = true
are_open (a ∷ more) = all (λ b. is_open b.0 a.0) more && are_open more

module _ (json : Json) (indexed : Indexed json) where
  open json use {Value, null, get, put, is_map}
  open indexed use {get_at, put_at, is_list}

  get_path-differs :
      (ks js : List Key) (x v : Value)
      → fits json indexed js v ≡ true
      → differs ks js ≡ true
      → get_path json indexed ks (set_path json indexed js x v) ≡ get_path json indexed ks v
  unfolding get_path set_path fits differs
  get_path-differs [] js x v h d = cc
  get_path-differs (name k ∷ ks) [] x v h d = cc
  get_path-differs (at k ∷ ks) [] x v h d = cc
  get_path-differs (name k ∷ ks) (name j ∷ js) x v h d =
      let m : is_map v ≡ true = ground arith in
      let got = json.get-put k j (set_path json indexed js x (get j v)) v m in
      elim (Bool-cases (str_eq j k)) [
        | inr other ↦ rw (got, other) refl
        | inl same ↦
            let e : j ≡ k = (str_eq_iff j k).0 same in
            rw (got, same, e)
              (get_path-differs ks js x (get k v)
                (ground (arith, ap (λ (t : Str). fits json indexed js (get t v)) e)) (ground arith))
      ]
  get_path-differs (at k ∷ ks) (at j ∷ js) x v h d =
      let m : is_list v ≡ true = ground arith in
      let got = indexed.get_at-put_at k j (set_path json indexed js x (get_at j v)) v m in
      elim (Bool-cases (j == k)) [
        | inr other ↦ rw (got, other) refl
        | inl same ↦
            let e : j ≡ k = (==_iff j k).0 same in
            rw (got, same, e)
              (get_path-differs ks js x (get_at k v)
                (ground (arith, ap (λ (t : ℕ). fits json indexed js (get_at t v)) e))
                (ground arith))
      ]
  get_path-differs (name k ∷ ks) (at j ∷ js) x v h d = cc
  get_path-differs (at k ∷ ks) (name j ∷ js) x v h d = cc

  fits-set_path :
      (ks js : List Key) (x v : Value)
      → fits json indexed ks v ≡ true
      → fits json indexed js v ≡ true
      → is_open ks js ≡ true
      → fits json indexed ks (set_path json indexed js x v) ≡ true
  unfolding set_path fits is_open
  fits-set_path [] js x v h g o = refl
  fits-set_path (name k ∷ ks) [] x v h g o = cc
  fits-set_path (at k ∷ ks) [] x v h g o = cc
  fits-set_path (name k ∷ ks) (at j ∷ js) x v h g o = cc
  fits-set_path (at k ∷ ks) (name j ∷ js) x v h g o = cc
  fits-set_path (name k ∷ ks) (name j ∷ js) x v h g o =
      let m : is_map v ≡ true = ground arith in
      let new = set_path json indexed js x (get j v) in
      let got = json.get-put k j new v m in
      let map_new = json.is_map-put j new v in
      elim (Bool-cases (str_eq j k)) [
        | inr other ↦ rw (map_new, got, other) (ground arith)
        | inl same ↦
            let e : j ≡ k = (str_eq_iff j k).0 same in
            rw (map_new, got, same, e)
              (fits-set_path ks js x (get k v) (ground arith)
                (ground (arith, ap (λ (t : Str). fits json indexed js (get t v)) e)) (ground arith))
      ]
  fits-set_path (at k ∷ ks) (at j ∷ js) x v h g o =
      let m : is_list v ≡ true = ground arith in
      let new = set_path json indexed js x (get_at j v) in
      let got = indexed.get_at-put_at k j new v m in
      let list_new = indexed.is_list-put_at j new v in
      elim (Bool-cases (j == k)) [
        | inr other ↦ rw (list_new, got, other) (ground arith)
        | inl same ↦
            let e : j ≡ k = (==_iff j k).0 same in
            rw (list_new, got, same, e)
              (fits-set_path ks js x (get_at k v) (ground arith)
                (ground (arith, ap (λ (t : ℕ). fits json indexed js (get_at t v)) e))
                (ground arith))
      ]

  -- Every assignment of a run may be walked.
  abbrev pub Ready : List (List Key × Value) → Value → Type 0
  Ready more v = All (λ (a : List Key × Value). fits json indexed a.0 v ≡ true) more

  Ready-set_path :
      (js : List Key) (x v : Value) (more : List (List Key × Value))
      → fits json indexed js v ≡ true
      → all (λ (b : List Key × Value). is_open b.0 js) more ≡ true
      → Ready more v
      → Ready more (set_path json indexed js x v)
  Ready-set_path js x v [] h o r = tt
  Ready-set_path js x v (b ∷ more) h o r = (
    fits-set_path b.0 js x v r.0 h (ground arith),
    Ready-set_path js x v more h (ground arith) r.1,
  )

  -- A path that parts from all the assignments of a run keeps its value.
  pub get_path-write_all :
      (ks : List Key) (more : List (List Key × Value)) (v : Value)
      → Ready more v
      → are_open more ≡ true
      → all (λ (a : List Key × Value). differs ks a.0) more ≡ true
      → get_path json indexed ks (write_all json indexed more v) ≡ get_path json indexed ks v
  unfolding write_all are_open
  get_path-write_all ks [] v r o d = refl
  get_path-write_all ks (a ∷ more) v r o d =
      get_path-write_all ks more (set_path json indexed a.0 a.1 v)
        (Ready-set_path a.0 a.1 v more r.0 (ground arith) r.1) (ground arith) (ground arith)
      ∙ get_path-differs ks a.0 a.1 v r.0 (ground arith)

  pub Ready-null : (more : List (List Key × Value)) → Ready more null
  Ready-null [] = tt
  Ready-null (a ∷ more) = (fits-null json indexed a.0, Ready-null more)

  -- What the last assignment to a path leaves there.
  pub get_path-last :
      (before behind : List (List Key × Value)) (ks : List Key) (x v : Value)
      → Ready (before ++ (ks, x) ∷ behind) v
      → are_open (before ++ (ks, x) ∷ behind) ≡ true
      → all (λ (a : List Key × Value). differs ks a.0) behind ≡ true
      → get_path json indexed ks (write_all json indexed (before ++ (ks, x) ∷ behind) v) ≡ x
  unfolding write_all are_open
  get_path-last [] behind ks x v r o d =
      get_path-write_all ks behind (set_path json indexed ks x v)
        (Ready-set_path ks x v behind r.0 (ground arith) r.1) (ground arith) d
      ∙ get_path-set_path json indexed ks x v r.0
  get_path-last (a ∷ before) behind ks x v r o d =
      get_path-last before behind ks x (set_path json indexed a.0 a.1 v)
        (Ready-set_path a.0 a.1 v (before ++ (ks, x) ∷ behind) r.0 (ground arith) r.1)
        (ground arith) d
