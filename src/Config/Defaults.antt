-- ===== src/Config/Defaults.antt =====
-- The configuration is complete once it is loaded, and keeps what the file sets.
use watched_agent.Base.{
  Bool, true, false, ◌&&◌, ◌||◌, List, [], ◌∷◌, ◌≡◌, refl, arith, if◌then◌else◌, Option, none, some,
  Str, str_eq, str_eq_iff, first, codes, Bool-cases, inl, inr, ◌∙◌, ap, subst,
}
use watched_agent.Json.{Json}
use watched_agent.Config.{
  Macros, Default, defaults, put_in, has_in, with_threads, with_defaults, load,
}

-- The sections that have defaults.
abbrev is_section : Str → Bool
is_section s =
    str_eq s (codes "server") || (str_eq s (codes "services") || str_eq s (codes "plugins"))

module _ (json : Json) where
  open json use {
    Value, null, object, is_member, get, put, is_map, of_ℕ, is_map_null, is_map-put, get_absent,
    member_null, get-put, member-put,
  }

  -- The document is an object or nothing, and so is each section.
  abbrev pub IsConfig : Value → Type 0
  IsConfig data' =
      (is_map data' ≡ true) × ((s : Str) → is_section s ≡ true → is_map (get s data') ≡ true)

  abbrev get_in : Str → Str → Value → Value
  get_in s k data' = get k (get s data')

  is_here : Str → Str → Default json → Bool
  is_here s k d = str_eq d.section s && str_eq d.key k

  get-put_same :
      (s s' key : Str) (x data' : Value)
      → is_map data' ≡ true
      → str_eq s s' ≡ true
      → get s' (put_in json s key x data') ≡ put key x (get s' data')
  unfolding put_in
  get-put_same s s' key x data' h e =
      get-put s' s (put key x (get s data')) data' h
      ∙ (rw e (ap (λ z. put key x (get z data')) ((str_eq_iff s s').0 e)))

  get-put_other :
      (s s' key : Str) (x data' : Value)
      → is_map data' ≡ true
      → str_eq s s' ≡ false
      → get s' (put_in json s key x data') ≡ get s' data'
  unfolding put_in
  get-put_other s s' key x data' h e = get-put s' s (put key x (get s data')) data' h ∙ (rw e refl)

  put_in-IsConfig :
      (s key : Str) (x data' : Value) → IsConfig data' → IsConfig (put_in json s key x data')
  unfolding put_in
  put_in-IsConfig s key x data' h = (
    is_map-put s (put key x (get s data')) data',
    λ s' sec'. elim (Bool-cases (str_eq s s')) [
      | inl e ↦ rw (get-put_same s s' key x data' h.0 e) (is_map-put key x (get s' data'))
      | inr e ↦ rw (get-put_other s s' key x data' h.0 e) (h.1 s' sec')
    ],
  )

  get-put_in :
      (s' k s key : Str) (x data' : Value)
      → IsConfig data'
      → is_section s' ≡ true
      → get_in s' k (put_in json s key x data')
        ≡ (if str_eq s s' && str_eq key k then x else get_in s' k data')
  get-put_in s' k s key x data' h sec = elim (Bool-cases (str_eq s s')) [
    | inl e ↦ ground (
      arith,
      ap (get k) (get-put_same s s' key x data' h.0 e),
      get-put k key x (get s' data') (h.1 s' sec),
    )
    | inr e ↦ ground (arith, ap (get k) (get-put_other s s' key x data' h.0 e))
  ]

  has_in-absent :
      (s k : Str) (data' : Value) → is_member s data' ≡ false → is_member k (get s data') ≡ false
  has_in-absent s k data' e = rw (get_absent s data' e) (member_null k)

  is_member-put_in :
      (s' s key : Str) (x data' : Value)
      → is_map data' ≡ true
      → is_member s' (put_in json s key x data') ≡ (str_eq s s' || is_member s' data')
  unfolding put_in
  is_member-put_in s' s key x data' h = member-put s' s (put key x (get s data')) data' h

  has_in-put_in :
      (s' k s key : Str) (x data' : Value)
      → IsConfig data'
      → is_section s' ≡ true
      → has_in json s' k (put_in json s key x data')
        ≡ ((str_eq s s' && str_eq key k) || has_in json s' k data')
  unfolding has_in
  has_in-put_in s' k s key x data' h sec = elim (Bool-cases (str_eq s s')) [
    | inl e ↦ ground (
      arith,
      ap (is_member k) (get-put_same s s' key x data' h.0 e),
      is_member-put_in s' s key x data' h.0,
      member-put k key x (get s' data') (h.1 s' sec),
      has_in-absent s' k data',
    )
    | inr e ↦ ground (
      arith,
      ap (is_member k) (get-put_other s s' key x data' h.0 e),
      is_member-put_in s' s key x data' h.0,
    )
  ]

  -- The default of a member.
  abbrev default_of : Str → Str → List (Default json) → Option (Default json)
  default_of s k ds = first (λ d. str_eq d.section s && str_eq d.key k) ds

  -- What a member holds once some defaults are there.
  abbrev filled : Str → Str → List (Default json) → Value → Value
  filled s k ds data' =
      if has_in json s k data'
      then get_in s k data'
      else elim (default_of s k ds) [ none ↦ get_in s k data' | some d ↦ d.value ]

  with_defaults-IsConfig :
      (ds : List (Default json)) (data' : Value)
      → IsConfig data'
      → IsConfig (with_defaults json ds data')
  unfolding with_defaults
  with_defaults-IsConfig [] data' h = h
  with_defaults-IsConfig (d ∷ ds) data' h = elim (Bool-cases (has_in json d.section d.key data')) [
    | inl e ↦ rw (e, with_defaults) (with_defaults-IsConfig ds data' h)
    | inr e ↦
        rw (e, with_defaults)
          (with_defaults-IsConfig ds (put_in json d.section d.key d.value data')
            (put_in-IsConfig d.section d.key d.value data' h))
  ]

  same_member :
      (d : Default json) (s k : Str) (data' : Value)
      → (str_eq d.section s && str_eq d.key k) ≡ true
      → has_in json d.section d.key data' ≡ has_in json s k data'
  same_member d s k data' e =
      subst (λ z. has_in json d.section d.key data' ≡ has_in json z k data')
        ((str_eq_iff d.section s).0 (ground arith))
        (ap (λ z. has_in json d.section z data') ((str_eq_iff d.key k).0 (ground arith)))

  with_defaults-fills :
      (ds : List (Default json)) (s k : Str) (data' : Value)
      → IsConfig data'
      → is_section s ≡ true
      → get_in s k (with_defaults json ds data') ≡ filled s k ds data'
  unfolding with_defaults
  with_defaults-fills [] s k data' h sec = ground arith
  with_defaults-fills (d ∷ ds) s k data' h sec =
      elim (Bool-cases (has_in json d.section d.key data')) [
        | inl e ↦ ground (arith, with_defaults-fills ds s k data' h sec, same_member d s k data')
        | inr e ↦ ground (
          arith,
          with_defaults-fills ds s k (put_in json d.section d.key d.value data')
              (put_in-IsConfig d.section d.key d.value data' h) sec,
          get-put_in s k d.section d.key d.value data' h sec,
          has_in-put_in s k d.section d.key d.value data' h sec,
          same_member d s k data',
        )
      ]

  with_threads-IsConfig : (data' : Value) → IsConfig data' → IsConfig (with_threads json data')
  unfolding with_threads
  with_threads-IsConfig data' h =
      elim (Bool-cases (has_in json (codes "server") (codes "thread") data')) [
        | inl e ↦ rw (e, with_threads) h
        | inr e ↦
            rw (e, with_threads)
              (put_in-IsConfig (codes "server") (codes "threads") (of_ℕ 8) data' h)
      ]

  -- Loading a configuration, whose sections are objects where they are there at all, keeps what the
  -- file sets for each member of these sections, and gives every other member its default, where it
  -- has one; a number of threads is left out.
  pub load-fills :
      (m : Macros) (data' : Value) (s k : Str)
      → IsConfig data'
      → is_section s ≡ true
      → (str_eq (codes "server") s && str_eq (codes "threads") k) ≡ false
      → get_in s k (load json m data') ≡ filled s k (defaults json m) data'
  unfolding load with_threads str_eq
  load-fills m data' s k h sec other = ground (
    arith,
    with_defaults-fills (defaults json m) s k (with_threads json data')
        (with_threads-IsConfig data' h) sec,
    get-put_in s k (codes "server") (codes "threads") (of_ℕ 8) data' h sec,
    has_in-put_in s k (codes "server") (codes "threads") (of_ℕ 8) data' h sec,
  )

  -- Unless a configuration, whose sections are objects where they are there at all, has a member
  -- "thread" of its server, its number of threads is 8 once it is loaded, whatever the file gives
  -- for "threads".
  pub load-threads :
      (m : Macros) (data' : Value)
      → IsConfig data'
      → has_in json (codes "server") (codes "thread") data' ≡ false
      → get_in (codes "server") (codes "threads") (load json m data') ≡ of_ℕ 8
  unfolding load with_threads str_eq
  load-threads m data' h absent' = ground (
    arith,
    with_defaults-fills (defaults json m) (codes "server") (codes "threads")
        (with_threads json data') (with_threads-IsConfig data' h) refl,
    get-put_in (codes "server") (codes "threads") (codes "server") (codes "threads") (of_ℕ 8) data'
        h refl,
    has_in-put_in (codes "server") (codes "threads") (codes "server") (codes "threads") (of_ℕ 8)
        data' h refl,
  )
