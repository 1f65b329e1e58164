-- ===== src/Swagger/Defined.antt =====
-- Every type that a route of a collector refers to is defined as an object.
use watched_agent.Base.{
  Bool, true, false, not, List, [], ◌∷◌, ◌++◌, if◌then◌else◌, Str, str_eq, str_eq_iff, str_eq_refl,
  codes, All, all, DistinctKeys, ◌≡◌, refl, ◌∙◌, subst, arith, Bool-cases, inl, inr,
}
use watched_agent.Json.{Json}
use watched_agent.Json.Paths.{Key, name, at, Indexed, set_path, write_all}
use watched_agent.Swagger.{
  Description, Described, get_definition, definition_head, definition_properties, add_definition,
  add_definitions, get_definitions, is_enabled, has_service, get_paths,
}
use watched_agent.Swagger.Refers.{path_of, reference, Absent, add_routes-refers}

-- An assignment to a member other than `k`.
unfoldable pub is_elsewhere : Str → List Key → Bool
is_elsewhere k (name j ∷ js) = not (str_eq j k)
is_elsewhere k _ = false

abbrev tail : {A : Type 0} → List A → List A
tail [] = []
tail (x ∷ xs) = xs

module _ (json : Json) (indexed : Indexed json) where
  open json use {Value, null, object, is_member, get, put, is_map, of_str}

  write_all-elsewhere :
      (k : Str) (more : List (List Key × Value)) (v : Value)
      → is_map v ≡ true
      → all (λ (a : List Key × Value). is_elsewhere k a.0) more ≡ true
      → (is_map (write_all json indexed more v) ≡ true)
        × (get k (write_all json indexed more v) ≡ get k v)
  unfolding write_all is_elsewhere
  write_all-elsewhere k [] v m h = (m, refl)
  write_all-elsewhere k ((name j ∷ js, x) ∷ more) v m h =
      let new = set_path json indexed js x (get j v) in
      let (m', g') =
        write_all-elsewhere k more (put j new v) (json.is_map-put j new v) (ground arith) in
      let other : str_eq j k ≡ false = ground arith in
      (unfold set_path in m', unfold set_path in (g' ∙ (rw (json.get-put k j new v m, other) refl)))
  write_all-elsewhere k ((at i ∷ js, x) ∷ more) v m h = cc
  write_all-elsewhere k (([], x) ∷ more) v m h = cc

  properties-elsewhere :
      (types ds : List (Str × Str))
      → all
          (λ (a : List Key × Value). is_elsewhere (codes "type") a.0)
          (definition_properties json indexed types ds)
        ≡ true
  unfolding definition_properties is_elsewhere str_eq
  properties-elsewhere types [] = refl
  properties-elsewhere types (e ∷ es) = properties-elsewhere types es

  get_definition-type :
      (d : Description) (v : Value)
      → is_map v ≡ true
      → (is_map (get_definition json indexed d v) ≡ true)
        × (get (codes "type") (get_definition json indexed d v) ≡ of_str (codes "object"))
  unfolding get_definition definition_head write_all set_path is_elsewhere str_eq
  get_definition-type d v m =
      let v' = put (codes "type") (of_str (codes "object")) v in
      let m' = json.is_map-put (codes "type") (of_str (codes "object")) v in
      let rest =
        tail (definition_head json indexed) ++ definition_properties json indexed d.types d.texts in
      let (kept, same) =
        write_all-elsewhere (codes "type") rest v' m' (properties-elsewhere d.types d.texts) in
      (
        kept,
        same ∙ (rw (json.get-put (codes "type") (codes "type") (of_str (codes "object")) v m) refl),
      )

  -- The definitions are a map of maps.
  abbrev pub Maps : Value → Type 0
  Maps defs = (is_map defs ≡ true) × ((k : Str) → is_map (get k defs) ≡ true)

  -- What a definition of an object has.
  abbrev pub IsObject : Value → Str → Type 0
  IsObject defs k = get (codes "type") (get k defs) ≡ of_str (codes "object")

  Maps-put : (k : Str) (x defs : Value) → Maps defs → is_map x ≡ true → Maps (put k x defs)
  Maps-put k x defs (m, each) h = (
    json.is_map-put k x defs,
    λ j. elim (Bool-cases (str_eq k j)) [
      | inl e ↦ rw (json.get-put j k x defs m, e) h
      | inr e ↦ rw (json.get-put j k x defs m, e) (each j)
    ],
  )

  -- What getDefinitions finds or makes for a type.
  abbrev with_entry : Bool → Str → Value → Value
  with_entry have_service type defs =
      if is_member type defs
      then defs
      else put type
          (if have_service then put (codes "x-isService") (json.of_bool true) object else object)
          defs

  with_entry-Maps :
      (have_service : Bool) (type : Str) (defs : Value)
      → Maps defs
      → Maps (with_entry have_service type defs)
        × ((k : Str)
            → str_eq type k ≡ false
            → get k (with_entry have_service type defs) ≡ get k defs)
  with_entry-Maps have_service type defs maps =
      let fresh : Value =
        if have_service then put (codes "x-isService") (json.of_bool true) object else object in
      let is_fresh : is_map fresh ≡ true = elim (Bool-cases have_service) [
        | inl e ↦ rw e (json.is_map-put (codes "x-isService") (json.of_bool true) object)
        | inr e ↦ rw e json.is_map_object
      ] in
      elim (Bool-cases (is_member type defs)) [
        | inl e ↦ rw e (maps, λ k h. refl)
        | inr e ↦ rw e (
          Maps-put type fresh defs maps is_fresh,
          λ k h. rw (json.get-put k type fresh defs maps.0, h) refl,
        )
      ]

  add_definition-keeps :
      (have_service : Bool) (d : Description) (defs : Value)
      → Maps defs
      → Maps (add_definition json indexed have_service d defs)
        × (IsObject (add_definition json indexed have_service d defs) d.type_name)
        × ((k : Str)
            → IsObject defs k
            → IsObject (add_definition json indexed have_service d defs) k)
  unfolding add_definition
  add_definition-keeps have_service d defs maps =
      let (maps', other) = with_entry-Maps have_service d.type_name defs maps in
      let defs' = with_entry have_service d.type_name defs in
      let x = get_definition json indexed d (get d.type_name defs') in
      let (is_def, typed) = get_definition-type d (get d.type_name defs') (maps'.1 d.type_name) in
      let got = λ (k : Str). json.get-put k d.type_name x defs' maps'.0 in
      let mine : IsObject (put d.type_name x defs') d.type_name =
        rw (got d.type_name, str_eq_refl d.type_name) typed in
      (
        Maps-put d.type_name x defs' maps' is_def,
        mine,
        λ k h. elim (Bool-cases (str_eq d.type_name k)) [
          | inl e ↦ subst (IsObject (put d.type_name x defs')) ((str_eq_iff d.type_name k).0 e) mine
          | inr e ↦ rw (got k, e, other k e) h
        ],
      )

  add_definitions-keeps :
      (have_service : Bool) (es : List (Str × Description)) (defs : Value)
      → Maps defs
      → (k : Str) → IsObject defs k
      → IsObject (add_definitions json indexed have_service es defs) k
  unfolding add_definitions
  add_definitions-keeps have_service [] defs maps k h = h
  add_definitions-keeps have_service (e ∷ es) defs maps k h =
      let (maps', _, kept) = add_definition-keeps have_service e.1 defs maps in
      add_definitions-keeps have_service es (add_definition json indexed have_service e.1 defs)
        maps' k (kept k h)

  add_definitions-defines :
      (have_service : Bool) (es : List (Str × Description)) (defs : Value)
      → Maps defs
      → All
          (λ (e : Str × Description).
            IsObject (add_definitions json indexed have_service es defs) e.1.type_name)
          es
  unfolding add_definitions
  add_definitions-defines have_service [] defs maps = tt
  add_definitions-defines have_service (e ∷ es) defs maps =
      let (maps', mine, _) = add_definition-keeps have_service e.1 defs maps in
      let defs' = add_definition json indexed have_service e.1 defs in
      (
        add_definitions-keeps have_service es defs' maps' e.1.type_name mine,
        add_definitions-defines have_service es defs' maps',
      )

  -- In the document of an enabled collector, each metric has a route, whose reference is to a type that
  -- the definitions describe as an object: when the paths and the definitions before are objects, those
  -- of the definitions too, no two metrics have one path, and the paths are new.
  pub get_paths-get_definitions :
      (c : Described json indexed) (paths defs : Value)
      → is_enabled json indexed c ≡ true
      → is_map paths ≡ true
      → Maps defs
      → DistinctKeys (path_of json indexed c) c.resources
      → Absent json indexed c paths c.resources
      → All
          (λ (e : Str × Description).
            reference json indexed c (get_paths json indexed c paths) e
            ≡ of_str (codes "#/definitions/" ++ e.1.type_name))
          c.resources
        × All
            (λ (e : Str × Description).
              IsObject (get_definitions json indexed c defs) e.1.type_name)
            c.resources
  unfolding get_paths get_definitions
  get_paths-get_definitions c paths defs on m maps d a = rw on (
    add_routes-refers json indexed c c.resources paths m d a,
    add_definitions-defines (has_service json indexed c) c.resources defs maps,
  )
