-- ===== src/Swagger/Refers.antt =====
-- Every route of a collector refers to a definition that is there.
use watched_agent.Base.{
  true, false, List, [], ◌∷◌, ◌++◌, Option, none, some, Str, str_eq, str_eq_refl, str_eq_comm,
  codes, All, any, DistinctKeys, ◌≡◌, refl, ◌∙◌, ap, arith,
}
use watched_agent.Json.{Json}
use watched_agent.Json.Paths.{
  Indexed, get_path, write_all, differs, are_open, Ready-null, get_path-last,
}
use watched_agent.Swagger.{
  Description, Described, text_at, route, route_head, route_service, ref_path, history_path,
  add_route, add_routes,
}

module _ (json : Json) (indexed : Indexed json) where
  open json use {Value, null, object, is_member, get, put, is_map, of_str}

  -- What the assignments to a new route leave in its reference.
  get_path-route :
      (host text type : Str) (service : Option Str)
      → get_path json indexed
          (ref_path json indexed)
          (write_all json indexed (route json indexed host text type service) null)
        ≡ of_str (codes "#/definitions/" ++ type)
  unfolding route route_head route_service are_open differs str_eq
  get_path-route host text type none =
      get_path-last json indexed (route_head json indexed host text) [] (ref_path json indexed)
        (of_str (codes "#/definitions/" ++ type)) null
        (Ready-null json indexed (route json indexed host text type none)) refl refl
  get_path-route host text type (some id) =
      get_path-last json indexed (route_head json indexed host text)
        (route_service json indexed (some id)) (ref_path json indexed)
        (of_str (codes "#/definitions/" ++ type)) null
        (Ready-null json indexed (route json indexed host text type (some id))) refl refl

  module _ (c : Described json indexed) where
    abbrev pub path_of : Str × Description → Str
    path_of e = history_path json indexed c e.0

    -- The reference of a route.
    abbrev pub reference : Value → Str × Description → Value
    reference paths e = get_path json indexed (ref_path json indexed) (get (path_of e) paths)

    add_route-other :
        (k : Str) (e : Str × Description) (v : Value)
        → is_map v ≡ true
        → str_eq k (path_of e) ≡ false
        → (get k (add_route json indexed c e v) ≡ get k v)
          × (is_member k (add_route json indexed c e v) ≡ is_member k v)
    unfolding add_route
    add_route-other k e v m h =
        let x =
          write_all json indexed
            (route json indexed c.host (text_at e.0 c.collector.desc) e.1.type_name
              c.collector.service)
            (get (path_of e) v) in
        let other : str_eq (path_of e) k ≡ false = str_eq_comm (path_of e) k ∙ h in
        (
          rw (json.get-put k (path_of e) x v m, other) refl,
          rw (json.member-put k (path_of e) x v m, other) refl,
        )

    add_routes-other :
        (k : Str) (es : List (Str × Description)) (v : Value)
        → is_map v ≡ true
        → any (λ e. str_eq k (path_of e)) es ≡ false
        → get k (add_routes json indexed c es v) ≡ get k v
    unfolding add_routes add_route
    add_routes-other k [] v m h = refl
    add_routes-other k (e ∷ es) v m h =
        add_routes-other k es (add_route json indexed c e v) (json.is_map-put (path_of e) _ v)
          (ground arith)
        ∙ (add_route-other k e v m (ground arith)).0

    add_route-refers :
        (e : Str × Description) (v : Value)
        → is_map v ≡ true
        → is_member (path_of e) v ≡ false
        → reference (add_route json indexed c e v) e
          ≡ of_str (codes "#/definitions/" ++ e.1.type_name)
    unfolding add_route
    add_route-refers e v m h =
        let ks =
          route json indexed c.host (text_at e.0 c.collector.desc) e.1.type_name
            c.collector.service in
        rw
          (
            json.get-put (path_of e) (path_of e) (write_all json indexed ks (get (path_of e) v)) v
                m,
            str_eq_refl (path_of e),
            json.get_absent (path_of e) v h,
          )
          (get_path-route c.host (text_at e.0 c.collector.desc) e.1.type_name c.collector.service)

    abbrev pub Absent : Value → List (Str × Description) → Type 0
    Absent v es = All (λ (e : Str × Description). is_member (path_of e) v ≡ false) es

    Absent-add_route :
        (e : Str × Description) (es : List (Str × Description)) (v : Value)
        → is_map v ≡ true
        → any (λ t. str_eq (path_of e) (path_of t)) es ≡ false
        → Absent v es
        → Absent (add_route json indexed c e v) es
    Absent-add_route e [] v m d a = tt
    Absent-add_route e (t ∷ es) v m d a =
        let apart : str_eq (path_of t) (path_of e) ≡ false =
          str_eq_comm (path_of t) (path_of e) ∙ ground arith in
        (
          (add_route-other (path_of t) e v m apart).1 ∙ a.0,
          Absent-add_route e es v m (ground arith) a.1,
        )

    pub add_routes-refers :
        (es : List (Str × Description)) (v : Value)
        → is_map v ≡ true
        → DistinctKeys path_of es
        → Absent v es
        → All
            (λ (e : Str × Description).
              reference (add_routes json indexed c es v) e
              ≡ of_str (codes "#/definitions/" ++ e.1.type_name))
            es
    unfolding add_routes
    add_routes-refers [] v m d a = tt
    add_routes-refers (e ∷ es) v m d a =
        let v' = add_route json indexed c e v in
        let m' : is_map v' ≡ true = unfold add_route in json.is_map-put (path_of e) _ v in
        (
          ap (get_path json indexed (ref_path json indexed))
                (add_routes-other (path_of e) es v' m' d.0)
              ∙ add_route-refers e v m a.0,
          add_routes-refers es v' m' d.1 (Absent-add_route e es v m d.0 a.1),
        )
