-- ===== src/Swagger.antt =====
-- The document of the program's routes, /api/swagger.json: getDefinition, getDefinitions and getPaths of
-- src/collectors.cpp, service::getJson of src/services.cpp and servicesManager::doGetJson of
-- src/servicesManager.cpp. A run of assignments below one reference is a list.
pub mod Document
pub mod Refers
pub mod Defined
use watched_agent.Base.{
  ℕ, Bool, true, false, List, [], ◌∷◌, ◌++◌, Option, none, some, if◌then◌else◌, Str, str_eq, codes,
  lookup, insert, map,
}
use watched_agent.Json.{Json}
use watched_agent.Collector.{Collector}
use watched_agent.Service.{Service, get_id}
use watched_agent.Json.Paths.{Key, name, at, Indexed, set_path, write_all}

-- The members of a Ressource that describe it: the name of its type, and the descriptions and types of
-- its properties.
pub record Description : Type 0 where
  pub type_name : Str
  pub texts : List (Str × Str)
  pub types : List (Str × Str)

-- Ressource::addProperty
unfoldable pub add_property : Str → Str → Str → Description → Description
add_property property text type d = record d {
  texts = insert str_eq property text d.texts;
  types = insert str_eq property type d.types;
}

-- m[key] on a map of texts, for a key that may be missing.
unfoldable pub text_at : Str → List (Str × Str) → Str
text_at key m = elim (lookup str_eq key m) [ none ↦ [] | some text ↦ text ]

module _ (json : Json) (indexed : Indexed json) where
  open json use {Value, object, is_member, get, put, of_str, of_bool, as_bool}

  -- One assignment of a text.
  abbrev pub text_to : List Key → Str → List Key × Value
  text_to ks text = (ks, of_str text)

  -- The first five assignments of Ressource::getDefinition.
  unfoldable pub definition_head : List (List Key × Value)
  definition_head =
      text_to (name (codes "type") ∷ []) (codes "object")
      ∷ text_to (name (codes "required") ∷ at 0 ∷ []) (codes "timestamp")
      ∷ text_to
          (name (codes "properties") ∷ name (codes "timestamp") ∷ name (codes "description") ∷ [])
          (codes "timestamp")
      ∷ text_to (name (codes "properties") ∷ name (codes "timestamp") ∷ name (codes "type") ∷ [])
          (codes "number")
      ∷ text_to (name (codes "properties") ∷ name (codes "timestamp") ∷ name (codes "format") ∷ [])
          (codes "double")
      ∷ []

  -- The loop over the properties.
  unfoldable pub definition_properties :
      List (Str × Str) → List (Str × Str) → List (List Key × Value)
  definition_properties types [] = []
  definition_properties types (e ∷ es) =
      text_to (name (codes "properties") ∷ name e.0 ∷ name (codes "type") ∷ []) (text_at e.0 types)
      ∷ text_to (name (codes "properties") ∷ name e.0 ∷ name (codes "description") ∷ []) e.1
      ∷ definition_properties types es

  -- Ressource::getDefinition
  unfoldable pub get_definition : Description → Value → Value
  unfolding definition_head definition_properties
  get_definition d v =
      write_all json indexed (definition_head ++ definition_properties d.types d.texts) v

  -- One round of the loop of Collector::getDefinitions.
  unfoldable pub add_definition : Bool → Description → Value → Value
  unfolding get_definition
  add_definition have_service d defs =
      let fresh =
        if have_service then put (codes "x-isService") (of_bool true) object else object in
      let defs' = if is_member d.type_name defs then defs else put d.type_name fresh defs in
      put d.type_name (get_definition d (get d.type_name defs')) defs'

  unfoldable pub add_definitions : Bool → List (Str × Description) → Value → Value
  unfolding add_definition
  add_definitions have_service [] defs = defs
  add_definitions have_service (e ∷ es) defs =
      add_definitions have_service es (add_definition have_service e.1 defs)

  -- What the assignments of Collector::getPaths to one route write: the value of getHost, the
  -- description of the metric, the name of its type, and the ID of the service if there is one.
  unfoldable pub route_head : Str → Str → List (List Key × Value)
  route_head host text =
      let parameter =
        λ (k : Str). name (codes "get") ∷ name (codes "parameters") ∷ at 0 ∷ name k ∷ [] in
      text_to (name (codes "x-host") ∷ []) host
      ∷ text_to (name (codes "get") ∷ name (codes "summary") ∷ []) text
      ∷ text_to (parameter (codes "name")) (codes "len")
      ∷ text_to (parameter (codes "in")) (codes "query")
      ∷ text_to (parameter (codes "type")) (codes "integer")
      ∷ (parameter (codes "required"), of_bool false)
      ∷ text_to (parameter (codes "description")) (codes "Length of the history to fetch")
      ∷ text_to
          (name (codes "get")
            ∷ name (codes "responses")
            ∷ name (codes "200")
            ∷ name (codes "description")
            ∷ [])
          text
      ∷ text_to
          (name (codes "get")
            ∷ name (codes "responses")
            ∷ name (codes "200")
            ∷ name (codes "schema")
            ∷ name (codes "type")
            ∷ [])
          (codes "array")
      ∷ []

  -- ["get"]["responses"]["200"]["schema"]["items"]["$ref"]
  abbrev pub ref_path : List Key
  ref_path =
      name (codes "get")
      ∷ name (codes "responses")
      ∷ name (codes "200")
      ∷ name (codes "schema")
      ∷ name (codes "items")
      ∷ name (codes "$ref")
      ∷ []

  unfoldable pub route_service : Option Str → List (List Key × Value)
  route_service none = []
  route_service (some id) = text_to (name (codes "x-service") ∷ []) id ∷ []

  unfoldable pub route : Str → Str → Str → Option Str → List (List Key × Value)
  unfolding route_head route_service
  route host text type service =
      route_head host text
      ++ text_to ref_path (codes "#/definitions/" ++ type) ∷ route_service service

  -- A collector with its resources' descriptions, by their names, and what getHost gives.
  pub record Described : Type 0 where
    pub collector : Collector json
    pub resources : List (Str × Description)
    pub host : Str

  unfoldable pub is_enabled : Described → Bool
  is_enabled c = as_bool (get (codes "enable") c.collector.cfg)

  unfoldable pub has_service : Described → Bool
  has_service c = elim c.collector.service [ none ↦ false | some id ↦ true ]

  -- Collector::getDefinitions
  unfoldable pub get_definitions : Described → Value → Value
  unfolding is_enabled has_service add_definitions
  get_definitions c defs =
      if is_enabled c then add_definitions (has_service c) c.resources defs else defs

  unfoldable pub history_path : Described → Str → Str
  history_path c metric =
      c.collector.base_path ++ (c.collector.name ++ (codes "/" ++ (metric ++ codes "/history")))

  -- One round of the loop of Collector::getPaths.
  unfoldable pub add_route : Described → Str × Description → Value → Value
  unfolding history_path route
  add_route c e paths =
      let key = history_path c e.0 in
      put key
        (write_all json indexed
          (route c.host (text_at e.0 c.collector.desc) e.1.type_name c.collector.service)
          (get key paths))
        paths

  unfoldable pub add_routes : Described → List (Str × Description) → Value → Value
  unfolding add_route
  add_routes c [] paths = paths
  add_routes c (e ∷ es) paths = add_routes c es (add_route c e paths)

  -- Collector::getPaths
  unfoldable pub get_paths : Described → Value → Value
  unfolding is_enabled add_routes
  get_paths c paths = if is_enabled c then add_routes c c.resources paths else paths

  -- CollectorsManager::getJson, and the loop of service::getJson: the two calls for each collector.
  unfoldable pub collect_json : List Described → Value → Value
  unfolding get_definitions get_paths
  collect_json [] v = v
  collect_json (c ∷ cs) v =
      let v' = put (codes "definitions") (get_definitions c (get (codes "definitions") v)) v in
      collect_json cs (put (codes "paths") (get_paths c (get (codes "paths") v')) v')

  -- The assignments of service::getJson to one of its two paths.
  unfoldable pub service_route : Str → Str → Str → Str → List (List Key × Value)
  service_route path type text summary =
      let under = λ (ks : List Key). name (codes "paths") ∷ name path ∷ name (codes "get") ∷ ks in
      text_to
        (under (
          name (codes "responses")
          ∷ name (codes "200")
          ∷ name (codes "schema")
          ∷ name (codes "$ref")
          ∷ []))
        (codes "#/definitions/" ++ type)
      ∷ text_to
          (under (name (codes "responses") ∷ name (codes "200") ∷ name (codes "description") ∷ []))
          text
      ∷ text_to (under (name (codes "summary") ∷ [])) summary
      ∷ []

  -- service::getJson
  unfoldable pub service_json : Service → List Described → Value → Value
  unfolding service_route collect_json
  service_json s cs v =
      let path = codes "/service/" ++ get_id s in
      collect_json cs (
        write_all json indexed
          (service_route (path ++ codes "/status") (codes "services") (s.name ++ codes " status")
              (s.name ++ codes " service status")
            ++ service_route (path ++ codes "/log") (codes "serviceLog")
                (s.name ++ codes " Log history") (s.name ++ codes " service log history"))
          v)

  unfoldable pub services_json : List (Service × List Described) → Value → Value
  unfolding service_json
  services_json [] v = v
  services_json (e ∷ es) v = services_json es (service_json e.0 e.1 v)
