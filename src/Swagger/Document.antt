-- ===== src/Swagger/Document.antt =====
-- servicesManager::doGetJson of src/servicesManager.cpp: the whole document of the routes.
use watched_agent.Base.{ℕ, false, List, [], ◌∷◌, Str, codes}
use watched_agent.Json.{Json}
use watched_agent.Json.Paths.{Key, name, at, Indexed, write_all}
use watched_agent.Service.{Service}
use watched_agent.Swagger.{Described, text_to, collect_json, services_json}

-- APPS_NAME and APPS_DESC of src/agent.cpp
abbrev apps_name : Str
apps_name = codes "watched.agent"

abbrev apps_desc : Str
apps_desc = codes "Watch over wasted being washed up"

-- ["definitions"][d][key]
abbrev definition : Str → Str → List Key
definition d key = name (codes "definitions") ∷ name d ∷ name key ∷ []

-- ["definitions"][d]["required"][i]
abbrev required : Str → ℕ → List Key
required d i = name (codes "definitions") ∷ name d ∷ name (codes "required") ∷ at i ∷ []

-- ["definitions"][d]["properties"][p][key]
abbrev property : Str → Str → Str → List Key
property d p key =
    name (codes "definitions") ∷ name d ∷ name (codes "properties") ∷ name p ∷ name key ∷ []

-- ["definitions"][d]["properties"][p]["items"]["$ref"]
abbrev item : Str → Str → List Key
item d p =
    name (codes "definitions")
    ∷ name d
    ∷ name (codes "properties")
    ∷ name p
    ∷ name (codes "items")
    ∷ name (codes "$ref")
    ∷ []

-- ["paths"][path]["get"][key]
abbrev route_key : Str → Str → List Key
route_key path key = name (codes "paths") ∷ name path ∷ name (codes "get") ∷ name key ∷ []

-- ["paths"][path]["get"]["responses"]["200"] and the steps behind it
abbrev response : Str → List Key → List Key
response path ks =
    name (codes "paths")
    ∷ name path
    ∷ name (codes "get")
    ∷ name (codes "responses")
    ∷ name (codes "200")
    ∷ ks

module _ (json : Json) (indexed : Indexed json) where
  open json use {Value, object, of_bool}

  abbrev to : List Key → Str → List Key × Value
  to = text_to json indexed

  -- The assignments before the collectors'.
  unfoldable pub information : List (List Key × Value)
  information =
      to (name (codes "swagger") ∷ []) (codes "2.0")
      ∷ to (name (codes "info") ∷ name (codes "version") ∷ []) (codes "1.0.0")
      ∷ to (name (codes "info") ∷ name (codes "title") ∷ []) apps_name
      ∷ to (name (codes "info") ∷ name (codes "description") ∷ []) apps_desc
      ∷ to (name (codes "info") ∷ name (codes "contact") ∷ name (codes "name") ∷ [])
          (codes "Sebastien Huss")
      ∷ to (name (codes "info") ∷ name (codes "contact") ∷ name (codes "email") ∷ [])
          (codes "sebastien.huss@gmail.com")
      ∷ to (name (codes "info") ∷ name (codes "contact") ∷ name (codes "url") ∷ [])
          (codes "https://sebt3.github.io/watched/")
      ∷ to (name (codes "info") ∷ name (codes "license") ∷ name (codes "name") ∷ []) (codes "AGPL")
      ∷ to (name (codes "info") ∷ name (codes "license") ∷ name (codes "url") ∷ [])
          (codes "https://www.gnu.org/licenses/agpl-3.0.html")
      ∷ to (name (codes "externalDocs") ∷ name (codes "description") ∷ []) (codes "Documentation")
      ∷ to (name (codes "externalDocs") ∷ name (codes "url") ∷ [])
          (codes "https://sebt3.github.io/watched/doc/")
      ∷ to (name (codes "host") ∷ []) (codes "localhost")
      ∷ to (name (codes "basePath") ∷ []) (codes "/")
      ∷ to (name (codes "schemes") ∷ at 0 ∷ []) (codes "http")
      ∷ to (name (codes "consumes") ∷ at 0 ∷ []) (codes "application/json")
      ∷ to (name (codes "produces") ∷ at 0 ∷ []) (codes "application/json")
      ∷ to (definition (codes "services") (codes "type")) (codes "object")
      ∷ []

  -- The definitions of a process, a socket and a log entry.
  unfoldable pub part_definitions : List (List Key × Value)
  part_definitions =
      to (definition (codes "serviceProcess") (codes "type")) (codes "object")
      ∷ to (property (codes "serviceProcess") (codes "cwd") (codes "type")) (codes "string")
      ∷ to (property (codes "serviceProcess") (codes "full_path") (codes "type")) (codes "string")
      ∷ to (property (codes "serviceProcess") (codes "name") (codes "type")) (codes "string")
      ∷ to (property (codes "serviceProcess") (codes "pid") (codes "type")) (codes "number")
      ∷ to (property (codes "serviceProcess") (codes "status") (codes "type")) (codes "string")
      ∷ to (property (codes "serviceProcess") (codes "username") (codes "type")) (codes "string")
      ∷ to (required (codes "serviceProcess") 0) (codes "name")
      ∷ to (required (codes "serviceProcess") 1) (codes "status")
      ∷ to (required (codes "serviceProcess") 1) (codes "status")
      ∷ (definition (codes "serviceProcess") (codes "x-isService"), of_bool false)
      ∷ to (property (codes "serviceSocket") (codes "name") (codes "type")) (codes "string")
      ∷ to (property (codes "serviceSocket") (codes "status") (codes "type")) (codes "string")
      ∷ to (required (codes "serviceSocket") 0) (codes "name")
      ∷ to (required (codes "serviceSocket") 1) (codes "status")
      ∷ (definition (codes "serviceSocket") (codes "x-isService"), of_bool false)
      ∷ to (property (codes "serviceLog") (codes "level") (codes "type")) (codes "string")
      ∷ to (property (codes "serviceLog") (codes "date_mark") (codes "type")) (codes "string")
      ∷ to (property (codes "serviceLog") (codes "line_no") (codes "type")) (codes "number")
      ∷ to (property (codes "serviceLog") (codes "source") (codes "type")) (codes "string")
      ∷ to (property (codes "serviceLog") (codes "text") (codes "type")) (codes "string")
      ∷ to (property (codes "serviceLog") (codes "timestamp") (codes "format")) (codes "double")
      ∷ to (property (codes "serviceLog") (codes "timestamp") (codes "type")) (codes "number")
      ∷ to (required (codes "serviceLog") 0) (codes "level")
      ∷ to (required (codes "serviceLog") 1) (codes "date_mark")
      ∷ to (required (codes "serviceLog") 2) (codes "line_no")
      ∷ to (required (codes "serviceLog") 3) (codes "timestamp")
      ∷ (definition (codes "serviceLog") (codes "x-isService"), of_bool false)
      ∷ []

  -- The definition of a service, and the two routes for all services.
  unfoldable pub service_definitions : List (List Key × Value)
  service_definitions =
      to (property (codes "services") (codes "host") (codes "type")) (codes "string")
      ∷ to (property (codes "services") (codes "process") (codes "type")) (codes "array")
      ∷ to (item (codes "services") (codes "process")) (codes "#/definitions/serviceProcess")
      ∷ to (property (codes "services") (codes "sockets") (codes "type")) (codes "array")
      ∷ to (item (codes "services") (codes "sockets")) (codes "#/definitions/serviceSocket")
      ∷ to (required (codes "services") 0) (codes "sockets")
      ∷ to (required (codes "services") 1) (codes "process")
      ∷ to (required (codes "services") 2) (codes "host")
      ∷ (definition (codes "services") (codes "x-isService"), of_bool false)
      ∷ to (response (codes "/service/all/status") (name (codes "description") ∷ []))
          (codes "All services status")
      ∷ to
          (response (codes "/service/all/status")
            (name (codes "schema") ∷ name (codes "type") ∷ []))
          (codes "object")
      ∷ to
          (response (codes "/service/all/status") (
            name (codes "schema") ∷ name (codes "additionalProperties") ∷ name (codes "$ref") ∷ []))
          (codes "#/definitions/services")
      ∷ to (route_key (codes "/service/all/status") (codes "summary")) (codes "All services status")
      ∷ to (response (codes "/service/all/log") (name (codes "description") ∷ []))
          (codes "All services log events")
      ∷ to (response (codes "/service/all/log") (name (codes "schema") ∷ name (codes "type") ∷ []))
          (codes "object")
      ∷ to
          (response (codes "/service/all/log") (
            name (codes "schema") ∷ name (codes "additionalProperties") ∷ name (codes "$ref") ∷ []))
          (codes "#/definitions/serviceLog")
      ∷ to (route_key (codes "/service/all/log") (codes "summary")) (codes "All services status")
      ∷ []

  -- The document, over the collectors of the system and the services with theirs.
  unfoldable pub do_get_json :
      List (Described json indexed) → List (Service × List (Described json indexed)) → Value
  unfolding information part_definitions service_definitions
  do_get_json system services =
      let v = collect_json json indexed system (write_all json indexed information object) in
      services_json json indexed services
        (write_all json indexed service_definitions (write_all json indexed part_definitions v))
