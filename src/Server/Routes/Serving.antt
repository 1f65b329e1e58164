-- ===== src/Server/Routes/Serving.antt =====
-- The tables of src/server.cpp behind a run of setRegex and setDefault.
use watched_agent.Json.{Json}
use watched_agent.Base.{
  Bool, true, false, ◌&&◌, List, [], ◌∷◌, Option, none, some, if◌then◌else◌, Str, str_eq, insert,
}
use watched_agent.Server.Routes.{Query, HttpServer, Tables, wrap, table_of, Call, regex, default}

-- What a registration is for, and its function.
abbrev pub same_place : Option Str → Option Str → Bool
same_place none none = true
same_place (some a) (some b) = str_eq a b
same_place _ _ = false

abbrev is_for : Call → Option Str → Str → Bool
is_for (regex opt pattern f) place o = same_place (some pattern) place && str_eq opt o
is_for (default opt f) place o = same_place none place && str_eq opt o

abbrev function_of : Call → List Str → Query → Str
function_of (regex opt pattern f) = f
function_of (default opt f) = f

-- The function of the last registration for a place and a method.
abbrev pub last_of : List Call → Option Str → Str → Option (List Str → Query → Str)
last_of [] place o = none
last_of (c ∷ calls) place o = elim (last_of calls place o) [
  | some f ↦ some f
  | none ↦ if is_for c place o then some (function_of c) else none
]

-- A registration on the tables of the server that is started.
abbrev registered : Call → Tables → Tables
registered (regex opt pattern f) t = record t {
  resource =
      insert str_eq pattern (insert str_eq opt (wrap f) (table_of pattern t.resource)) t.resource;
}
registered (default opt f) t = record t {
  default_resource = insert str_eq opt (wrap f) t.default_resource;
}

-- A server that the constructor can make, with TLS or without, with these tables.
serving : Bool → Tables → HttpServer
serving true t = record { use_ssl = true; https = some t; http = none }
serving false t = record { use_ssl = false; https = none; http = some t }

run_tables : List Call → Tables → Tables
run_tables [] t = t
run_tables (c ∷ calls) t = run_tables calls (registered c t)
