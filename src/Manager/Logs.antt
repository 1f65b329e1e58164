-- ===== src/Manager/Logs.antt =====
-- The replies on the logs of services: doGetServiceLog of src/servicesManager.cpp and
-- getJsonLogHistory of src/services.cpp.
use mathlib.Core.List.{reverse}
use watched_agent.Base.{
  List, [], ◌∷◌, ◌++◌, none, some, if◌then◌else◌, Str, str_eq, codes, first, insert,
}
use watched_agent.Json.{Json}
use watched_agent.Resource.{is_recent}

module _ (json : Json) where
  open json use {Value, Double, put, of_str}

  -- What these functions read of a service: its ID, its host, and the entries of its log parsers, the
  -- newest first, by the names of the parsers.
  pub record LoggedService : Type 0 where
    pub id : Str
    pub host : Str
    pub parsers : List (Str × List Value)

  -- The document of a service's log.
  pub record LogReply : Type 0 where
    pub entries : List Value
    pub host : Str

  -- A copy of each recent entry with the name of its parser, from the oldest on.
  unfoldable pub add_entries : Double → Str → List Value → List Value → List Value
  add_entries since source [] out = out
  add_entries since source (x ∷ xs) out =
      add_entries since source xs
        (if is_recent json since x then out ++ put (codes "source") (of_str source) x ∷ [] else out)

  unfoldable pub add_parsers : Double → List (Str × List Value) → List Value → List Value
  add_parsers since [] out = out
  add_parsers since (p ∷ ps) out = add_parsers since ps (add_entries since p.0 (reverse p.1) out)

  -- service::getJsonLogHistory
  unfoldable pub get_json_log_history : Double → LoggedService → LogReply
  get_json_log_history since s = record { entries = add_parsers since s.parsers []; host = s.host }

  -- The document that doGetServiceLog sends.
  pub data LogsReply : Type 0 where
    all_logs : List (Str × LogReply) → LogsReply
    one_log : LogReply → LogsReply
    log_failure : Str → LogsReply

  unfoldable pub id_logs :
      Double → List LoggedService → List (Str × LogReply) → List (Str × LogReply)
  id_logs since [] res = res
  id_logs since (s ∷ ss) res =
      id_logs since ss (insert str_eq s.id (get_json_log_history since s) res)

  -- servicesManager::doGetServiceLog
  unfoldable pub get_service_log : Double → List LoggedService → Str → LogsReply
  get_service_log since ss id =
      if str_eq id (codes "all")
      then LogsReply.all_logs (id_logs since ss [])
      else elim (first (λ (s : LoggedService). str_eq id s.id) ss) [
        | some s ↦ LogsReply.one_log (get_json_log_history since s)
        | none ↦ LogsReply.log_failure (codes "No service matching '" ++ (id ++ codes "' found"))
      ]
