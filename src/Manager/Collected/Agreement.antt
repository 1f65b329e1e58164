-- ===== src/Manager/Collected/Agreement.antt =====
-- The pages on one service and the document of everything show the same.
use watched_agent.Base.{
  All, false, List, [], ◌∷◌, ◌++◌, none, some, Str, str_eq, codes, first, lookup, DistinctKeys, map,
  first-map, ◌≡◌, refl, arith, Option-cases, inl, inr, ◌>>=◌,
}
use watched_agent.Json.{Json}
use watched_agent.Process.{Os}
use watched_agent.Service.{Service, is_id}
use watched_agent.Service.Views.{Replies}
use watched_agent.Resource.History.{joined}
use watched_agent.Collector.{Collector, HistoryReply, get_json_history}
use watched_agent.Collector.Histories.{do_get_history-agrees}
use watched_agent.Manager.{Reply, get_service_status}
use watched_agent.Manager.Logs.{LoggedService, LogsReply, get_service_log}
use watched_agent.Manager.Collected.{
  Watched, id_of, collector_histories, Everything, get_all, failure, history, no_service,
  no_collector, get_collector_history,
}
use watched_agent.Manager.Collected.Visits.{KeepsId, get_all-Shown}

module _ (json : Json) where
  open json use {Value, Double}

  lookup-collector_histories :
      (since : Double) (cid : Str) (es : List (Str × Collector json))
      → lookup str_eq cid (collector_histories json since es) ≡ elim (lookup str_eq cid es) [
        | none ↦ none
        | some c ↦ some (get_json_history json since c)
      ]
  unfolding collector_histories
  lookup-collector_histories since cid [] = refl
  lookup-collector_histories since cid (e ∷ es) =
      ground (arith, lookup-collector_histories since cid es)

  -- When no handler changes the ID of a service, no two services have one ID, and the document of
  -- everything is made, the reply on the history of a metric is what this document has for the service,
  -- collector and metric, in brackets, with a comma and a line end between two values, and the error for
  -- the first of the three that the document does not have.
  pub get_collector_history-agrees :
      (replies : Replies) (os : Os) (now since : Double) (ws : List (Watched json))
      (system : List (Str × Collector json)) (id cid name : Str) (doc : Everything json)
      → All (λ w. KeepsId replies w.service) ws
      → DistinctKeys (id_of json) ws
      → (get_all json replies os now ws system since).0 ≡ some doc
      → get_collector_history json ws id cid name since ≡ elim (lookup str_eq id doc.services) [
        | none ↦ failure (no_service json id)
        | some part ↦ elim (lookup str_eq cid part.collectors) [
          | none ↦ failure (no_collector json id cid)
          | some histories ↦ history (elim (lookup str_eq name histories) [
            | none ↦ HistoryReply.not_found (codes "No such Metric")
            | some vs ↦ HistoryReply.sent (codes "[\n" ++ (joined json vs ++ codes "\n]\n"))
          ])
        ]
      ]
  unfolding get_collector_history
  get_collector_history-agrees replies os now since ws system id cid name doc keep d made =
      elim (get_all-Shown json replies os now since ws system id doc keep d made) [
        | inl (e, all) ↦ rw (get_collector_history, all, e) refl
        | inr (w, status, s', e, read, all) ↦
            let hs = lookup-collector_histories since cid w.collectors in
            elim (Option-cases (lookup str_eq cid w.collectors)) [
              | inl h ↦ rw (get_collector_history, all, e, hs, h) refl
              | inr (c, h) ↦
                  rw (get_collector_history, all, e, hs, h, do_get_history-agrees json name since c)
                    refl
            ]
      ]

  -- The log parsers' part of a service goes under the ID of the service.
  abbrev pub OneId : List (Watched json) → Type 0
  OneId [] = Unit
  OneId (w ∷ ws) = (w.logs.id ≡ id_of json w) × OneId ws

  first-logs :
      (id : Str) (ws : List (Watched json))
      → OneId ws
      → first (λ w. str_eq id w.logs.id) ws ≡ first (λ w. is_id w.service id) ws
  unfolding is_id
  first-logs id [] h = refl
  first-logs id (w ∷ ws) h = rw (h.0, first-logs id ws h.1) refl

  -- When no handler changes the ID of a service, no two services have one ID, the logs of each are
  -- known by its ID, and the document of everything is made, the replies on the status and on the log
  -- of an ID other than all are the parts of its entry in the document, and the error when the document
  -- has no entry of it.
  pub get_all-agrees :
      (replies : Replies) (os : Os) (now since : Double) (ws : List (Watched json))
      (system : List (Str × Collector json)) (id : Str) (doc : Everything json)
      → All (λ w. KeepsId replies w.service) ws
      → DistinctKeys (id_of json) ws
      → OneId ws
      → str_eq id (codes "all") ≡ false
      → (get_all json replies os now ws system since).0 ≡ some doc
      → ((get_service_status replies os (map (λ w. w.service) ws) id).0
          ≡ elim (lookup str_eq id doc.services) [
            | none ↦ some (Reply.failure (no_service json id))
            | some part ↦ part.status >>= λ status. some (Reply.one status)
          ])
        × (some (get_service_log json since (map (λ w. w.logs) ws) id)
            ≡ elim (lookup str_eq id doc.services) [
              | none ↦ some (LogsReply.log_failure (no_service json id))
              | some part ↦ part.logs >>= λ logs. some (LogsReply.one_log logs)
            ])
  unfolding get_service_status get_service_log no_service
  get_all-agrees replies os now since ws system id doc keep d one other made =
      let found = first-map (λ (s : Service). is_id s id) (λ (w : Watched json). w.service) ws in
      let logged =
        first-map (λ (l : LoggedService json). str_eq id l.id) (λ (w : Watched json). w.logs) ws in
      let same = first-logs id ws one in
      elim (get_all-Shown json replies os now since ws system id doc keep d made) [
        | inl (e, all) ↦ (
          rw (get_service_status, other, found, all, e) refl,
          rw (get_service_log, other, logged, same, all, e) refl,
        )
        | inr (w, status, s', e, read, all) ↦ (
          rw (get_service_status, other, found, all, e, read) refl,
          rw (get_service_log, other, logged, same, all, e) refl,
        )
      ]
