-- ===== src/Manager/Collected/Visits.antt =====
-- The rounds of the loop of doGetAllJson in src/servicesManager.cpp, and what the document then has for
-- a service.
use watched_agent.Base.{
  All, Bool, false, if◌then◌else◌, List, [], ◌∷◌, none, some, Str, str_eq, str_eq_comm, str_eq_refl,
  str_eq_iff, first, lookup, insert, lookup-insert, any, along_some, DistinctKeys, ◌≡◌, refl, ◌∙◌,
  arith, Option-cases, Bool-cases, inl, inr, ◌⊎◌,
}
use watched_agent.Json.{Json}
use watched_agent.Process.{Os}
use watched_agent.Service.{Service, is_id, get_id}
use watched_agent.Service.Views.{
  Status, Replies, get_json_status, is_blackout, has_failure, status_of,
}
use watched_agent.Collector.{Collector}
use watched_agent.Manager.Logs.{get_json_log_history}
use watched_agent.Manager.Collected.{
  Watched, Part, id_of, visit_service, visit_services, collector_histories, get_system_json,
  Everything, get_all,
}

-- No handler changes the ID of this service.
abbrev pub KeepsId : Replies → Service → Type 0
KeepsId replies s =
    (h : Str) (b : Bool) (s' : Service) → replies h s ≡ some (b, s') → get_id s' ≡ get_id s

get_json_status-id :
    (replies : Replies) (os : Os) (s : Service) (status : Status) (s' : Service)
    → KeepsId replies s
    → get_json_status replies os s ≡ some (status, s')
    → get_id s' ≡ get_id s
unfolding get_json_status is_blackout
get_json_status-id replies os s status s' keep e = elim (Bool-cases (has_failure os s)) [
  | inr fine ↦
      along_some same (status_of os false s, s) (status, s')
        (rw (get_json_status, is_blackout, fine) at e) refl
  | inl failed ↦ elim (Option-cases s.handler) [
    | inl none_there ↦
        along_some same (status_of os false s, s) (status, s')
          (rw (get_json_status, is_blackout, failed, none_there) at e) refl
    | inr (h, there) ↦ elim (Option-cases (replies h s)) [
      | inl thrown ↦
          absurd (ground (arith, rw (get_json_status, is_blackout, failed, there, thrown) at e))
      | inr ((b, t), asked) ↦
          along_some same (status_of os b t, t) (status, s')
            (rw (get_json_status, is_blackout, failed, there, asked) at e) (keep h b t asked)
    ]
  ]
]
  where
    same : Status × Service → Type 0
    same r = get_id r.1 ≡ get_id s

module _ (json : Json) where
  open json use {Value, Double}

  -- What the document has for a service: its status is that of the service when it is visited.
  abbrev part_of : Double → Status → Watched json → Part json
  part_of since status w = record {
    status = some status;
    logs = some (get_json_log_history json since w.logs);
    collectors = collector_histories json since w.collectors;
  }

  -- The parts behind a visit of w, with its entry before the logs are there and then the whole one.
  abbrev begun_part : Status → Part json
  begun_part status = record { status = some status; logs = none; collectors = [] }

  abbrev visited : Double → Status → Watched json → List (Str × Part json) → List (Str × Part json)
  visited since status w parts =
      insert str_eq (id_of json w) (part_of since status w)
        (insert str_eq (id_of json w) (begun_part status) parts)

  lookup-visited :
      (since : Double) (status : Status) (w : Watched json) (parts : List (Str × Part json))
      (k : Str)
      → lookup str_eq k (visited since status w parts)
        ≡ (if str_eq k (id_of json w) then some (part_of since status w) else lookup str_eq k parts)
  lookup-visited since status w parts k =
      let id = id_of json w in
      let begun = insert str_eq id (begun_part status) parts in
      let last = lookup-insert k id (part_of since status w) begun in
      let before = lookup-insert k id (begun_part status) parts in
      elim (Bool-cases (str_eq id k)) [
        | inl e ↦ rw (last, e, str_eq_comm k id, e) refl
        | inr e ↦ rw (last, e, before, e, str_eq_comm k id, e) refl
      ]

  visit_service-visited :
      (replies : Replies) (os : Os) (since : Double) (w : Watched json) (status : Status)
      (s' : Service) (parts : List (Str × Part json))
      → KeepsId replies w.service
      → get_json_status replies os w.service ≡ some (status, s')
      → visit_service json replies os since w parts
        ≡ some (visited since status w parts, record w { service = s' })
  unfolding visit_service
  visit_service-visited replies os since w status s' parts keep read =
      let id : get_id s' ≡ id_of json w =
        get_json_status-id replies os w.service status s' keep read in
      let own = lookup-insert (id_of json w) (id_of json w) (begun_part status) parts in
      rw (visit_service, read, id, own, str_eq_refl (id_of json w)) refl

  -- What the search for k in the parts behind the loop gives: what was there when no service has this
  -- ID, and the part of the first one that has it.
  abbrev Shown :
      Replies
      → Os
      → Double
      → List (Watched json)
      → List (Str × Part json)
      → List (Str × Part json)
      → Str
      → Type 0
  Shown replies os since ws parts parts' k =
      ((first (λ w. is_id w.service k) ws ≡ none)
        × (lookup str_eq k parts' ≡ lookup str_eq k parts))
      ⊎ ((w : Watched json) × (status : Status) × (s' : Service) × (first (λ w. is_id w.service k)
              ws
            ≡ some w)
          × (get_json_status replies os w.service ≡ some (status, s'))
          × (lookup str_eq k parts' ≡ some (part_of since status w)))

  first-absent :
      (k : Str) (ws : List (Watched json))
      → any (λ w. str_eq k (id_of json w)) ws ≡ false
      → first (λ w. is_id w.service k) ws ≡ none
  unfolding is_id
  first-absent k [] h = refl
  first-absent k (w ∷ ws) h = ground (arith, first-absent k ws)

  visit_services-Shown :
      (replies : Replies) (os : Os) (since : Double) (ws : List (Watched json))
      (parts parts' : List (Str × Part json)) (k : Str)
      → All (λ w. KeepsId replies w.service) ws
      → DistinctKeys (id_of json) ws
      → (visit_services json replies os since ws parts).0 ≡ some parts'
      → Shown replies os since ws parts parts' k
  unfolding visit_services is_id
  visit_services-Shown replies os since [] parts parts' k keep d e = inl (refl, ground (arith, e))
  visit_services-Shown replies os since (w ∷ ws) parts parts' k keep d e =
      elim (Option-cases (get_json_status replies os w.service)) [
        | inl thrown ↦ absurd (ground (arith, rw (visit_services, visit_service, thrown) at e))
        | inr ((status, s'), read) ↦
            let now = visited since status w parts in
            let known = visit_service-visited replies os since w status s' parts keep.0 read in
            let rest =
              visit_services-Shown replies os since ws now parts' k keep.1 d.1
                (rw (visit_services, known) at e) in
            let at = lookup-visited since status w parts k in
            elim (Bool-cases (str_eq k (id_of json w))) [
              | inl same ↦ elim rest [
                | inl (gone, kept) ↦
                    inr (w, status, s', ground (arith, same), read, kept ∙ (rw (at, same) refl))
                | inr (w', st, s'', found, r, l) ↦
                    let absent =
                      first-absent k ws (rw ((str_eq_iff k (id_of json w)).0 same) d.0) in
                    absurd (ground (arith, found, absent))
              ]
              | inr other ↦ elim rest [
                | inl (gone, kept) ↦ inl (ground (arith, gone, other), kept ∙ (rw (at, other) refl))
                | inr (w', st, s'', found, r, l) ↦
                    inr (w', st, s'', ground (arith, found, other), r, l)
              ]
            ]
      ]

  pub get_all-Shown :
      (replies : Replies) (os : Os) (now since : Double) (ws : List (Watched json))
      (system : List (Str × Collector json)) (id : Str) (doc : Everything json)
      → All (λ w. KeepsId replies w.service) ws
      → DistinctKeys (id_of json) ws
      → (get_all json replies os now ws system since).0 ≡ some doc
      → Shown replies os since ws [] doc.services id
  unfolding get_all
  get_all-Shown replies os now since ws system id doc keep d made =
      elim (Option-cases (visit_services json replies os since ws []).0) [
        | inl thrown ↦ absurd (ground (arith, rw (get_all, thrown) at made))
        | inr (parts, e) ↦
            along_some shown
              (record {
                services = parts;
                system = get_system_json json since system;
                timestamp = now;
              })
              doc (rw (get_all, e) at made)
              (visit_services-Shown replies os since ws [] parts id keep d e)
      ]
    where
      shown : Everything json → Type 0
      shown x = Shown replies os since ws [] x.services id
