-- ===== src/Manager/Collected.antt =====
-- The replies of src/servicesManager.cpp on the collectors of a service, and on everything at once:
-- doGetCollectorHistory, doGetCollectorGraph and doGetAllJson, with getJsonCollectorHistory of
-- src/services.cpp and getSystemJson of src/collectors.cpp.
pub mod Agreement
pub mod Visits
use watched_agent.Base.{
  ℕ, Bool, true, false, List, [], ◌∷◌, ◌++◌, Option, none, some, if◌then◌else◌, Str, str_eq, codes,
  first, lookup, insert, gather, ◌>>=◌, any,
}
use watched_agent.Json.{Json}
use watched_agent.Process.{Os}
use watched_agent.Service.{Service, get_id, is_id}
use watched_agent.Service.Views.{Status, Replies, get_json_status}
use watched_agent.Collector.{Collector, HistoryReply, do_get_history, get_json_history}
use watched_agent.Manager.Logs.{LoggedService, LogReply, get_json_log_history}

-- The time in the parameter since: the last one counts. `stod` is `none` where it throws.
unfoldable pub since_of {ℓ} : {D : Type ℓ} → (Str → Option D) → D → List (Str × Str) → Option D
since_of stod since [] = some since
since_of stod since (pair ∷ args) =
    let kept = since_of stod since args in
    if str_eq pair.0 (codes "since")
    then (stod pair.1 >>= λ found. since_of stod found args)
    else kept

module _ (json : Json) where
  open json use {Value, Double}

  -- A service with the collectors that it has, and what its log parsers keep.
  pub record Watched : Type 0 where
    pub service : Service
    pub logs : LoggedService json
    pub collectors : List (Str × Collector json)

  abbrev pub id_of : Watched → Str
  id_of w = get_id w.service

  -- The histories of collectors, by the name of the collector and then of the metric: the loop of
  -- getJsonCollectorHistory and of getSystemJson. The keys of a std::map are distinct.
  abbrev pub Histories : Type 0
  Histories = List (Str × List (Str × List Value))

  unfoldable pub collector_histories : Double → List (Str × Collector json) → Histories
  collector_histories since [] = []
  collector_histories since (e ∷ es) =
      (e.0, get_json_history json since e.1) ∷ collector_histories since es

  -- CollectorsManager::getSystemJson is the same loop.
  abbrev pub get_system_json : Double → List (Str × Collector json) → Histories
  get_system_json since system = collector_histories since system

  -- res["services"][id], where a member is an empty object until it is written, and the whole document
  -- of doGetAllJson.
  pub record Part : Type 0 where
    pub status : Option Status
    pub logs : Option (LogReply json)
    pub collectors : Histories

  pub record Everything : Type 0 where
    pub services : List (Str × Part)
    pub system : Histories
    pub timestamp : Double

  -- One round of the loop of doGetAllJson: the parts, and the service, which its handler may change.
  -- `none` is an exception of the handler. The ID is asked again behind the handler; that it becomes
  -- the one of another service is left out.
  unfoldable pub visit_service :
      Replies → Os → Double → Watched → List (Str × Part) → Option (List (Str × Part) × Watched)
  visit_service replies os since w parts = do
    r ← get_json_status replies os w.service
    let begun =
        insert str_eq (id_of w) (record { status = some r.0; logs = none; collectors = [] }) parts
    some (
      insert str_eq (get_id r.1)
          (record {
            status = lookup str_eq (get_id r.1) begun >>= λ part. part.status;
            logs = some (get_json_log_history json since w.logs);
            collectors = collector_histories since w.collectors;
          })
          begun,
      record w { service = r.1 },
    )

  unfoldable pub visit_services :
      Replies
      → Os
      → Double
      → List Watched
      → List (Str × Part)
      → Option (List (Str × Part)) × List Watched
  unfolding visit_service
  visit_services replies os since [] parts = (some parts, [])
  visit_services replies os since (w ∷ ws) parts = elim (visit_service replies os since w parts) [
    | none ↦ (none, w ∷ ws)
    | some r ↦ let rest = visit_services replies os since ws r.0 in (rest.0, r.1 ∷ rest.1)
  ]

  -- servicesManager::doGetAllJson: the document, if no handler throws, and the services behind it.
  unfoldable pub get_all :
      Replies
      → Os
      → Double
      → List Watched
      → List (Str × Collector json)
      → Double
      → Option Everything × List Watched
  unfolding visit_services
  get_all replies os now ws system since =
      let r = visit_services replies os since ws [] in
      (
        r.0 >>= λ parts.
            some
              (record { services = parts; system = get_system_json since system; timestamp = now }),
        r.1,
      )

  -- What doGetCollectorHistory answers.
  pub data CollectorReply : Type 0 where
    failure : Str → CollectorReply
    history : HistoryReply → CollectorReply

  unfoldable pub no_service : Str → Str
  no_service id = codes "No service matching '" ++ (id ++ codes "' found")

  unfoldable pub no_collector : Str → Str → Str
  no_collector id cid =
      codes "No collector matching '"
      ++ (cid ++ (codes "' for service '" ++ (id ++ codes "' found")))

  -- servicesManager::doGetCollectorHistory, on the ID of a service, the name of a collector and the
  -- name of a metric, which are the first three texts of the request.
  unfoldable pub get_collector_history : List Watched → Str → Str → Str → Double → CollectorReply
  get_collector_history ws id cid name since = elim (first (λ w. is_id w.service id) ws) [
    | none ↦ failure (no_service id)
    | some w ↦ elim (lookup str_eq cid w.collectors) [
      | none ↦ failure (no_collector id cid)
      | some c ↦ history (do_get_history json name since c)
    ]
  ]

  -- servicesManager::doGetCollectorGraph: the page of a metric has the title and the address of its
  -- history.
  pub data GraphReply : Type 0 where
    graph_failure : Str → GraphReply
    graph_missing : Str → GraphReply
    graph : Str → Str → Str → GraphReply

  -- Collector::doGetGraph
  unfoldable pub do_get_graph : Str → Collector json → GraphReply
  do_get_graph name c = elim (lookup str_eq name c.resources) [
    | none ↦ graph_missing (codes "No such Metric")
    | some r ↦
        graph (elim (lookup str_eq name c.desc) [ none ↦ [] | some text ↦ text ])
          (elim c.service [ none ↦ [] | some id ↦ id ])
          (c.base_path ++ (c.name ++ (codes "/" ++ (name ++ codes "/history"))))
  ]

  unfoldable pub get_collector_graph : List Watched → Str → Str → Str → GraphReply
  get_collector_graph ws id cid name = elim (first (λ w. is_id w.service id) ws) [
    | none ↦ graph_missing (no_service id)
    | some w ↦ elim (lookup str_eq cid w.collectors) [
      | none ↦ graph_failure (no_collector id cid)
      | some c ↦ do_get_graph name c
    ]
  ]
