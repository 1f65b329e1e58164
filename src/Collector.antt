-- ===== src/Collector.antt =====
-- Class Collector of include/collectors.h and src/collectors.cpp: the resources of a collector and
-- the histories that it sends. Its thread is in the child Thread.
pub mod Thread
pub mod Histories
pub mod Own
use watched_agent.Base.{
  ℕ, List, [], ◌∷◌, ◌++◌, Bool, true, Option, none, some, Str, str_eq, codes, lookup, insert, ltb,
  if◌then◌else◌,
}
use watched_agent.Json.{Json}
use watched_agent.LogParser.{default_value}
use watched_agent.Resource.{Resource, new_resource, get_history, get_history_json}

-- What doGetHistory answers.
pub data HistoryReply : Type 0 where
  not_found : Str → HistoryReply
  sent : Str → HistoryReply

module _ (json : Json) where
  open json use {Value, Double, get, of_ℕ, of_bool, as_ℕ}

  -- `service` is the ID of the service, if there is one.
  pub record Collector : Type 0 where
    pub cfg : Value
    pub name : Str
    pub base_path : Str
    pub service : Option Str
    pub resources : List (Str × Resource json)
    pub desc : List (Str × Str)

  -- Collector::setService
  unfoldable pub set_service : Str → Collector → Collector
  set_service id c = record c {
    service = some id;
    base_path = codes "/service/" ++ (id ++ codes "/");
  }

  -- Collector::Collector
  unfoldable pub new_collector : Str → ℕ → ℕ → Option Str → Value → Collector
  unfolding set_service
  new_collector name history freq serv cfg =
      let c : Collector = record {
        cfg = default_value json (codes "enable") true (of_bool true) (
            default_value json (codes "poll-frequency") (ltb 0 freq) (of_ℕ freq)
              (default_value json (codes "history") (ltb 0 history) (of_ℕ history) cfg));
        name = name;
        base_path = codes "/system/";
        service = none;
        resources = [];
        desc = [];
      } in
      elim serv [ none ↦ c | some id ↦ set_service id c ]

  -- Collector::addRessource
  unfoldable pub add_resource : Str → Str → Collector → Collector
  add_resource name text c = elim (lookup str_eq name c.resources) [
    | some r ↦ c
    | none ↦ record c {
      resources =
          insert str_eq name (new_resource json (as_ℕ (get (codes "history") c.cfg))) c.resources;
      desc = insert str_eq name text c.desc;
    }
  ]

  -- Collector::doGetHistory, on the metric and the time that the request names.
  unfoldable pub do_get_history : Str → Double → Collector → HistoryReply
  do_get_history name since c = elim (lookup str_eq name c.resources) [
    | none ↦ not_found (codes "No such Metric")
    | some r ↦ sent (get_history json since r)
  ]

  -- Collector::getJsonHistory
  unfoldable pub json_histories : Double → List (Str × Resource json) → List (Str × List Value)
  json_histories since [] = []
  json_histories since (e ∷ es) =
      (e.0, get_history_json json since e.1 []) ∷ json_histories since es

  unfoldable pub get_json_history : Double → Collector → List (Str × List Value)
  unfolding json_histories
  get_json_history since c = json_histories since c.resources
