-- ===== src/Collector/Histories.antt =====
-- The two forms in which a collector sends its histories agree, and a resource is never replaced.
use mathlib.Core.List.{reverse}
use watched_agent.Base.{
  List, [], ◌∷◌, ◌++◌, none, some, Str, str_eq, str_eq_iff, codes, lookup, lookup-insert,
  if◌then◌else◌, ◌≡◌, refl, ap, arith, Bool-cases, Option-cases, inl, inr,
}
use watched_agent.Json.{Json}
use watched_agent.Resource.{Resource, new_resource}
use watched_agent.Resource.History.{recent, joined, get_history-agrees}
use watched_agent.Collector.{
  HistoryReply, Collector, add_resource, do_get_history, json_histories, get_json_history,
}

module _ (json : Json) where
  open json use {Value, Double, get, as_ℕ}

  lookup-json_histories :
      (since : Double) (name : Str) (es : List (Str × Resource json))
      → lookup str_eq name (json_histories json since es) ≡ elim (lookup str_eq name es) [
        | none ↦ none
        | some r ↦ some (recent json since (reverse r.v))
      ]
  unfolding json_histories
  lookup-json_histories since name [] = refl
  lookup-json_histories since name (e ∷ es) =
      ground (arith, lookup-json_histories since name es, (get_history-agrees json since e.1 []).0)

  -- The page of a metric's history holds the values that the document of all histories has for this
  -- metric, in brackets, with a comma and a line end between two, and is an error page when that
  -- document does not have the metric.
  pub do_get_history-agrees :
      (name : Str) (since : Double) (c : Collector json)
      → do_get_history json name since c
        ≡ elim (lookup str_eq name (get_json_history json since c)) [
          | none ↦ HistoryReply.not_found (codes "No such Metric")
          | some vs ↦ HistoryReply.sent (codes "[\n" ++ (joined json vs ++ codes "\n]\n"))
        ]
  unfolding do_get_history get_json_history
  do_get_history-agrees name since c = elim (Option-cases (lookup str_eq name c.resources)) [
    | inl e ↦ ground (arith, lookup-json_histories since name c.resources)
    | inr (r, e) ↦ ground (
      arith,
      lookup-json_histories since name c.resources,
      (get_history-agrees json since r []).1,
    )
  ]

  -- addRessource makes an empty history of the configured size for a new name, and keeps the resource
  -- of every name that has one.
  lookup-add_resource :
      (k name text : Str) (c : Collector json)
      → lookup str_eq k (add_resource json name text c).resources
        ≡ elim (lookup str_eq k c.resources) [
          | some r ↦ some r
          | none ↦
              if str_eq name k
              then some (new_resource json (as_ℕ (get (codes "history") c.cfg)))
              else none
        ]
  unfolding add_resource
  lookup-add_resource k name text c =
      let r = new_resource json (as_ℕ (get (codes "history") c.cfg)) in
      let at = lookup-insert k name r c.resources in
      elim (Bool-cases (str_eq name k)) [
        | inl same ↦
            let e = ap (λ z. lookup str_eq z c.resources) ((str_eq_iff name k).0 same) in
            elim (Option-cases (lookup str_eq name c.resources)) [
              | inl new ↦ ground (arith, e, at)
              | inr (old, found) ↦ ground (arith, e)
            ]
        | inr other ↦ elim (Option-cases (lookup str_eq name c.resources)) [
          | inl new ↦ elim (Option-cases (lookup str_eq k c.resources)) [
            | inl gone ↦ ground (arith, at)
            | inr (kept, there) ↦ ground (arith, at)
          ]
          | inr (old, found) ↦ elim (Option-cases (lookup str_eq k c.resources)) [
            | inl gone ↦ ground arith
            | inr (kept, there) ↦ ground arith
          ]
        ]
      ]
