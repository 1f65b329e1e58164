-- ===== src/Collector/Own.antt =====
-- SelfCollector of src/collectors.cpp: how many objects the agent has made and deleted.
pub mod Shown
use watched_agent.Base.{
  ℕ, ◌+◌, ◌-◌, ◌%◌, ◌^◌, List, [], ◌∷◌, ◌++◌, Option, none, some, Str, str_eq, codes, lookup,
  insert, ◌>>=◌,
}
use watched_agent.Json.{Json}
use watched_agent.Resource.{Counter, Resource, next_value, set_property}
use watched_agent.Resource.Values.{Tick, next_tick, set_tick_value}

-- globalCounters
abbrev pub Counters : Type 0
Counters = List (Str × Counter)

-- globalCounters["values_count"], which both calls of nextValue count.
unfoldable pub value_counter : Counters → Counter
value_counter g = elim (lookup str_eq (codes "values_count") g) [
  | none ↦ record { add = 0; del = 0 }
  | some c ↦ c
]

-- add - del on uint32_t.
unfoldable pub live : Counter → ℕ
live c = (c.add + 2 ^ 32 - c.del) % 2 ^ 32

module _ (json : Json) where
  open json use {Value, of_ℕ}

  -- The loop over the counters.
  unfoldable pub set_counts :
      Counters → Resource json → Tick json → Option (Resource json × Tick json)
  set_counts [] r t = some (r, t)
  set_counts (e ∷ es) r t = do
    r' ← set_property json e.0 (of_ℕ (live e.1)) r
    t' ← set_tick_value json (e.0 ++ codes "_del") e.1.del t
    t'' ← set_tick_value json (e.0 ++ codes "_add") e.1.add t'
    set_counts es r' t''

  -- What the collector works on: its two resources, and the counters of the program.
  pub record Own : Type 0 where
    pub values : Resource json
    pub changes : Tick json
    pub counters : Counters

  -- The counters behind the two calls of nextValue, and the resources behind them.
  unfoldable pub next_own : Value → Own → Own
  unfolding value_counter
  next_own now o =
      let (r, c) = next_value json now o.values (value_counter o.counters) in
      let (t, c') = next_tick json now o.changes c in
      record {
        values = r;
        changes = t;
        counters = insert str_eq (codes "values_count") c' o.counters;
      }

  -- SelfCollector::collect
  unfoldable pub collect_self : Value → Own → Option Own
  unfolding next_own set_counts
  collect_self now o =
      let n = next_own now o in
      set_counts n.counters n.values n.changes >>= λ s.
      some (record n { values = s.0; changes = s.1 })
