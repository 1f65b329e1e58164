-- ===== src/Lua/Metrics/Ending.antt =====
-- How a collection of a Lua plugin ends.
use watched_agent.Base.{
  ℕ, Bool, true, false, List, [], ◌∷◌, none, some, Str, str_eq, lookup, insert, ◌≡◌, refl, arith,
  ◌⊎◌, Bool-cases, Option-cases, inl, inr,
}
use watched_agent.Json.{Json}
use watched_agent.Process.{Os}
use watched_agent.Service.{is_empty}
use watched_agent.Resource.{Resource, set_property, put_first, next_value}
use watched_agent.Swagger.{add_property}
use watched_agent.Lua.Metrics.{
  MetricCall, Task, LuaCollector, call_add_res, call_add_prop, call_next_val, call_set_prop,
  call_get_pid_list, finished, call_then, with_resource, add_prop, next_val, set_prop, do_metric,
  run_task, collect_lua,
}
use watched_agent.Lua.Metrics.Sizes.{Good, collect_lua-Good}

module _ (json : Json) where
  open json use {Value}

  -- A call names a resource that addRessource was not called for, or sets a property where no value is.
  unfoldable pub is_missing : MetricCall Value → LuaCollector json → Bool
  is_missing (call_add_prop name property text type) c = elim (lookup str_eq name c.descriptions) [
    | none ↦ true
    | some d ↦ false
  ]
  is_missing (call_next_val name now) c = elim (lookup str_eq name c.collector.resources) [
    | none ↦ true
    | some r ↦ false
  ]
  is_missing (call_set_prop name property x) c = elim (lookup str_eq name c.collector.resources) [
    | none ↦ true
    | some r ↦ is_empty r.v
  ]
  is_missing _ c = false

  set_property-there :
      (property : Str) (x : Value) (r : Resource json)
      → is_empty r.v ≡ false
      → (r' : Resource json) × (set_property json property x r ≡ some r')
  unfolding set_property put_first is_empty
  set_property-there property x r h = go r.v refl
    where
      go :
          (v : List Value)
          → r.v ≡ v
          → (r' : Resource json) × (set_property json property x r ≡ some r')
      go [] e = absurd (ground (arith, rw e at h))
      go (y ∷ ys) e = (record r { v = json.put property x y ∷ ys }, rw (set_property, e) refl)

  do_metric-there :
      (os : Os) (m : MetricCall Value) (c : LuaCollector json)
      → is_missing m c ≡ false
      → (d : LuaCollector json) × (do_metric json os m c ≡ some d)
  unfolding is_missing do_metric add_prop next_val set_prop
  do_metric-there os (call_add_res name text type) c h = (_, refl)
  do_metric-there os (call_add_prop name property text type) c h =
      elim (Option-cases (lookup str_eq name c.descriptions)) [
        | inl null ↦ absurd (ground (arith, rw (is_missing, null) at h))
        | inr (d, found) ↦ (
          record c {
            descriptions = insert str_eq name (add_property property text type d) c.descriptions;
          },
          rw (do_metric, add_prop, found) refl,
        )
      ]
  do_metric-there os (call_next_val name now) c h =
      elim (Option-cases (lookup str_eq name c.collector.resources)) [
        | inl null ↦ absurd (ground (arith, rw (is_missing, null) at h))
        | inr (r, found) ↦
            let n = next_value json now r c.counter in
            (
              with_resource json name n.0 (record c { counter = n.1 }),
              rw (do_metric, next_val, found) refl,
            )
      ]
  do_metric-there os (call_set_prop name property x) c h =
      elim (Option-cases (lookup str_eq name c.collector.resources)) [
        | inl null ↦ absurd (ground (arith, rw (is_missing, null) at h))
        | inr (r, found) ↦
            let (r', set) = set_property-there property x r (rw (is_missing, found) at h) in
            (with_resource json name r' c, rw (do_metric, set_prop, found, set) refl)
      ]
  do_metric-there os call_get_pid_list c h = (_, refl)

  -- A task comes to a call of something missing.
  pub data Stops (os : Os) : Task Value → LuaCollector json → Type 0 where
    here :
        {c : LuaCollector json} (m : MetricCall Value) (next : List ℕ → Task Value)
        → is_missing m c ≡ true
        → Stops os (call_then m next) c
    later :
        {c : LuaCollector json} (d : LuaCollector json) (m : MetricCall Value)
        (next : List ℕ → Task Value)
        → do_metric json os m c ≡ some d
        → Stops os (next d.pids) d
        → Stops os (call_then m next) c

  run_task-ends :
      (os : Os) (t : Task Value) (c : LuaCollector json)
      → ((d : LuaCollector json) × (run_task json os t c ≡ some d)) ⊎ Stops os t c
  unfolding run_task
  run_task-ends os finished c = inl (c, refl)
  run_task-ends os (call_then m next) c = elim (Bool-cases (is_missing m c)) [
    | inl missing ↦ inr (here m next missing)
    | inr fits ↦
        let (d, did) = do_metric-there os m c fits in
        elim (run_task-ends os (next d.pids) d) [
          | inl (e, ran) ↦ inl (e, rw (run_task, did) ran)
          | inr stops ↦ inr (later d m next did stops)
        ]
  ]

  -- A collection of a Lua plugin returns, unless its calls come to one of a resource that was not added or
  -- of a property where no value is. When it returns, each history is within its size, and the counter of
  -- the values keeps the number of the values of the collector and the `others`, on uint32_t, provided
  -- that both hold before.
  pub collect_lua-ends :
      (others : ℕ) (os : Os) (have_state : Bool) (t : Task Value) (c : LuaCollector json)
      → Good json others c
      → ((d : LuaCollector json) × (collect_lua json os have_state t c ≡ some d)
          × Good json others d)
        ⊎ Stops os t c
  unfolding collect_lua
  collect_lua-ends others os have_state t c g = elim (Bool-cases have_state) [
    | inr off ↦ inl (c, rw (collect_lua, off) refl, g)
    | inl on ↦ elim (run_task-ends os t c) [
      | inr stops ↦ inr stops
      | inl (d, ran) ↦
          let done : collect_lua json os have_state t c ≡ some d = rw (collect_lua, on) ran in
          inl (d, done, collect_lua-Good json others os have_state t c d done g)
    ]
  ]
