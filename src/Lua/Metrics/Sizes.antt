-- ===== src/Lua/Metrics/Sizes.antt =====
-- What the plugin of a LuaCollector leaves of the histories.
use watched_agent.Base.{
  codes, ℕ, ◌+◌, ◌-◌, ◌%◌, ◌^◌, Bool, some, Str, str_eq, lookup, insert, length, ◌≡◌, sym, ◌∙◌, ap,
  arith, Bool-cases, Option-cases, inl, inr, along_some,
}
use watched_agent.Json.{Json}
use watched_agent.Process.{Os}
use watched_agent.Resource.{new_resource, next_value, set_property}
use watched_agent.Resource.History.{next_value-counts}
use watched_agent.Collector.{add_resource}
use watched_agent.Lua.Metrics.{
  MetricCall, Task, LuaCollector, call_add_res, call_add_prop, call_next_val, call_set_prop,
  call_get_pid_list, finished, call_then, with_resource, add_res, add_prop, next_val, set_prop,
  get_pid_list, do_metric, run_task, collect_lua,
}
use watched_agent.Lua.Metrics.Totals.{
  total, total-insert, total-lookup, total-insert_new, set_property-length, Sized, Sized-insert,
  Sized-lookup,
}

module _ (json : Json) where
  open json use {Value}

  -- What the counter of the values is ahead by is the number of the values here and of the others.
  abbrev pub Counted : ℕ → LuaCollector json → Type 0
  Counted others c =
      c.counter.add % 2 ^ 32 ≡ (c.counter.del + others + total json c.collector.resources) % 2 ^ 32

  abbrev pub Good : ℕ → LuaCollector json → Type 0
  Good others c = Sized json c.collector.resources × Counted others c

  Good-add_res :
      (others : ℕ) (name text type : Str) (c : LuaCollector json)
      → Good others c
      → Good others (add_res json name text type c)
  unfolding add_res add_resource new_resource
  Good-add_res others name text type c g =
      elim (Option-cases (lookup str_eq name c.collector.resources)) [
        | inr (r, old) ↦ rw (add_resource, old) g
        | inl new ↦
            let fresh =
              new_resource json (json.as_ℕ (json.get (codes "history") c.collector.cfg)) in
            let size : total json (insert str_eq name fresh c.collector.resources)
                ≡ total json c.collector.resources =
              omega (arith, total-insert_new json name fresh c.collector.resources new) in
            rw (add_resource, new)
              (
                Sized-insert json name fresh c.collector.resources (omega arith) g.0,
                g.1 ∙ ap (λ (n : ℕ). (c.counter.del + others + n) % 2 ^ 32) (sym size),
              )
      ]

  Good-next_val :
      (others : ℕ) (name : Str) (now : Value) (c d : LuaCollector json)
      → next_val json name now c ≡ some d
      → Good others c
      → Good others d
  unfolding next_val with_resource
  Good-next_val others name now c d e g =
      elim (Option-cases (lookup str_eq name c.collector.resources)) [
        | inl null ↦ absurd (ground (arith, rw (next_val, null) at e))
        | inr (r, found) ↦
            let es = c.collector.resources in
            let (r', n) = next_value json now r c.counter in
            let rest : ℕ = others + (total json es - length r.v) in
            let fewer = total-lookup json name r es found in
            let after = total-insert json name r r' es found in
            let same : c.counter.del + others + total json es ≡ c.counter.del + rest + length r.v =
              omega (arith, fewer) in
            let (size, kept, counted) =
              next_value-counts json now r c.counter rest (g.1 ∙ ap (λ (m : ℕ). m % 2 ^ 32) same) in
            along_some (Good others) (with_resource json name r' (record c { counter = n })) d
              (rw (next_val, found) at e)
              (
                Sized-insert json name r' es (omega (arith, size, kept)) g.0,
                counted ∙ ap (λ (m : ℕ). m % 2 ^ 32) (omega (arith, after, fewer)),
              )
      ]

  Good-set_prop :
      (others : ℕ) (name property : Str) (x : Value) (c d : LuaCollector json)
      → set_prop json name property x c ≡ some d
      → Good others c
      → Good others d
  unfolding set_prop with_resource
  Good-set_prop others name property x c d e g =
      elim (Option-cases (lookup str_eq name c.collector.resources)) [
        | inl null ↦ absurd (ground (arith, rw (set_prop, null) at e))
        | inr (r, found) ↦ elim (Option-cases (set_property json property x r)) [
          | inl outside ↦ absurd (ground (arith, rw (set_prop, found, outside) at e))
          | inr (r', set) ↦
              let es = c.collector.resources in
              let (length_same, size_same) = set_property-length json property x r r' set in
              along_some (Good others) (with_resource json name r' c) d
                (rw (set_prop, found, set) at e)
                (
                  Sized-insert json name r' es
                      (omega (arith, length_same, size_same, Sized-lookup json name r es found g.0))
                      g.0,
                  g.1
                      ∙ ap (λ (m : ℕ). (c.counter.del + others + m) % 2 ^ 32)
                          (omega (arith, length_same, total-insert json name r r' es found)),
                )
        ]
      ]

  Good-add_prop :
      (others : ℕ) (name property text type : Str) (c d : LuaCollector json)
      → add_prop json name property text type c ≡ some d
      → Good others c
      → Good others d
  unfolding add_prop
  Good-add_prop others name property text type c d e g =
      elim (Option-cases (lookup str_eq name c.descriptions)) [
        | inl null ↦ absurd (ground (arith, rw (add_prop, null) at e))
        | inr (r, found) ↦ along_some (Good others) _ d (rw (add_prop, found) at e) g
      ]

  Good-get_pid_list :
      (others : ℕ) (os : Os) (c : LuaCollector json)
      → Good others c
      → Good others (get_pid_list json os c)
  unfolding get_pid_list
  Good-get_pid_list others os c g = elim (Option-cases c.service) [
    | inl gone ↦ rw (get_pid_list, gone) g
    | inr (s, there) ↦ rw (get_pid_list, there) g
  ]

  Good-do_metric :
      (others : ℕ) (os : Os) (m : MetricCall Value) (c d : LuaCollector json)
      → do_metric json os m c ≡ some d
      → Good others c
      → Good others d
  unfolding do_metric
  Good-do_metric others os (call_add_res name text type) c d e g =
      along_some (Good others) _ d e (Good-add_res others name text type c g)
  Good-do_metric others os (call_add_prop name property text type) c d e g =
      Good-add_prop others name property text type c d e g
  Good-do_metric others os (call_next_val name now) c d e g = Good-next_val others name now c d e g
  Good-do_metric others os (call_set_prop name property x) c d e g =
      Good-set_prop others name property x c d e g
  Good-do_metric others os call_get_pid_list c d e g =
      along_some (Good others) _ d e (Good-get_pid_list others os c g)

  Good-run_task :
      (others : ℕ) (os : Os) (t : Task Value) (c d : LuaCollector json)
      → run_task json os t c ≡ some d
      → Good others c
      → Good others d
  unfolding run_task
  Good-run_task others os finished c d e g = along_some (Good others) c d e g
  Good-run_task others os (call_then m next) c d e g = elim (Option-cases (do_metric json os m c)) [
    | inl null ↦ absurd (ground (arith, rw (run_task, null) at e))
    | inr (c', did) ↦
        Good-run_task others os (next c'.pids) c' d (rw (run_task, did) at e)
          (Good-do_metric others os m c c' did g)
  ]

  -- Whatever a plugin calls when it collects, each history stays within its size, and the counter of the
  -- values keeps the number of the values of the collector and the `others`, on uint32_t, when both hold
  -- before and no call is one of a null pointer or of a missing value.
  pub collect_lua-Good :
      (others : ℕ) (os : Os) (have_state : Bool) (t : Task Value) (c d : LuaCollector json)
      → collect_lua json os have_state t c ≡ some d
      → Good others c
      → Good others d
  unfolding collect_lua
  collect_lua-Good others os have_state t c d e g = elim (Bool-cases have_state) [
    | inl on ↦ Good-run_task others os t c d (rw (collect_lua, on) at e) g
    | inr off ↦ along_some (Good others) c d (rw (collect_lua, off) at e) g
  ]
