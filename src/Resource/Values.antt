-- ===== src/Resource/Values.antt =====
-- Class tickRessource of include/collectors.h, and class pidRessource of the same file and of
-- src/collectors.cpp: metrics that are computed from counters of the kernel.
use watched_agent.Base.{
  ℕ, ◌+◌, ◌-◌, ◌/◌, ◌%◌, ◌^◌, List, [], ◌∷◌, Option, none, some, if◌then◌else◌, Str, str_eq, lookup,
  insert, ◌==◌, ltb, ◌>>=◌,
}
use watched_agent.Json.{Json}
use watched_agent.Resource.{Counter, Resource, next_value, set_property, get_value}

-- (p_value - old[p_name])/freq on uint, or 0. `none` is the division by zero.
unfoldable pub rate : Option ℕ → ℕ → ℕ → Option ℕ
rate none value freq = some 0
rate (some o) value freq = if freq == 0 then none else some ((value + 2 ^ 32 - o) % 2 ^ 32 / freq)

module _ (json : Json) where
  open json use {Value, Double, null, of_ℕ, of_double, as_double, add, mul, double_of}

  pub record Tick : Type 0 where
    pub res : Resource json
    pub old : List (Str × ℕ)
    pub freq : ℕ

  -- tickRessource::setTickValue
  unfoldable pub set_tick_value : Str → ℕ → Tick → Option Tick
  unfolding rate
  set_tick_value name value t = do
    n ← rate (lookup str_eq name t.old) value t.freq
    r ← set_property json name (of_ℕ n) t.res
    some (record t { res = r; old = insert str_eq name value t.old })

  -- Ressource::nextValue of a tickRessource.
  unfoldable pub next_tick : Value → Tick → Counter → Tick × Counter
  next_tick now t c = let (r, c') = next_value json now t.res c in (record t { res = r }, c')

  -- The first member of a list of ticks is set first.
  unfoldable pub set_ticks : List (Str × ℕ) → Tick → Option Tick
  set_ticks [] t = some t
  set_ticks (e ∷ es) t = set_tick_value e.0 e.1 t >>= set_ticks es

  pub record Pids : Type 0 where
    pub res : Resource json
    pub values : List (Str × List (ℕ × ℕ))
    pub factor : Double

  unfoldable pub zero_all : List (Str × List (ℕ × ℕ)) → Resource json → Option (Resource json)
  zero_all [] r = some r
  zero_all (e ∷ es) r = set_property json e.0 (of_double (double_of 0)) r >>= zero_all es

  -- pidRessource::nextValue
  unfoldable pub next_pids : Value → Pids → Counter → Option (Pids × Counter)
  unfolding zero_all
  next_pids now p c = elim p.values [
    | [] ↦ some (p, c)
    | e ∷ es ↦ do
      let (r, c') = next_value json now p.res c
      r' ← zero_all (e ∷ es) r
      some (record p { res = r' }, c')
  ]

  -- values[p_name], where a missing entry is made empty.
  unfoldable pub entries_of : Str → List (Str × List (ℕ × ℕ)) → List (ℕ × ℕ)
  entries_of name m = elim (lookup str_eq name m) [ none ↦ [] | some es ↦ es ]

  -- v[0][p_name] = v[0][p_name].asDouble()+factor*(p_value-values[p_name][p_pid])
  unfoldable pub grow : Str → ℕ → ℕ → Pids → Option (Resource json)
  grow name old value p =
      set_property json name
        (of_double (
          add (as_double (get_value json null name p.res))
            (mul p.factor (double_of (value - old)))))
        p.res

  -- pidRessource::setPidValue
  unfoldable pub set_pid_value : Str → ℕ → ℕ → Pids → Option Pids
  unfolding entries_of grow
  set_pid_value name pid value p = do
    let es = entries_of name p.values
    r ← elim (lookup ◌==◌ pid es) [
      | none ↦ some p.res
      | some old ↦ if ltb old value then grow name old value p else some p.res
    ]
    some (record p { res = r; values = insert str_eq name (insert ◌==◌ pid value es) p.values })
