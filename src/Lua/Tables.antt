-- ===== src/Lua/Tables.antt =====
-- The tables of a plugin: the types that LuaSorter::isType of src/luacollectors.cpp looks through, and the
-- PIDs that LuaCollector::getPIDList leaves.
use watched_agent.Base.{
  ℕ, zero, suc, ◌+◌, ◌-◌, ◌<◌, ◌≤◌, ◌++◌, sym, append-nil, append_assoc, take, Option-cases, true,
  false, ◌||◌, not, List, [], ◌∷◌, none, some, Str, str_eq, any, all, length, ◌≡◌, refl, ◌∙◌, ap,
  arith, inl, inr,
}
use watched_agent.Json.{Json}
use watched_agent.Process.{Os}
use watched_agent.Service.{is_empty, get_pids}
use watched_agent.Resource.History.{length-take}
use watched_agent.Lua.Metrics.{LuaCollector, clear_table, insert_all, get_pid_list}
use watched_agent.Lua.{is_type}

-- types[i], where the first element has the index 1 and an element that is not there is empty.
unfoldable pub element : List Str → ℕ → Str
element [] i = []
element (t ∷ ts) zero = []
element (t ∷ ts) (suc zero) = t
element (t ∷ ts) (suc (suc i)) = element ts (suc i)

str_eq_nil : (name : Str) → str_eq [] name ≡ is_empty name
unfolding str_eq is_empty
str_eq_nil [] = refl
str_eq_nil (c ∷ cs) = refl

-- What isType finds from the index i on, on the elements from there.
is_type-from :
    (name : Str) (types : ℕ → Str) (ts : List Str) (i fuel : ℕ)
    → ((k : ℕ) → types (i + k) ≡ element ts (suc k))
    → all (λ t. not (is_empty t)) ts ≡ true
    → length ts < fuel
    → is_type fuel types i name ≡ some (is_empty name || any (λ t. str_eq t name) ts)
unfolding is_type element is_empty
is_type-from name types ts i zero at full enough = absurd (omega (arith, enough))
is_type-from name types [] i (suc fuel) at full enough =
    let here : types i ≡ [] = ap types (omega arith) ∙ at 0 in
    rw (here, str_eq_nil name) (ground arith)
is_type-from name types (t ∷ ts) i (suc fuel) at full enough =
    let here : types i ≡ t = ap types (omega arith) ∙ at 0 in
    let there : is_empty t ≡ false = ground arith in
    let rest =
      is_type-from name types ts (i + 1) fuel (λ k. ap types (omega arith) ∙ at (suc k))
        (ground arith) (omega (arith, enough)) in
    rw (here, there, rest) (ground arith)

-- LuaSorter::isType comes to its end and finds exactly the types that the plugin lists, and the empty
-- name, when no listed type is empty and the fuel is more than the types.
pub is_type-any :
    (name : Str) (ts : List Str) (fuel : ℕ)
    → all (λ t. not (is_empty t)) ts ≡ true
    → length ts < fuel
    → is_type fuel (element ts) 1 name ≡ some (is_empty name || any (λ t. str_eq t name) ts)
unfolding element
is_type-any name ts fuel full enough =
    is_type-from name (element ts) ts 1 fuel (λ k. ap (element ts) (omega arith)) full enough

length-clear_table : (n : ℕ) (ps : List ℕ) → length ps ≤ n → clear_table n ps ≡ []
unfolding clear_table
length-clear_table zero [] h = refl
length-clear_table zero (p ∷ ps) h = absurd (omega (arith, h))
length-clear_table (suc n) [] h = refl
length-clear_table (suc n) (p ∷ ps) h =
    length-clear_table n (take (length (p ∷ ps) - 1) (p ∷ ps))
      (omega (arith, h, length-take (length (p ∷ ps) - 1) (p ∷ ps)))

insert_all-append : (is ps : List ℕ) → insert_all is ps ≡ ps ++ is
unfolding insert_all
insert_all-append [] ps = sym (append-nil ps)
insert_all-append (i ∷ is) ps = insert_all-append is (ps ++ i ∷ []) ∙ append_assoc ps (i ∷ []) is

module _ (json : Json) where
  -- getPIDList leaves exactly the PIDs of the service in the table, or none, whatever was there.
  get_pid_list-exact :
      (os : Os) (c : LuaCollector json)
      → (get_pid_list json os c).pids ≡ elim c.service [ none ↦ [] | some s ↦ (get_pids os s).0 ]
  unfolding get_pid_list
  get_pid_list-exact os c = elim (Option-cases c.service) [
    | inl gone ↦ rw (get_pid_list, gone) (length-clear_table (length c.pids) c.pids (omega arith))
    | inr (s, there) ↦
        rw (get_pid_list, there, length-clear_table (length c.pids) c.pids (omega arith))
          (insert_all-append (get_pids os s).0 [])
  ]
