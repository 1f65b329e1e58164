-- ===== src/Resource.antt =====
-- Class Ressource of include/collectors.h and src/collectors.cpp: the history of a metric.
pub mod History
pub mod Values
pub mod Rates
pub mod Texts
use mathlib.Core.List.{reverse}
use watched_agent.Base.{
  ℕ, suc, ◌+◌, ◌-◌, ◌%◌, ◌^◌, Bool, true, false, ◌&&◌, List, [], ◌∷◌, ◌++◌, Option, none, some, ltb,
  if◌then◌else◌, Str, length, take, codes,
}
use watched_agent.Json.{Json}

-- globalCounters["values_count"], two uint32_t.
pub record Counter : Type 0 where
  pub add : ℕ
  pub del : ℕ

module _ (json : Json) where
  open json use {
    Value, Double, object, null, is_member, get, put, as_double, at_least, show, of_double,
  }

  -- The newest value stands first. The descriptions and the types of the properties are fixed.
  pub record Resource : Type 0 where
    pub v : List Value
    pub size : ℕ

  -- Ressource::Ressource
  unfoldable pub new_resource : ℕ → Resource
  new_resource size = record { v = []; size = size }

  -- A copy of the newest value in front, or an empty object.
  unfoldable pub push_copy : List Value → List Value
  push_copy [] = object ∷ []
  push_copy (x ∷ xs) = x ∷ x ∷ xs

  -- v[0][name] = x; `none` is the access to an element that is not there.
  unfoldable pub put_first : Str → Value → List Value → Option (List Value)
  put_first name x [] = none
  put_first name x (y ∷ ys) = some (put name x y ∷ ys)

  unfoldable pub stamp : Value → List Value → List Value
  stamp now [] = []
  stamp now (y ∷ ys) = put (codes "timestamp") now y ∷ ys

  -- Ressource::nextValue at the time `now`.
  unfoldable pub next_value : Value → Resource → Counter → Resource × Counter
  unfolding push_copy stamp
  next_value now r c =
      let v = stamp now (push_copy r.v) in
      let added = (c.add + 1) % 2 ^ 32 in
      if ltb r.size (length v)
      then (
        record r { v = take r.size v },
        record { add = added; del = (c.del + (length v - r.size)) % 2 ^ 32 },
      )
      else (record r { v = v }, record { add = added; del = c.del })

  -- Ressource::setProperty
  unfoldable pub set_property : Str → Value → Resource → Option Resource
  unfolding put_first
  set_property name x r = elim (put_first name x r.v) [
    | none ↦ none
    | some v ↦ some (record r { v = v })
  ]

  -- Ressource::getValue; `zero` is the static value that stands for an empty history.
  unfoldable pub get_value : Value → Str → Resource → Value
  get_value zero name r = elim r.v [ [] ↦ zero | x ∷ xs ↦ get name x ]

  -- v[i].isMember("timestamp") && v[i]["timestamp"].asDouble() >= since
  unfoldable pub is_recent : Double → Value → Bool
  is_recent since x =
      is_member (codes "timestamp") x && at_least (as_double (get (codes "timestamp") x)) since

  -- Ressource::getHistory(Json::Value*, double): i runs down from the oldest value.
  unfoldable pub append_recent : Double → List Value → List Value → List Value
  append_recent since out [] = out
  append_recent since out (x ∷ xs) =
      append_recent since (if is_recent since x then out ++ x ∷ [] else out) xs

  unfoldable pub get_history_json : Double → Resource → List Value → List Value
  unfolding append_recent
  get_history_json since r out = append_recent since out (reverse r.v)

  -- Ressource::getHistory(double). `splitted` is true until a value is written.
  unfoldable pub write_recent : Double → Str → Bool → List Value → Str
  write_recent since out splitted [] = out
  write_recent since out splitted (x ∷ xs) =
      let skipped = write_recent since out splitted xs in
      let written =
        write_recent since ((if splitted then out else out ++ codes ",\n") ++ show x) false xs in
      if is_recent since x then written else skipped

  unfoldable pub get_history : Double → Resource → Str
  unfolding write_recent
  get_history since r = write_recent since (codes "[\n") true (reverse r.v) ++ codes "\n]\n"
