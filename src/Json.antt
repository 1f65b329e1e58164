-- ===== src/Json.antt =====
-- The part of the library jsoncpp that the agent uses, as an interface: the code of the library is
-- not in this repository. The laws are the library's documented behaviour, on values that are null
-- or an object, and those where a type is read back as it was written.
pub mod Paths
use watched_agent.Base.{ℕ, Bool, true, false, ◌||◌, ◌≡◌, if◌then◌else◌, Str, str_eq}

pub record Json : Type 1 where
  pub Value : Type 0
  pub Double : Type 0
  -- Json::Value() and Json::Value(Json::objectValue)
  pub null : Value
  pub object : Value
  -- v.isMember(k), v[k], and v after v[k] = x
  pub is_member : Str → Value → Bool
  pub get : Str → Value → Value
  pub put : Str → Value → Value → Value
  -- v is null or an object, so that v[k] is allowed.
  pub is_map : Value → Bool
  pub of_ℕ : ℕ → Value
  pub of_bool : Bool → Value
  pub of_str : Str → Value
  pub of_double : Double → Value
  pub as_ℕ : Value → ℕ
  pub as_bool : Value → Bool
  pub as_str : Value → Str
  pub as_double : Value → Double
  -- v >= since, a + b, a * b and a / b on double, and the conversion of an unsigned number.
  pub at_least : Double → Double → Bool
  pub add : Double → Double → Double
  pub mul : Double → Double → Double
  pub div : Double → Double → Double
  pub double_of : ℕ → Double
  -- out << v
  pub show : Value → Str
  pub is_map_null : is_map null ≡ true
  pub is_map_object : is_map object ≡ true
  pub is_map-put : (k : Str) (x v : Value) → is_map (put k x v) ≡ true
  pub get_absent : (k : Str) (v : Value) → is_member k v ≡ false → get k v ≡ null
  pub member_null : (k : Str) → is_member k null ≡ false
  pub member_object : (k : Str) → is_member k object ≡ false
  pub get-put :
      (j k : Str) (x v : Value)
      → is_map v ≡ true
      → get j (put k x v) ≡ (if str_eq k j then x else get j v)
  pub member-put :
      (j k : Str) (x v : Value)
      → is_map v ≡ true
      → is_member j (put k x v) ≡ (str_eq k j || is_member j v)
  pub as_ℕ-of_ℕ : (n : ℕ) → as_ℕ (of_ℕ n) ≡ n
  pub as_bool-of_bool : (b : Bool) → as_bool (of_bool b) ≡ b
  pub as_str-of_str : (s : Str) → as_str (of_str s) ≡ s
  pub as_double-of_double : (d : Double) → as_double (of_double d) ≡ d
