-- ===== src/Tests/Document.antt =====
-- A JSON document whose numbers are natural, which shows that the laws of Json can hold.
use watched_agent.Base.{
  ℕ, ◌+◌, ◌*◌, ◌/◌, Bool, true, false, ◌||◌, [], ◌≡◌, refl, arith, if◌then◌else◌, Str, str_eq,
  str_eq_iff, leb, codes,
}
use watched_agent.Text.{to_string}
use watched_agent.Json.{Json}

mutual
  pub data Tree : Type 0 where
    nil : Tree
    number : ℕ → Tree
    flag : Bool → Tree
    text : Str → Tree
    fields : Fields → Tree

  pub data Fields : Type 0 where
    stop : Fields
    field : Str → Tree → Fields → Fields

unfoldable pub find_field : Str → Fields → Tree
find_field k stop = Tree.nil
find_field k (Fields.field j x fs) = if str_eq j k then x else find_field k fs

unfoldable pub has_field : Str → Fields → Bool
has_field k stop = false
has_field k (Fields.field j x fs) = str_eq j k || has_field k fs

unfoldable pub set_field : Str → Tree → Fields → Fields
set_field k x stop = Fields.field k x Fields.stop
set_field k x (Fields.field j y fs) =
    if str_eq j k then Fields.field j x fs else Fields.field j y (set_field k x fs)

unfoldable pub get_tree : Str → Tree → Tree
get_tree k (Tree.fields fs) = find_field k fs
get_tree k _ = Tree.nil

unfoldable pub has_tree : Str → Tree → Bool
has_tree k (Tree.fields fs) = has_field k fs
has_tree k _ = false

unfoldable pub put_tree : Str → Tree → Tree → Tree
put_tree k x (Tree.fields fs) = Tree.fields (set_field k x fs)
put_tree k x _ = Tree.fields (Fields.field k x Fields.stop)

unfoldable pub tree_is_map : Tree → Bool
tree_is_map (Tree.fields fs) = true
tree_is_map nil = true
tree_is_map _ = false

abbrev tree_ℕ : Tree → ℕ
tree_ℕ (Tree.number n) = n
tree_ℕ _ = 0

abbrev tree_bool : Tree → Bool
tree_bool (Tree.flag b) = b
tree_bool _ = false

abbrev tree_str : Tree → Str
tree_str (Tree.text s) = s
tree_str _ = []

abbrev show_tree : Tree → Str
show_tree (Tree.number n) = to_string n
show_tree _ = codes "{}"

find_field-absent : (k : Str) (fs : Fields) → has_field k fs ≡ false → find_field k fs ≡ Tree.nil
unfolding find_field has_field
find_field-absent k stop h = refl
find_field-absent k (Fields.field j x fs) h = ground (arith, find_field-absent k fs)

find-set :
    (j k : Str) (x : Tree) (fs : Fields)
    → find_field j (set_field k x fs) ≡ (if str_eq k j then x else find_field j fs)
unfolding find_field set_field
find-set j k x stop = refl
find-set j k x (Fields.field i y fs) =
    ground (arith, find-set j k x fs, str_eq_iff i k, str_eq_iff i j, str_eq_iff k j)

has-set :
    (j k : Str) (x : Tree) (fs : Fields)
    → has_field j (set_field k x fs) ≡ (str_eq k j || has_field j fs)
unfolding has_field set_field
has-set j k x stop = refl
has-set j k x (Fields.field i y fs) =
    ground (arith, has-set j k x fs, str_eq_iff i k, str_eq_iff i j, str_eq_iff k j)

pub tree_absent : (k : Str) (v : Tree) → has_tree k v ≡ false → get_tree k v ≡ Tree.nil
unfolding get_tree has_tree
tree_absent k (Tree.fields fs) h = find_field-absent k fs h
tree_absent k nil h = refl
tree_absent k (Tree.number n) h = refl
tree_absent k (Tree.flag b) h = refl
tree_absent k (Tree.text s) h = refl

pub get-put_tree :
    (j k : Str) (x v : Tree)
    → tree_is_map v ≡ true
    → get_tree j (put_tree k x v) ≡ (if str_eq k j then x else get_tree j v)
unfolding get_tree put_tree find_field tree_is_map
get-put_tree j k x (Tree.fields fs) h = find-set j k x fs
get-put_tree j k x nil h = refl
get-put_tree j k x (Tree.number n) h = absurd (ground arith)
get-put_tree j k x (Tree.flag b) h = absurd (ground arith)
get-put_tree j k x (Tree.text s) h = absurd (ground arith)

pub has-put_tree :
    (j k : Str) (x v : Tree)
    → tree_is_map v ≡ true
    → has_tree j (put_tree k x v) ≡ (str_eq k j || has_tree j v)
unfolding has_tree put_tree has_field tree_is_map
has-put_tree j k x (Tree.fields fs) h = has-set j k x fs
has-put_tree j k x nil h = refl
has-put_tree j k x (Tree.number n) h = absurd (ground arith)
has-put_tree j k x (Tree.flag b) h = absurd (ground arith)
has-put_tree j k x (Tree.text s) h = absurd (ground arith)

pub map-put_tree : (k : Str) (x v : Tree) → tree_is_map (put_tree k x v) ≡ true
unfolding put_tree tree_is_map
map-put_tree k x (Tree.fields fs) = refl
map-put_tree k x nil = refl
map-put_tree k x (Tree.number n) = refl
map-put_tree k x (Tree.flag b) = refl
map-put_tree k x (Tree.text s) = refl

pub null_tree : (tree_is_map Tree.nil ≡ true) × ((k : Str) → has_tree k Tree.nil ≡ false)
unfolding tree_is_map has_tree
null_tree = (refl, λ k. refl)

pub no_fields :
    (tree_is_map (Tree.fields Fields.stop) ≡ true)
    × ((k : Str) → has_tree k (Tree.fields Fields.stop) ≡ false)
unfolding tree_is_map has_tree has_field
no_fields = (refl, λ k. refl)

abbrev pub document : Json
document = record {
  Value = Tree;
  Double = ℕ;
  null = Tree.nil;
  object = Tree.fields Fields.stop;
  is_member = has_tree;
  get = get_tree;
  put = put_tree;
  is_map = tree_is_map;
  of_ℕ = Tree.number;
  of_bool = Tree.flag;
  of_str = Tree.text;
  of_double = Tree.number;
  as_ℕ = tree_ℕ;
  as_bool = tree_bool;
  as_str = tree_str;
  as_double = tree_ℕ;
  at_least = λ a b. leb b a;
  add = λ a b. a + b;
  mul = λ a b. a * b;
  div = λ a b. a / b;
  double_of = λ n. n;
  show = show_tree;
  is_map_null = null_tree.0;
  is_map_object = no_fields.0;
  is_map-put = map-put_tree;
  get_absent = tree_absent;
  member_null = null_tree.1;
  member_object = no_fields.1;
  get-put = get-put_tree;
  member-put = has-put_tree;
  as_ℕ-of_ℕ = λ n. refl;
  as_bool-of_bool = λ b. refl;
  as_str-of_str = λ s. refl;
  as_double-of_double = λ d. refl;
}
