-- ===== src/Tests/Routes.antt =====
-- Inputs for the document of the routes.
use watched_agent.Base.{
  ℕ, ◌∷◌, [], true, none, ◌==◌, ◌≡◌, refl, arith, ◌++◌, All, Str, codes, str_eq,
}
use watched_agent.Json.Paths.{Indexed}
use watched_agent.Swagger.{Description, Described, get_paths, get_definitions, is_enabled}
use watched_agent.Swagger.Refers.{reference}
use watched_agent.Swagger.Defined.{get_paths-get_definitions, IsObject}
use watched_agent.Tests.Document.{
  Tree, Fields, document, get_tree, put_tree, find_field, has_tree, tree_is_map, get-put_tree,
  map-put_tree, null_tree, tree_absent,
}

-- An element of an array is a member whose name is one number.
str_eq_one : (i j : ℕ) → str_eq (i ∷ []) (j ∷ []) ≡ (i == j)
unfolding str_eq
str_eq_one i j = ground arith

abbrev elements : Indexed document
elements = record {
  get_at = λ i. get_tree (i ∷ []);
  put_at = λ i. put_tree (i ∷ []);
  is_list = tree_is_map;
  is_list_null = null_tree.0;
  is_list-put_at = λ i x v. map-put_tree (i ∷ []) x v;
  get_at_null = λ i. tree_absent (i ∷ []) Tree.nil (null_tree.1 (i ∷ []));
  get_at-put_at = λ j i x v h. rw (get-put_tree (j ∷ []) (i ∷ []) x v h, str_eq_one i j) refl;
}

abbrev load_texts : Description
load_texts = record {
  type_name = codes "cpuload-load";
  texts = (codes "avg1", codes "Load of one minute") ∷ [];
  types = (codes "avg1", codes "number") ∷ [];
}

abbrev shown : Described document elements
shown = record {
  collector = record {
    cfg = Tree.fields (Fields.field (codes "enable") (Tree.flag true) Fields.stop);
    name = codes "cpuload";
    base_path = codes "/system/";
    service = none;
    resources = [];
    desc = (codes "load", codes "Load") ∷ [];
  };
  resources = (codes "load", load_texts) ∷ [];
  host = codes "http://localhost:9080";
}

get_paths-get_definitions_example :
    All
      (λ (e : Str × Description).
        reference document elements shown (get_paths document elements shown Tree.nil) e
        ≡ Tree.text (codes "#/definitions/" ++ e.1.type_name))
      shown.resources
    × All
        (λ (e : Str × Description).
          IsObject document elements
            (get_definitions document elements shown Tree.nil)
            e.1.type_name)
        shown.resources
unfolding get_tree tree_is_map is_enabled find_field has_tree str_eq
get_paths-get_definitions_example =
    get_paths-get_definitions document elements shown Tree.nil Tree.nil refl refl (refl, λ k. refl)
      (refl, tt) (refl, tt)
