-- ===== src/Tests/Templates.antt =====
-- A service that is written to a configuration and read again.
use watched_agent.Base.{Bool, true, false, List, [], ◌∷◌, some, ◌≡◌, refl, ap, codes}
use watched_agent.Service.{Service, new_service}
use watched_agent.Service.Template.{Arrays, set_default_config, from_file}
use watched_agent.Service.Template.Saved.{Restores, from_file-set_default_config}
use watched_agent.Tests.Document.{Tree, Fields, document, tree_is_map, has_tree, has_field}
use watched_agent.Tests.Sockets.{socket6, socket6-IsType, addr6-InRange}
use watched_agent.Tests.Processes.{system, server}

abbrev list_fields : List Tree → Fields
list_fields [] = Fields.stop
list_fields (x ∷ xs) = Fields.field [] x (list_fields xs)

abbrev field_values : Fields → List Tree
field_values Fields.stop = []
field_values (Fields.field k x fs) = x ∷ field_values fs

abbrev tree_elements : Tree → List Tree
tree_elements (Tree.fields fs) = field_values fs
tree_elements _ = []

abbrev tree_can_list : Tree → Bool
tree_can_list (Tree.fields fs) = true
tree_can_list Tree.nil = true
tree_can_list _ = false

pub elements-of_list_tree : (xs : List Tree) → tree_elements (Tree.fields (list_fields xs)) ≡ xs
elements-of_list_tree [] = refl
elements-of_list_tree (x ∷ xs) = ap (◌∷◌ x) (elements-of_list_tree xs)

abbrev pub lists : Arrays document
lists = record {
  elements = tree_elements;
  of_list = λ xs. Tree.fields (list_fields xs);
  can_list = tree_can_list;
  elements-of_list = elements-of_list_tree;
}

abbrev web6 : Service
web6 = record (new_service (codes "host")) {
  name = codes "nginx";
  uniq_name = codes "web";
  sockets = socket6 ∷ [];
  main_process = server ∷ [];
}

from_file-set_default_config_example :
    (out : Tree) × (set_default_config document lists web6 document.object ≡ some out)
    × Restores document lists system socket6
        (codes "localhost")
        web6
        (from_file document lists system socket6 (codes "localhost") (some out))
unfolding tree_is_map has_tree has_field
from_file-set_default_config_example =
    from_file-set_default_config document lists system socket6 (codes "localhost") web6
      document.object ((socket6-IsType, addr6-InRange), tt) (refl, tt) (refl, refl, refl)
