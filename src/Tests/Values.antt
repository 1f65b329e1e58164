-- ===== src/Tests/Values.antt =====
-- Runs of the histories and the metrics, over a concrete JSON document.
use watched_agent.Base.{
  ◌+◌, ◌/◌, ◌%◌, ◌^◌, ◌≡◌, ◌∷◌, [], refl, arith, some, none, Str, codes, true, if◌then◌else◌,
  str_eq, lookup,
}
use watched_agent.Tests.Document.{Tree, Fields, document, tree_is_map, get_tree}
use watched_agent.Resource.{Resource}
use watched_agent.Resource.Values.{Tick, set_tick_value}
use watched_agent.Resource.Rates.{set_tick_value-wraps}
use watched_agent.Collector.{Collector}

abbrev pub value : Tree
value = Tree.fields (Fields.field (codes "timestamp") (Tree.number 5) Fields.stop)

value-is_map : tree_is_map value ≡ true
unfolding tree_is_map
value-is_map = refl

abbrev pub history : Resource document
history = record { v = value ∷ value ∷ []; size = 2 }

abbrev tick : Tick document
tick = record {
  res = record { v = value ∷ []; size = 2 };
  old = (codes "rbytes", 4294967290) ∷ [];
  freq = 5;
}

seen-rbytes : lookup str_eq (codes "rbytes") tick.old ≡ some (4294967290 % 2 ^ 32)
unfolding str_eq
seen-rbytes = refl

set_tick_value-wraps_example :
    (t' : Tick document) × (set_tick_value document
        (codes "rbytes")
        ((4294967290 + 20) % 2 ^ 32)
        tick
      ≡ some t')
    × ((y : Tree) × ((t'.res.v ≡ y ∷ []) × (get_tree (codes "rbytes") y ≡ Tree.number (20 / 5))))
    × ((k : Str)
        → lookup str_eq k t'.old ≡ (
            if str_eq (codes "rbytes") k
            then some ((4294967290 + 20) % 2 ^ 32)
            else lookup str_eq k tick.old))
set_tick_value-wraps_example =
    set_tick_value-wraps document (codes "rbytes") 4294967290 20 value [] 2 5
      ((codes "rbytes", 4294967290) ∷ []) value-is_map (omega arith) (omega arith) seen-rbytes

abbrev pub metrics : Collector document
metrics = record {
  cfg = value;
  name = codes "memory";
  base_path = codes "/system/";
  service = none;
  resources = (codes "swap", history) ∷ [];
  desc = [];
}
