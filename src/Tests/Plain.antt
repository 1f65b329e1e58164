-- ===== src/Tests/Plain.antt =====
-- Inputs for the self collector.
use watched_agent.Base.{List, [], ◌∷◌, none, some, codes, Str, str_eq, lookup, ◌≡◌, refl, arith}
use watched_agent.Collector.Own.{Own, collect_self, live}
use watched_agent.Collector.Own.Shown.{collect_self-live, newest}
use watched_agent.Tests.Document.{Tree, document, get_tree, put_tree}

abbrev own : Own document
own = record {
  values = record { v = []; size = 2 };
  changes = record { res = record { v = []; size = 1 }; old = []; freq = 5 };
  counters = (codes "sockets_count", record { add = 3; del = 4 }) ∷ [];
}

collect_self-live_example :
    (o' : Own document) × (y : Tree) × (ys : List Tree) × (collect_self document (Tree.number 7) own
      ≡ some o')
    × (o'.values.v ≡ y ∷ ys)
    × ((k : Str)
        → get_tree k y ≡ elim (lookup str_eq k o'.counters) [
          | some c ↦ Tree.number (live c)
          | none ↦ get_tree k (put_tree (codes "timestamp") (Tree.number 7) (newest document []))
        ])
collect_self-live_example =
    collect_self-live document (Tree.number 7) own 1 0 refl refl (λ e. omega (arith, e)) (refl, tt)
