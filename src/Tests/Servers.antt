-- ===== src/Tests/Servers.antt =====
-- Concrete runs of src/server.cpp.
use watched_agent.Base.{
  ℕ, ◌%◌, Bool, true, false, List, [], ◌∷◌, some, Str, length, codes, ◌≡◌, refl, arith,
}
use watched_agent.Server.{Files, good, resolve, is_directory, resource_send}
use watched_agent.Server.Sending.{resource_send-fuel}
use watched_agent.Server.Routes.{Call, regex, default, Query}

-- Every path is a regular file; the root's content is fixed, and a digest is one byte.
abbrev files : Files
files = record {
  stat = λ path. some 33188;
  content = λ path. some (codes "hello");
  reads = λ path. true;
  digest = λ bytes. length bytes % 256 ∷ [];
  length_error = codes "cannot create std::vector larger than max_size()";
}

abbrev never : ℕ → Bool
never k = false

opened : resolve files (codes "/www") (codes "a") ≡ good (codes "/www/a")
unfolding resolve is_directory
opened = refl

resource_send-fuel_example :
    resource_send never 0 6 2 (codes "hello") ≡ resource_send never 0 9 2 (codes "hello")
resource_send-fuel_example =
    resource_send-fuel 2 (omega arith) never 0 6 9 (codes "hello") (omega arith) (omega arith)

abbrev echo : List Str → Query → Str
echo args query = elim args [ [] ↦ [] | arg ∷ rest ↦ arg ]

abbrev calls : List Call
calls = regex (codes "GET") (codes "^/(.*)$") echo ∷ default (codes "GET") echo ∷ []
