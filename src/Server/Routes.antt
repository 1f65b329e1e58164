-- ===== src/Server/Routes.antt =====
-- Class HttpServer of src/server.cpp: the choice of TLS, and the tables of handlers that setRegex and
-- setDefault fill. Simple-Web-Server matches a request with a regex and runs the handler.
pub mod Serving
use watched_agent.Json.{Json}
use watched_agent.Base.{
  ℕ, zero, suc, Bool, true, false, ◌&&◌, List, [], ◌∷◌, ◌++◌, Option, none, some, if◌then◌else◌,
  Str, str_eq, length, codes, lookup, insert, ◌>>=◌,
}

-- The parameters of a URL.
abbrev pub Query : Type 0
Query = List (Str × Str)

-- A handler: the one of static files, or one that makes a text of the match and the parameters.
pub data Handler : Type 0 where
  static : Handler
  page : (List Str → Query → Str) → Handler

-- The members `resource` and `default_resource` of a server of Simple-Web-Server.
pub record Tables : Type 0 where
  pub resource : List (Str × List (Str × Handler))
  pub default_resource : List (Str × Handler)

-- The two servers, of which nullptr is `none`.
pub record HttpServer : Type 0 where
  pub use_ssl : Bool
  pub https : Option Tables
  pub http : Option Tables

-- The tables of a server behind its constructor: static files for GET.
abbrev pub fresh : Tables
fresh = record { resource = []; default_resource = (codes "GET", Handler.static) ∷ [] }

module _ (json : Json) (exists : Str → Bool) where
  open json use {Value, get, as_bool, as_str}

  -- TLS is used if it is asked for and its three files are there.
  unfoldable pub use_tls : Value → Bool
  use_tls cfg =
      as_bool (get (codes "useSSL") cfg)
      && (exists (as_str (get (codes "SSL_cert") cfg))
          && (exists (as_str (get (codes "SSL_verify") cfg))
              && exists (as_str (get (codes "SSL_key") cfg))))

  -- HttpServer::HttpServer makes one of the two.
  unfoldable pub new_server : Value → HttpServer
  unfolding use_tls
  new_server cfg =
      if use_tls cfg
      then record { use_ssl = true; https = some fresh; http = none }
      else record { use_ssl = false; https = none; http = some fresh }

-- path_match[i], which is empty behind the last group.
unfoldable pub match_at : List Str → ℕ → Str
match_at [] i = []
match_at (m ∷ ms) zero = m
match_at (m ∷ ms) (suc i) = match_at ms i

-- The loop that copies the groups, from `i` on for `n` rounds.
unfoldable pub args_from : List Str → ℕ → ℕ → List Str
unfolding match_at
args_from ms i zero = []
args_from ms i (suc n) = match_at ms i ∷ args_from ms (suc i) n

unfoldable pub path_args : List Str → List Str
unfolding args_from
path_args ms = args_from ms 1 (length ms)

-- The handler that both functions store.
unfoldable pub wrap : (List Str → Query → Str) → Handler
wrap f = Handler.page (λ ms query. f (path_args ms) query)

unfoldable pub table_of : Str → List (Str × List (Str × Handler)) → List (Str × Handler)
table_of regex tables = elim (lookup str_eq regex tables) [ none ↦ [] | some table ↦ table ]

-- A change of the tables of the server with TLS, when it is used and there, else of those of the other
-- one, when it is there.
unfoldable pub with_tables : (Tables → Tables) → HttpServer → HttpServer
with_tables change s = elim (if s.use_ssl then s.https else none) [
  | some t ↦ record s { https = some (change t) }
  | none ↦ elim s.http [ none ↦ s | some t ↦ record s { http = some (change t) } ]
]

-- HttpServer::setRegex
unfoldable pub set_regex : Str → Str → (List Str → Query → Str) → HttpServer → HttpServer
unfolding with_tables
set_regex opt regex f s =
    with_tables
      (λ t. record t {
        resource =
            insert str_eq regex (insert str_eq opt (wrap f) (table_of regex t.resource)) t.resource;
      })
      s

-- HttpServer::setDefault
unfoldable pub set_default : Str → (List Str → Query → Str) → HttpServer → HttpServer
unfolding with_tables
set_default opt f s =
    with_tables (λ t. record t { default_resource = insert str_eq opt (wrap f) t.default_resource })
      s

-- HttpServer::start: the tables of the server that is started; `none` is a call on nullptr.
unfoldable pub started : HttpServer → Option Tables
started s = if s.use_ssl then s.https else s.http

-- The handler for a method: under a regex that the path matches, or the default one.
unfoldable pub handler_of : Tables → Option Str → Str → Option Handler
handler_of t none opt = lookup str_eq opt t.default_resource
handler_of t (some regex) opt = lookup str_eq opt (table_of regex t.resource)

-- What a handler sends for a match and the parameters of the URL.
pub data Sent : Type 0 where
  file : Sent
  text : Str → Sent

unfoldable pub sent_by : List Str → Query → Handler → Sent
sent_by ms query Handler.static = file
sent_by ms query (Handler.page f) = text (f ms query)

unfoldable pub serve : HttpServer → Option Str → Str → List Str → Query → Option Sent
unfolding started handler_of sent_by
serve s place opt ms query =
    started s >>= λ t. handler_of t place opt >>= λ h. some (sent_by ms query h)

-- A registration, and a run of them.
pub data Call : Type 0 where
  regex : Str → Str → (List Str → Query → Str) → Call
  default : Str → (List Str → Query → Str) → Call

unfoldable pub run : List Call → HttpServer → HttpServer
unfolding set_regex set_default
run [] s = s
run (regex opt pattern f ∷ calls) s = run calls (set_regex opt pattern f s)
run (default opt f ∷ calls) s = run calls (set_default opt f s)
