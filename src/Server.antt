-- ===== src/Server.antt =====
-- src/server.cpp: the handler of static files, the tags of their contents, and the tables of
-- handlers. The two servers, with and without TLS, have the same code.
pub mod Sending
pub mod Tags
pub mod Routes
use watched_agent.Base.{
  ℕ, zero, suc, ◌+◌, ◌/◌, ◌%◌, Bool, true, false, ◌&&◌, not, List, [], ◌∷◌, ◌++◌, Option, none,
  some, if◌then◌else◌, Str, str_eq, ltb, ◌==◌, length, take, drop, codes, map,
}
use watched_agent.Text.{to_hex, to_string}

-- What the handler reads: the st_mode of stat, the bytes of a file that can be opened, whether the one
-- read of sha256 gets all of them, SHA256 of openssl, and what() of the exception of a vector of
-- size -1.
pub record Files : Type 0 where
  pub stat : Str → Option ℕ
  pub content : Str → Option Str
  pub reads : Str → Bool
  pub digest : Str → Str
  pub length_error : Str

-- A step that may throw, with the text of the exception.
pub data Try {ℓ} (A : Type ℓ) : Type ℓ where
  throw : Str → Try A
  good : A → Try A

-- One byte under std::hex, setw(2) and setfill('0').
unfoldable pub hex_byte : ℕ → Str
hex_byte b = let t = to_hex b in if ltb (length t) 2 then b'0' ∷ t else t

unfoldable pub hex_text : List ℕ → Str
hex_text [] = []
hex_text (b ∷ bs) = hex_byte b ++ hex_text bs

-- sha256: an empty text when the read fails.
unfoldable pub sha256 : Files → Str → Try Str
sha256 files path = elim (files.content path) [
  | none ↦ throw files.length_error
  | some bytes ↦ good (if files.reads path then hex_text (files.digest bytes) else [])
]

-- st_mode & S_IFDIR, which is 0040000.
unfoldable pub is_directory : ℕ → Bool
is_directory mode = mode / 16384 % 2 == 1

-- The path behind the two calls of stat.
unfoldable pub resolve : Files → Str → Str → Try Str
resolve files root path =
    let missing = throw (codes "file does not exist") in
    let asked = root ++ (codes "/" ++ path) in
    elim (files.stat asked) [
      | none ↦ missing
      | some mode ↦
          let p = if is_directory mode then asked ++ codes "/index.html" else asked in
          elim (files.stat p) [ none ↦ missing | some mode' ↦ good p ]
    ]

-- default_resource_send: the chunks that are written. `breaks` says which sends report an error.
unfoldable pub resource_send : (ℕ → Bool) → ℕ → ℕ → ℕ → Str → List Str
resource_send breaks i zero size rest = []
resource_send breaks i (suc fuel) size [] = []
resource_send breaks i (suc fuel) size (c ∷ rest) =
    let chunk = take size (c ∷ rest) in
    let more = resource_send breaks (i + 1) fuel size (drop size (c ∷ rest)) in
    chunk ∷ (if (length chunk == size) && not (breaks i) then more else [])

-- The response of the handler: a tag; a tag, a length and chunks; or an error text.
pub data Response : Type 0 where
  not_modified : Str → Response
  found : Str → ℕ → List Str → Response
  bad_request : Str → Response

unfoldable pub quote : Str → Str
quote s = codes "\"" ++ (s ++ codes "\"")

-- The header If-None-Match, if there is one, names this tag.
unfoldable pub is_known : Option Str → Str → Bool
unfolding quote
is_known none hash = false
is_known (some tag) hash = str_eq tag (quote hash)

abbrev pub buffer_size : ℕ
buffer_size = 131072

unfoldable pub send_file : Files → (ℕ → Bool) → Str → Str → Try Response
send_file files breaks path hash = elim (files.content path) [
  | none ↦ throw (codes "could not read file")
  | some bytes ↦
      good
        (found hash (length bytes) (resource_send breaks 0 (suc (length bytes)) buffer_size bytes))
]

unfoldable pub answer : Files → (ℕ → Bool) → Option Str → Str → Try Response
unfolding sha256
answer files breaks tag path = elim (sha256 files path) [
  | throw what ↦ throw what
  | good hash ↦
      if is_known tag hash then good (not_modified hash) else send_file files breaks path hash
]

unfoldable pub try_static : Files → (ℕ → Bool) → Str → Option Str → Str → Try Response
try_static files breaks root tag path = elim (resolve files root path) [
  | throw what ↦ throw what
  | good p ↦ answer files breaks tag p
]

unfoldable pub error_text : Str → Str → Str
error_text path what = codes "Could not open path " ++ (path ++ (codes ": " ++ what))

-- default_resource["GET"]
unfoldable pub get_static : Files → (ℕ → Bool) → Str → Option Str → Str → Response
get_static files breaks root tag path = elim (try_static files breaks root tag path) [
  | good r ↦ r
  | throw what ↦ bad_request (error_text path what)
]

unfoldable pub join : List Str → Str
join [] = []
join (s ∷ ss) = s ++ join ss

unfoldable pub found_head : Str → Str
found_head hash =
    codes "HTTP/1.1 200 OK\r\nCache-Control: max-age=86400\r\nETag: "
    ++ (quote hash ++ codes "\r\n")

-- The bytes of a response.
unfoldable pub render : Response → Str
unfolding join quote
render (not_modified hash) =
    codes "HTTP/1.1 304 Not Modified\r\nCache-Control: max-age=86400\r\nETag: "
    ++ (quote hash ++ codes "\r\n\r\n")
render (found hash size chunks) =
    found_head hash
    ++ (codes "Content-Length: " ++ (to_string size ++ (codes "\r\n\r\n" ++ join chunks)))
render (bad_request content) =
    codes "HTTP/1.1 400 Bad Request\r\nContent-Length: "
    ++ (to_string (length content) ++ (codes "\r\n\r\n" ++ content))

-- What on_error reads of a request.
pub record Peer : Type 0 where
  pub address : Str
  pub method : Str
  pub http_version : Str
  pub path : Str

-- http->on_error: the notice that is logged, none for a connection that was dropped before a request.
unfoldable pub on_error : Str → Peer → Option Str
on_error err req =
    if str_eq err (codes "Operation aborted.") && (str_eq req.path [] && str_eq req.http_version [])
    then none
    else some (
        err
        ++ (codes " for (R)"
            ++ (req.address
                ++ (codes " -> "
                    ++ (req.method
                        ++ (codes "(" ++ (req.http_version ++ (codes "):" ++ req.path))))))))
