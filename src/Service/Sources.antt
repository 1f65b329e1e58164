-- ===== src/Service/Sources.antt =====
-- The sockets of a service as a map from sources: setSocket inserts, updateFrom overrides.
use watched_agent.Base.{
  ◌+◌, Bool, true, false, ◌||◌, List, [], ◌∷◌, ◌++◌, ◌≡◌, refl, arith, if◌then◌else◌, any, first,
  erase_first, any-append, Option, none, some, Str, str_eq, str_eq_iff, length, drop, length-append,
  append_assoc, take-append, drop-append, codes,
}
use watched_agent.Text.Find.{Lacks, find_char-append, rfind_char-append}
use watched_agent.Socket.{Socket, get_source}
use watched_agent.Service.{
  Service, has_source, have_source, set_socket, uniq_key, replace, renew_socket, renew_sockets,
}

-- No two sockets have one source.
abbrev pub DistinctSources : List Socket → Type 0
DistinctSources [] = Unit
DistinctSources (k ∷ ks) = (any (has_source (get_source k)) ks ≡ false) × DistinctSources ks

any-has_source_eq :
    (a b : Str) (ks : List Socket)
    → str_eq a b ≡ true
    → any (has_source a) ks ≡ any (has_source b) ks
any-has_source_eq a b ks h = ground (arith, str_eq_iff a b)

DistinctSources-append :
    (ks : List Socket) (k : Socket)
    → DistinctSources ks
    → any (has_source (get_source k)) ks ≡ false
    → DistinctSources (ks ++ k ∷ [])
DistinctSources-append [] k d h = (refl, tt)
DistinctSources-append (x ∷ ks) k d h = ground (
  arith,
  DistinctSources-append ks k,
  any-append (has_source (get_source x)) ks (k ∷ []),
  str_eq_iff (get_source x) (get_source k),
  str_eq_iff (get_source k) (get_source x),
)

-- setSocket adds the source of the socket and forgets none.
pub have_source-set_socket :
    (k : Socket) (s : Service) (source : Str)
    → have_source (set_socket k s) source ≡ (have_source s source || str_eq (get_source k) source)
unfolding have_source set_socket
have_source-set_socket k s source = ground (
  arith,
  any-append (has_source source) s.sockets (k ∷ []),
  any-has_source_eq (get_source k) source s.sockets,
)

set_socket-Distinct :
    (k : Socket) (s : Service)
    → DistinctSources s.sockets
    → DistinctSources (set_socket k s).sockets
unfolding set_socket
set_socket-Distinct k s d = ground (arith, DistinctSources-append s.sockets k d)

any-erase_first :
    (source : Str) (p : Socket → Bool) (ks : List Socket)
    → any p (erase_first (has_source source) ks) ≡ true
    → any p ks ≡ true
any-erase_first source p [] h = h
any-erase_first source p (x ∷ ks) h = ground (arith, any-erase_first source p ks)

erase_first-Distinct :
    (source : Str) (ks : List Socket)
    → DistinctSources ks
    → DistinctSources (erase_first (has_source source) ks)
erase_first-Distinct source [] d = tt
erase_first-Distinct source (x ∷ ks) d =
    ground
      (arith, erase_first-Distinct source ks, any-erase_first source (has_source (get_source x)) ks)

-- After the erasure no socket has the source.
any-erase_first_self :
    (source : Str) (ks : List Socket)
    → DistinctSources ks
    → any (has_source source) (erase_first (has_source source) ks) ≡ false
any-erase_first_self source [] d = refl
any-erase_first_self source (x ∷ ks) d =
    ground (arith, any-erase_first_self source ks, any-has_source_eq (get_source x) source ks)

-- The socket of a source.
abbrev pub find_source : List Socket → Str → Option Socket
find_source ks source = first (has_source source) ks

find_source-erase_first :
    (a b : Str) (ks : List Socket)
    → str_eq a b ≡ false
    → find_source (erase_first (has_source a) ks) b ≡ find_source ks b
find_source-erase_first a b [] h = refl
find_source-erase_first a b (x ∷ ks) h = ground (
  arith,
  find_source-erase_first a b ks h,
  str_eq_iff (get_source x) a,
  str_eq_iff (get_source x) b,
  str_eq_iff a b,
)

find_source-append :
    (ks : List Socket) (k : Socket) (source : Str)
    → find_source (ks ++ k ∷ []) source ≡ elim (find_source ks source) [
      | some j ↦ some j
      | none ↦ if str_eq (get_source k) source then some k else none
    ]
find_source-append [] k source = ground arith
find_source-append (x ∷ ks) k source = ground (arith, find_source-append ks k source)

find_source-none :
    (ks : List Socket) (source : Str)
    → any (has_source source) ks ≡ false
    → find_source ks source ≡ none
find_source-none [] source h = refl
find_source-none (x ∷ ks) source h = ground (arith, find_source-none ks source)

find_source_eq :
    (a b : Str) (ks : List Socket) → str_eq a b ≡ true → find_source ks a ≡ find_source ks b
find_source_eq a b ks h = ground (arith, str_eq_iff a b)

sockets-renew_socket :
    (k : Socket) (s : Service)
    → DistinctSources s.sockets
    → (renew_socket k s).sockets ≡ erase_first (has_source (get_source k)) s.sockets ++ k ∷ []
unfolding renew_socket set_socket
sockets-renew_socket k s d = ground (arith, any-erase_first_self (get_source k) s.sockets d)

find_source-renew_socket :
    (k : Socket) (s : Service) (source : Str)
    → DistinctSources s.sockets
    → find_source (renew_socket k s).sockets source
      ≡ (if str_eq (get_source k) source then some k else find_source s.sockets source)
find_source-renew_socket k s source d =
    let rest = erase_first (has_source (get_source k)) s.sockets in
    rw (sockets-renew_socket k s d) (
      ground (
        arith,
        find_source-append rest k source,
        find_source-none rest (get_source k) (any-erase_first_self (get_source k) s.sockets d),
        find_source_eq (get_source k) source rest,
        find_source-erase_first (get_source k) source s.sockets,
      ))

renew_socket-Distinct :
    (k : Socket) (s : Service)
    → DistinctSources s.sockets
    → DistinctSources (renew_socket k s).sockets
unfolding renew_socket
renew_socket-Distinct k s d =
    set_socket-Distinct k (record s { sockets = erase_first (has_source (get_source k)) s.sockets })
      (erase_first-Distinct (get_source k) s.sockets d)

-- The second loop of updateFrom overrides, when neither the new sockets nor those of the service
-- have one source twice: a source among the new sockets now has the new socket, with its new
-- inode, and every other source has the socket that it had. The sources stay distinct.
find_source-renew_sockets :
    (ks : List Socket) (s : Service) (source : Str)
    → DistinctSources ks
    → DistinctSources s.sockets
    → (find_source (renew_sockets ks s).sockets source
        ≡ elim (find_source ks source) [ some k ↦ some k | none ↦ find_source s.sockets source ])
      × DistinctSources (renew_sockets ks s).sockets
unfolding renew_sockets
find_source-renew_sockets [] s source dk d = (refl, d)
find_source-renew_sockets (k ∷ ks) s source dk d =
    let ih =
      find_source-renew_sockets ks (renew_socket k s) source dk.1 (renew_socket-Distinct k s d) in
    (
      ground (
        arith,
        ih.0,
        find_source-renew_socket k s source d,
        find_source-none ks (get_source k) dk.0,
        find_source_eq (get_source k) source ks,
      ),
      ih.1,
    )

replace-append :
    (xs ys zs t : Str) → replace (xs ++ (ys ++ zs)) (length xs) (length ys) t ≡ xs ++ (t ++ zs)
unfolding replace
replace-append xs ys zs t =
    let e : drop (length xs + length ys) (xs ++ (ys ++ zs)) ≡ zs =
      rw (← length-append xs ys, ← append_assoc xs ys zs) (drop-append (xs ++ ys) zs) in
    rw (take-append xs (ys ++ zs), e)

-- For a type and a port with no colon in them, the key of a service is its first source with both
-- separators replaced by an underscore.
uniq_key-text :
    (t host port : Str)
    → Lacks b':' t
    → Lacks b':' port
    → uniq_key (t ++ b':' ∷ b'/' ∷ b'/' ∷ (host ++ b':' ∷ port)) ≡ t ++ b'_' ∷ (host ++ b'_' ∷ port)
unfolding uniq_key
uniq_key-text t host port lt lp =
    let front = t ++ b'_' ∷ host in
    let e : t ++ b'_' ∷ (host ++ b':' ∷ port) ≡ front ++ b':' ∷ port = simp append_assoc in
    rw
      (
        find_char-append b':' t (b'/' ∷ b'/' ∷ (host ++ b':' ∷ port)) lt,
        replace-append t (codes "://") (host ++ b':' ∷ port) (codes "_"),
        e,
        rfind_char-append b':' front port lp,
        replace-append front (codes ":") port (codes "_"),
      )
      (append_assoc t (b'_' ∷ host) (b'_' ∷ port))
