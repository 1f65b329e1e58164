-- ===== src/Process/Inodes.antt =====
-- What setSockets collects: each inode once, and exactly those of the socket links.
use watched_agent.Base.{
  ℕ, Bool, true, false, ◌||◌, ◌&&◌, not, List, [], ◌∷◌, ◌++◌, Option, none, some, ◌≡◌, refl, arith,
  ◌==◌, Str, any, Option-cases, inl, inr,
}
use watched_agent.Process.{
  Os, Process, have_inode, socket_inode, starts_with_dot, add_fd, add_fds, set_sockets,
}

-- The entry is a descriptor that links to the socket.
abbrev pub links_to : ℕ → Str × Option Str → Bool
links_to id (name, none) = false
links_to id (name, some link) =
    not (starts_with_dot name) && elim (socket_inode link) [ none ↦ false | some i ↦ i == id ]

-- No inode stands twice.
abbrev pub Distinct : List ℕ → Type 0
Distinct [] = Unit
Distinct (x ∷ xs) = (have_inode xs x ≡ false) × Distinct xs

have_inode-append :
    (xs : List ℕ) (y id : ℕ) → have_inode (xs ++ y ∷ []) id ≡ (have_inode xs id || (y == id))
unfolding have_inode
have_inode-append [] y id = ground arith
have_inode-append (x ∷ xs) y id = ground (arith, have_inode-append xs y id)

Distinct-append :
    (xs : List ℕ) (y : ℕ) → Distinct xs → have_inode xs y ≡ false → Distinct (xs ++ y ∷ [])
unfolding have_inode
Distinct-append [] y d h = (refl, tt)
Distinct-append (x ∷ xs) y d h = ground (arith, Distinct-append xs y, have_inode-append xs y x)

have_inode_eq : (xs : List ℕ) (a b : ℕ) → (a == b) ≡ true → have_inode xs a ≡ have_inode xs b
have_inode_eq xs a b h = ground arith

add_fd-have :
    (xs : List ℕ) (e : Str × Option Str) (id : ℕ)
    → have_inode (add_fd xs e) id ≡ (have_inode xs id || links_to id e)
unfolding add_fd
add_fd-have xs (name, none) id = ground arith
add_fd-have xs (name, some link) id = elim (Option-cases (socket_inode link)) [
  | inl e ↦ ground arith
  | inr (i, e) ↦ ground (arith, have_inode-append xs i id, have_inode_eq xs i id)
]

add_fd-Distinct : (xs : List ℕ) (e : Str × Option Str) → Distinct xs → Distinct (add_fd xs e)
unfolding add_fd
add_fd-Distinct xs (name, none) d = d
add_fd-Distinct xs (name, some link) d = elim (Option-cases (socket_inode link)) [
  | inl e ↦ ground arith
  | inr (i, e) ↦ ground (arith, Distinct-append xs i d)
]

add_fds-have :
    (xs : List ℕ) (es : List (Str × Option Str)) (id : ℕ)
    → have_inode (add_fds xs es) id ≡ (have_inode xs id || any (links_to id) es)
unfolding add_fds
add_fds-have xs [] id = ground arith
add_fds-have xs (e ∷ es) id = ground (arith, add_fds-have (add_fd xs e) es id, add_fd-have xs e id)

add_fds-Distinct :
    (xs : List ℕ) (es : List (Str × Option Str)) → Distinct xs → Distinct (add_fds xs es)
unfolding add_fds
add_fds-Distinct xs [] d = d
add_fds-Distinct xs (e ∷ es) d = add_fds-Distinct (add_fd xs e) es (add_fd-Distinct xs e d)

-- After setSockets, over a directory that can be opened, a process has an inode exactly when one of
-- its descriptors links to that socket, and no inode stands twice, whatever was known before.
pub set_sockets_exact :
    (os : Os) (p : Process) (es : List (Str × Option Str))
    → os.fds p.pid ≡ some es
    → ((id : ℕ) → have_inode (set_sockets os p).sockets id ≡ any (links_to id) es)
      × Distinct (set_sockets os p).sockets
unfolding set_sockets
set_sockets_exact os p es h = (
  λ id. rw (h, set_sockets) (unfold have_inode in (add_fds-have [] es id)),
  rw (h, set_sockets) (add_fds-Distinct [] es tt),
)
