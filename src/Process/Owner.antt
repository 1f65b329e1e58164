-- ===== src/Process/Owner.antt =====
-- process::getUsername and process::getCWD of src/services.cpp, with the members that cache what they
-- found. A read or a write out of bounds is `none`.
use watched_agent.Base.{
  ℕ, Bool, ◌||◌, not, List, [], ◌∷◌, Option, none, some, if◌then◌else◌, Str, str_eq, codes, length,
  leb, ◌>>=◌,
}
use watched_agent.Text.{to_string}
use watched_agent.Socket.{words, token, atoi_u32}
use watched_agent.Service.{is_empty}

-- What is read of a process: whether it runs, the lines of its status, and the link cwd.
pub record Runtime : Type 0 where
  pub alive : Bool
  pub status : Option (List Str)
  pub cwd : Option Str

-- The user's number in the first line Uid: of the status.
unfoldable pub find_uid : List Str → Option (Option ℕ)
find_uid [] = some none
find_uid (line ∷ lines) =
    let rest = find_uid lines in
    elim (words line) [
      | [] ↦ none
      | w ∷ ws ↦
          if str_eq w (codes "Uid:") then (token ws 0 >>= λ t. some (some (atoi_u32 t))) else rest
    ]

-- process::getUsername: what it returns, and the member behind it. `user` is getpwuid.
unfoldable pub get_username : (ℕ → Option Str) → Runtime → Str → Option (Str × Str)
unfolding find_uid
get_username user r name =
    if not (is_empty name) || not r.alive then some (name, name) else elim r.status [
      | none ↦ some (name, name)
      | some lines ↦ find_uid lines >>= λ found. elim found [
        | none ↦ some (name, name)
        | some uid ↦ elim (user uid) [
          | none ↦ some (to_string uid, name)
          | some known ↦ some (known, known)
        ]
      ]
    ]

-- process::getCWD: the buffer has 1024 bytes, and readlink may fill it.
unfoldable pub get_cwd : Runtime → Str → Option Str
get_cwd r cwd = if not (is_empty cwd) || not r.alive then some cwd else elim r.cwd [
  | none ↦ some cwd
  | some link ↦ if leb 1024 (length link) then none else some (if is_empty link then cwd else link)
]
