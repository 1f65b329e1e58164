-- ===== src/Process.antt =====
-- Class process of src/services.cpp and include/services.h, over what the kernel shows in /proc.
pub mod Parent
pub mod Inodes
pub mod Owner
use watched_agent.Base.{
  ℕ, ◌+◌, ◌-◌, Bool, true, false, ◌&&◌, ◌||◌, List, [], ◌∷◌, ◌++◌, Option, none, some, ltb, leb,
  ◌==◌, if◌then◌else◌, Str, length, take, drop, ◌≡◌, refl, codes, str_eq, any, ◌>>=◌, not,
}
use watched_agent.Text.{add_size, rfind_char}
use watched_agent.Socket.{words, token, atoi_u32}

-- What the agent reads of the system at one moment. An entry of a directory under /proc/[pid]/fd
-- is its name and what readlink gives for it.
pub record Os : Type 0 where
  pub alive : ℕ → Bool
  pub stat_line : ℕ → Option Str
  pub exe : ℕ → Option Str
  pub fds : ℕ → Option (List (Str × Option Str))
  pub file_exists : Str → Bool
  pub proc_entries : Option (List Str)
  pub net_lines : Str → List Str

-- The members username and cwd, which only cache what is shown to a client, are left out.
pub record Process : Type 0 where
  pub pid : ℕ
  pub full_path : Str
  pub base_name : Str
  pub sockets : List ℕ

-- full_path.substr(full_path.rfind("/")+1)
unfoldable pub base_name_of : Str → Str
base_name_of path = drop (add_size (rfind_char b'/' path) 1) path

-- A path whose last nine bytes are "(deleted)" loses ten.
unfoldable pub strip_deleted : Str → Str
unfolding str_eq
strip_deleted path =
    if ltb 9 (length path) && str_eq (drop (length path - 9) path) (codes "(deleted)")
    then take (length path - 10) path
    else path

-- process::process(p_pid)
unfoldable pub from_pid : Os → ℕ → Process
from_pid os pid = elim (os.exe pid) [
  | none ↦ record { pid = pid; full_path = []; base_name = []; sockets = [] }
  | some link ↦
      let path = strip_deleted link in
      record { pid = pid; full_path = path; base_name = base_name_of path; sockets = [] }
]

-- process::process(p_fullpath)
unfoldable pub from_path : Str → Process
from_path path = record { pid = 0; full_path = path; base_name = base_name_of path; sockets = [] }

-- tokens[3] of the line, as a number; `none` is a read out of bounds.
unfoldable pub ppid_field : Str → Option ℕ
ppid_field line = do t ← token (words line) 3; some (atoi_u32 t)

-- process::getPPID. A line of fewer than four words, a read out of bounds in the source, does not
-- come from the kernel, and counts as a line that is missing.
unfoldable pub get_ppid : Os → ℕ → ℕ
unfolding ppid_field
get_ppid os pid = elim (os.stat_line pid) [
  | none ↦ 0
  | some line ↦ elim (ppid_field line) [ none ↦ 0 | some n ↦ n ]
]

-- process::haveSocket
unfoldable pub have_inode : List ℕ → ℕ → Bool
have_inode sockets id = any (λ i. i == id) sockets

-- The inode of a link such as socket:[1234].
unfoldable pub socket_inode : Str → Option ℕ
unfolding str_eq atoi_u32
socket_inode link =
    if str_eq (take 8 link) (codes "socket:[") then some (atoi_u32 (drop 8 link)) else none

unfoldable pub starts_with_dot : Str → Bool
starts_with_dot [] = false
starts_with_dot (c ∷ s) = c == b'.'

-- One round of the loop of setSockets.
unfoldable pub add_fd : List ℕ → Str × Option Str → List ℕ
add_fd sockets (name, none) = sockets
add_fd sockets (name, some link) =
    if starts_with_dot name then sockets else elim (socket_inode link) [
      | none ↦ sockets
      | some id ↦ if have_inode sockets id then sockets else sockets ++ id ∷ []
    ]

unfoldable pub add_fds : List ℕ → List (Str × Option Str) → List ℕ
add_fds sockets [] = sockets
add_fds sockets (e ∷ es) = add_fds (add_fd sockets e) es

-- process::setSockets. A directory that cannot be opened leaves the inodes as they were.
unfoldable pub set_sockets : Os → Process → Process
set_sockets os p = elim (os.fds p.pid) [
  | none ↦ p
  | some entries ↦ record p { sockets = add_fds [] entries }
]

-- link.find(text) != npos
unfoldable pub starts_with : Str → Str → Bool
starts_with [] s = true
starts_with (c ∷ t) [] = false
starts_with (c ∷ t) (d ∷ s) = (c == d) && starts_with t s

unfoldable pub contains : Str → Str → Bool
unfolding starts_with
contains t [] = starts_with t []
contains t (d ∷ s) = starts_with t (d ∷ s) || contains t s

-- process::getOpenLogs: the files that are open, outside /dev, with log in their path.
unfoldable pub is_log : Os → Str × Option Str → Bool
is_log os (name, none) = false
is_log os (name, some link) =
    not (starts_with_dot name)
    && (not (str_eq (take 5 link) (codes "/dev/"))
        && (contains (codes "log") link && os.file_exists link))

unfoldable pub log_links : Os → List (Str × Option Str) → List Str
log_links os [] = []
log_links os ((name, none) ∷ es) = log_links os es
log_links os ((name, some link) ∷ es) =
    if is_log os (name, some link) then link ∷ log_links os es else log_links os es

unfoldable pub get_open_logs : Os → ℕ → List Str
unfolding log_links
get_open_logs os pid = elim (os.fds pid) [ none ↦ [] | some entries ↦ log_links os entries ]
