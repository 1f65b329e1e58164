-- ===== src/Manager/Detector.antt =====
-- Class socketDetector of src/servicesManager.cpp.
use watched_agent.Base.{
  ℕ, Bool, false, ◌&&◌, ◌||◌, not, List, [], ◌∷◌, ◌++◌, Option, none, some, if◌then◌else◌, Str,
  str_eq, any, all, first, codes, take, leb, ◌>>=◌,
}
use watched_agent.Socket.{Socket, SockAddr, words, token, atoi_u32, from_line, is_loop_back}
use watched_agent.Process.{Os, Process, from_pid, set_sockets, have_inode, get_ppid}
use watched_agent.Service.{
  Service, new_service, set_socket, add_main_process, have_socket, have_pid, has_pid,
}
use watched_agent.Manager.{Enhancer, add_service, update_first, any_pid, handle_sub_process}

-- An entry of the configuration's blackList; a member that is missing is `none`.
pub record Rule : Type 0 where
  pub interface : Option Str
  pub path : Option Str
  pub name : Option Str

-- One round of the loop of matchList: a name decides over a path.
unfoldable pub line_matched : Process → Rule → Bool
line_matched p r = elim r.name [
  | some name ↦ str_eq p.base_name name
  | none ↦ elim r.path [ some path ↦ str_eq p.full_path path | none ↦ false ]
]

-- socketDetector::matchList
unfoldable pub match_list : Process → List Rule → Bool
match_list p rules = any (line_matched p) rules

unfoldable pub names_loopback : Rule → Bool
names_loopback r = elim r.interface [ none ↦ false | some i ↦ str_eq i (codes "loopback") ]

-- A line whose state is neither LISTEN for TCP nor an open UDP socket is skipped.
unfoldable pub is_skipped : Str → Str → Bool
is_skipped type state =
    (not (str_eq state (codes "0A")) && str_eq (take 3 type) (codes "tcp"))
    || (not (str_eq state (codes "07")) && str_eq (take 3 type) (codes "udp"))

-- The loop over the lines of one file. `none` is a read out of bounds or an exception.
unfoldable pub read_lines : SockAddr → Bool → Str → List Str → List Socket → Option (List Socket)
read_lines raw ignore type [] out = some out
read_lines raw ignore type (line ∷ lines) out =
    let next = λ (o : List Socket). read_lines raw ignore type lines o in
    do
      state ← token (words line) 3
      if is_skipped type state then next out else do
        s ← from_line raw line type
        if ignore && is_loop_back s then next out else next (out ++ s ∷ [])

-- The loop over the four files, in the order of std::map.
unfoldable pub listening : Os → SockAddr → List Rule → Option (List Socket)
unfolding read_lines
listening os raw rules = do
  let ignore = any names_loopback rules
  a ← read_lines raw ignore (codes "tcp") (os.net_lines (codes "tcp")) []
  b ← read_lines raw ignore (codes "tcp6") (os.net_lines (codes "tcp6")) a
  c ← read_lines raw ignore (codes "udp") (os.net_lines (codes "udp")) b
  read_lines raw ignore (codes "udp6") (os.net_lines (codes "udp6")) c

-- The loops that associate the open sockets of a service with it.
unfoldable pub gather_sockets : Os → List Socket → Service → Service
gather_sockets os [] s = s
gather_sockets os (k ∷ ks) s =
    gather_sockets os ks (if have_socket os s k.id then set_socket k s else s)

unfoldable pub refresh_first : Os → ℕ → List Process → List Process
refresh_first os pid [] = []
refresh_first os pid (p ∷ ps) =
    if has_pid pid p then set_sockets os p ∷ ps else p ∷ refresh_first os pid ps

-- serv->getProcess(pid)->setSockets(), on the process in its place.
unfoldable pub refresh_process : Os → ℕ → Service → Service
refresh_process os pid s =
    if any (has_pid pid) s.main_process
    then record s { main_process = refresh_first os pid s.main_process }
    else record s { sub_process = refresh_first os pid s.sub_process }

-- What a visit does to the service of a process.
unfoldable pub refresh_service : Os → List Socket → ℕ → Service → Service
refresh_service os sockets pid s = gather_sockets os sockets (refresh_process os pid s)

-- The service that is made for a process with its first socket.
unfoldable pub make_service : Os → Str → List Socket → Process → Socket → Service
make_service os host sockets p k =
    gather_sockets os sockets (add_main_process os p (set_socket k (new_service host)))

-- What find works with: the system, the plugins, the name of the host, the listening sockets and
-- the black list.
pub record Search : Type 0 where
  pub os : Os
  pub enhancers : List Enhancer
  pub host : Str
  pub sockets : List Socket
  pub rules : List Rule

-- The branch for a process that no service has.
unfoldable pub try_process : Search → Process → List Service → List Service
try_process f p ss = elim (first (λ (k : Socket). have_inode p.sockets k.id) f.sockets) [
  | none ↦ ss
  | some k ↦ add_service f.os f.enhancers (make_service f.os f.host f.sockets p k) ss
]

-- The branch for a process of a service: the first service that has it is the one refreshed.
unfoldable pub refresh_known : Search → ℕ → List Service → List Service
refresh_known f pid ss =
    elim (update_first (λ s. have_pid s pid) (refresh_service f.os f.sockets pid) ss) [
      | some ss' ↦ ss'
      | none ↦ ss
    ]

-- One round of the loop over /proc, at a directory that is a number.
unfoldable pub visit_pid : Search → ℕ → List Service → List Service
visit_pid f pid ss =
    let p = from_pid f.os pid in
    if any_pid ss pid
    then refresh_known f pid ss
    else if any_pid ss (get_ppid f.os pid)
    then handle_sub_process f.os p ss
    else if match_list p f.rules
    then ss
    else try_process f (set_sockets f.os p) ss

-- std::all_of(file.begin(), file.end(), ::isdigit)
unfoldable pub is_number : Str → Bool
is_number name = all (λ c. leb 48 c && leb c 57) name

unfoldable pub visit_all : Search → List Str → List Service → List Service
visit_all f [] ss = ss
visit_all f (name ∷ names) ss =
    visit_all f names (if is_number name then visit_pid f (atoi_u32 name) ss else ss)

-- socketDetector::find behind the reading of the sockets.
unfoldable pub find_services : Search → List Service → List Service
find_services f ss = elim f.sockets [
  | [] ↦ ss
  | k ∷ ks ↦ elim f.os.proc_entries [ none ↦ ss | some names ↦ visit_all f names ss ]
]

-- socketDetector::find
unfoldable pub detect :
    Os → SockAddr → List Enhancer → Str → List Rule → List Service → Option (List Service)
detect os raw enhancers host rules ss = do
  sockets ← listening os raw rules
  some (
      find_services
        (record { os = os; enhancers = enhancers; host = host; sockets = sockets; rules = rules })
        ss)
