-- ===== src/Service.antt =====
-- Class service of src/services.cpp and include/services.h: the sockets and the processes of a
-- service, and the operations that change or search them. Shared pointers to processes and sockets
-- are values: no two services that the agent keeps share one.
pub mod Pids
pub mod Sources
pub mod Updates
pub mod Status
pub mod Views
pub mod Template
pub mod Plugged
use watched_agent.Base.{
  ℕ, ◌+◌, Bool, true, false, ◌&&◌, ◌||◌, not, List, [], ◌∷◌, ◌++◌, Option, none, some, ◌==◌,
  if◌then◌else◌, Str, length, take, drop, codes, str_eq, any, all, first, erase_first, keep_if, map,
}
use watched_agent.Text.{find_char, rfind_char}
use watched_agent.Socket.{Socket, get_source}
use watched_agent.Process.{Os, Process, have_inode, get_ppid}

-- `handler` is the service's handler, if there is one, by what its object keeps: the ID of a
-- systemdHandler, or the file of a handler in Lua.
pub record Service : Type 0 where
  pub name : Str
  pub host : Str
  pub type : Str
  pub sub_type : Str
  pub uniq_name : Str
  pub handler : Option Str
  pub sockets : List Socket
  pub main_process : List Process
  pub sub_process : List Process

-- service::service(p_server), over the name of the host that setDefaultHost finds.
unfoldable pub new_service : Str → Service
new_service host = record {
  name = [];
  host = host;
  type = codes "unknown";
  sub_type = [];
  uniq_name = [];
  handler = none;
  sockets = [];
  main_process = [];
  sub_process = [];
}

-- s.replace(pos, n, t), at a position in the text.
unfoldable pub replace : Str → ℕ → ℕ → Str → Str
replace s pos n t = take pos s ++ (t ++ drop (pos + n) s)

-- The key that setSocket makes of a source: both separators become an underscore.
unfoldable pub uniq_key : Str → Str
uniq_key source =
    let shown = replace source (find_char b':' source) 3 (codes "_") in
    replace shown (rfind_char b':' shown) 1 (codes "_")

unfoldable pub is_empty {ℓ} : {A : Type ℓ} → List A → Bool
is_empty [] = true
is_empty (x ∷ xs) = false

-- (*i)->getSource() == source
abbrev pub has_source : Str → Socket → Bool
has_source source k = str_eq (get_source k) source

-- service::haveSocket(p_source)
unfoldable pub have_source : Service → Str → Bool
have_source s source = any (has_source source) s.sockets

-- service::setSocket
unfoldable pub set_socket : Socket → Service → Service
unfolding is_empty
set_socket k s =
    let s' = record s {
      uniq_name =
          if is_empty s.sockets && is_empty s.uniq_name
          then uniq_key (get_source k)
          else s.uniq_name;
    } in
    if any (has_source (get_source k)) s.sockets
    then s'
    else record s' { sockets = s.sockets ++ k ∷ [] }

abbrev pub has_pid : ℕ → Process → Bool
has_pid pid p = p.pid == pid

-- service::addSubProcess
unfoldable pub add_sub_process : Process → Service → Service
add_sub_process p s =
    if any (has_pid p.pid) s.sub_process
    then s
    else record s { sub_process = s.sub_process ++ p ∷ [] }

unfoldable pub add_sub_processes : List Process → Service → Service
add_sub_processes [] s = s
add_sub_processes (p ∷ ps) s = add_sub_processes ps (add_sub_process p s)

-- (*i)->getPPID() == pid
abbrev pub is_child : Os → ℕ → Process → Bool
is_child os pid p = get_ppid os p.pid == pid

-- The loop that moves the children of a new main process to the subprocesses.
unfoldable pub adopt_children : Os → ℕ → Service → Service
adopt_children os pid s = record (add_sub_processes (keep_if (is_child os pid) s.main_process) s) {
  main_process = keep_if (λ p. not (is_child os pid p)) s.main_process;
}

unfoldable pub push_main : Process → Service → Service
push_main p s = record s { main_process = s.main_process ++ p ∷ [] }

-- service::addMainProcess
unfoldable pub name_after : Process → Service → Service
unfolding is_empty
name_after p s =
    if is_empty s.main_process && is_empty s.name then record s { name = p.base_name } else s

unfoldable pub add_main_process : Os → Process → Service → Service
add_main_process os p s =
    let t = name_after p s in
    if p.pid == 0
    then push_main p t
    else if any (has_pid (get_ppid os p.pid)) t.main_process
    then add_sub_process p t
    else push_main p (adopt_children os p.pid t)

-- A main process that has ended, with the path of the new one.
abbrev pub is_stale : Os → Str → Process → Bool
is_stale os path p = not (os.alive p.pid) && str_eq p.full_path path

-- service::updateMainProcess, and one round of the first loop of updateFrom.
unfoldable pub update_main_process : Os → Process → Service → Service
update_main_process os p s =
    add_main_process os p
      (record s { main_process = erase_first (is_stale os p.full_path) s.main_process })

unfoldable pub update_main_processes : Os → List Process → Service → Service
update_main_processes os [] s = s
update_main_processes os (p ∷ ps) s = update_main_processes os ps (update_main_process os p s)

-- One round of the second loop of updateFrom.
unfoldable pub renew_socket : Socket → Service → Service
renew_socket k s =
    set_socket k (record s { sockets = erase_first (has_source (get_source k)) s.sockets })

unfoldable pub renew_sockets : List Socket → Service → Service
renew_sockets [] s = s
renew_sockets (k ∷ ks) s = renew_sockets ks (renew_socket k s)

-- service::updateFrom, but for the configuration of the collectors.
unfoldable pub update_from : Os → Service → Service → Service
update_from os src s = renew_sockets src.sockets (update_main_processes os src.main_process s)

-- service::haveSocket(p_socket_id)
unfoldable pub have_socket : Os → Service → ℕ → Bool
have_socket os s id = any (λ p. os.alive p.pid && have_inode p.sockets id) s.main_process

-- service::havePID
unfoldable pub have_pid : Service → ℕ → Bool
have_pid s pid = any (has_pid pid) s.main_process || any (has_pid pid) s.sub_process

-- service::getProcess
unfoldable pub get_process : Service → ℕ → Option Process
get_process s pid = elim (first (has_pid pid) s.main_process) [
  | some p ↦ some p
  | none ↦ first (has_pid pid) s.sub_process
]

-- service::getMainProcess
unfoldable pub get_main_process : Service → Option Process
get_main_process s = first (λ p. true) s.main_process

-- service::getPIDs: forgets the subprocesses that have ended.
unfoldable pub get_pids : Os → Service → List ℕ × Service
get_pids os s =
    let alive = keep_if (λ (p : Process). os.alive p.pid) s.sub_process in
    (map (λ p. p.pid) s.main_process ++ map (λ p. p.pid) alive, record s { sub_process = alive })

-- service::needSocketFrom
unfoldable pub need_socket_from : Os → Service → Service → Bool
need_socket_from os s other =
    any (λ k. not (have_socket os s k.id) && any (has_source (get_source k)) other.sockets)
      s.sockets

-- service::operator==(const service&)
unfoldable pub same_service : Service → Service → Bool
same_service s other =
    str_eq s.name other.name
    && (str_eq s.type other.type && all (λ k. have_source other (get_source k)) s.sockets)

-- service::getID, and service::operator==(const std::string)
unfoldable pub get_id : Service → Str
get_id s = s.name ++ b'-' ∷ s.uniq_name

unfoldable pub is_id : Service → Str → Bool
unfolding get_id
is_id s id = str_eq id (get_id s)

-- service::isSelf
unfoldable pub is_self : ℕ → Service → Bool
is_self agent_pid s = have_pid s agent_pid
