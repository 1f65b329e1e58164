-- ===== src/Service/Views.antt =====
-- service::getJsonStatus and service::getIndexHtml: what the status pages say of a service.
use watched_agent.Base.{
  ℕ, ◌+◌, Bool, false, ◌&&◌, ◌||◌, not, List, [], ◌∷◌, Option, none, some, if◌then◌else◌, Str, any,
  ◌>>=◌,
}
use watched_agent.Socket.{Socket, get_source}
use watched_agent.Process.{Os, Process}
use watched_agent.Service.{Service, have_socket}

-- The statuses "ok", "failed" and "ok (blackout)".
pub data State : Type 0 where
  good failed blackout : State

pub record SocketEntry : Type 0 where
  pub name : Str
  pub status : State

-- `pid` is there for a process that runs only, as in the JSON object, whose members cwd and username
-- (Process/Owner) are left out.
pub record ProcessEntry : Type 0 where
  pub name : Str
  pub full_path : Str
  pub status : State
  pub pid : Option ℕ

pub record Status : Type 0 where
  pub sockets : List SocketEntry
  pub process : List ProcessEntry
  pub subprocess : List ProcessEntry
  pub host : Str
  pub name : Str
  pub type : Str
  pub sub_type : Str
  pub uniq_name : Str

-- Some socket is closed or some main process has ended.
unfoldable pub has_failure : Os → Service → Bool
has_failure os s =
    any (λ (k : Socket). not (have_socket os s k.id)) s.sockets
    || any (λ (p : Process). not (os.alive p.pid)) s.main_process

-- What isBlackout of a handler does with its service: the answer and the service as it leaves it.
-- `none` is an exception, which comes before any change.
abbrev pub Replies : Type 0
Replies = Str → Service → Option (Bool × Service)

-- The first lines of both functions: the handler is asked only after a failure.
unfoldable pub is_blackout : Replies → Os → Service → Option (Bool × Service)
unfolding has_failure
is_blackout replies os s =
    let asked : Option (Bool × Service) = elim s.handler [
      | none ↦ some (false, s)
      | some h ↦ replies h s
    ] in
    if has_failure os s then asked else some (false, s)

unfoldable pub state_of : Bool → Bool → State
state_of up black = if up then good else if black then blackout else failed

unfoldable pub socket_entries : Os → Service → Bool → List Socket → List SocketEntry
unfolding state_of
socket_entries os s black [] = []
socket_entries os s black (k ∷ ks) =
    record { name = get_source k; status = state_of (have_socket os s k.id) black }
    ∷ socket_entries os s black ks

unfoldable pub process_entries : Os → Bool → List Process → List ProcessEntry
unfolding state_of
process_entries os black [] = []
process_entries os black (p ∷ ps) =
    record {
      name = p.base_name;
      full_path = p.full_path;
      status = state_of (os.alive p.pid) black;
      pid = if os.alive p.pid then some p.pid else none;
    }
    ∷ process_entries os black ps

unfoldable pub subprocess_entries : Os → List Process → List ProcessEntry
subprocess_entries os [] = []
subprocess_entries os (p ∷ ps) =
    let rest = subprocess_entries os ps in
    if os.alive p.pid
    then record { name = p.base_name; full_path = p.full_path; status = good; pid = some p.pid }
      ∷ rest
    else rest

-- What getJsonStatus writes behind the question for a blackout.
unfoldable pub status_of : Os → Bool → Service → Status
status_of os black s = record {
  sockets = socket_entries os s black s.sockets;
  process = process_entries os black s.main_process;
  subprocess = subprocess_entries os s.sub_process;
  host = s.host;
  name = s.name;
  type = s.type;
  sub_type = s.sub_type;
  uniq_name = s.uniq_name;
}

-- service::getJsonStatus: the status and the service, which the handler may change.
unfoldable pub get_json_status : Replies → Os → Service → Option (Status × Service)
unfolding is_blackout status_of
get_json_status replies os s = is_blackout replies os s >>= λ r. some (status_of os r.0 r.1, r.1)

-- The counters ok and failed of getIndexHtml.
pub record Counts : Type 0 where
  pub ok : ℕ
  pub failed : ℕ

unfoldable pub count_up : Bool → Counts → Counts
count_up bad c = if bad then record c { failed = c.failed + 1 } else record c { ok = c.ok + 1 }

unfoldable pub count_sockets : Os → Service → Bool → List Socket → Counts → Counts
unfolding count_up
count_sockets os s black [] c = c
count_sockets os s black (k ∷ ks) c =
    count_sockets os s black ks (count_up (not (have_socket os s k.id) && not black) c)

unfoldable pub count_processes : Os → Bool → List Process → Counts → Counts
unfolding count_up
count_processes os black [] c = c
count_processes os black (p ∷ ps) c =
    count_processes os black ps (count_up (not (os.alive p.pid) && not black) c)

-- service::getIndexHtml, as the two counts from which it draws its bar.
unfoldable pub counts_of : Os → Bool → Service → Counts
counts_of os black s =
    count_processes os black s.main_process
      (count_sockets os s black s.sockets (record { ok = 0; failed = 0 }))

unfoldable pub get_index_counts : Replies → Os → Service → Option (Counts × Service)
unfolding is_blackout counts_of
get_index_counts replies os s = is_blackout replies os s >>= λ r. some (counts_of os r.0 r.1, r.1)
