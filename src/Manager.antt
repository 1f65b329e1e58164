-- ===== src/Manager.antt =====
-- Class servicesManager and class socketDetector of src/servicesManager.cpp: the list of the
-- services, and how the agent finds new ones.
pub mod Detector
pub mod Joining
pub mod Finding
pub mod Logs
pub mod Searching
pub mod Collected
pub mod Settings
use watched_agent.Base.{
  ℕ, Bool, true, false, ◌&&◌, ◌||◌, not, List, [], ◌∷◌, ◌++◌, Option, none, some, if◌then◌else◌,
  Str, str_eq, any, first, codes, map, insert, ◌>>=◌,
}
use watched_agent.Process.{Os, Process, get_ppid}
use watched_agent.Service.{
  Service, same_service, need_socket_from, update_from, have_socket, have_pid, add_sub_process,
  get_id, is_id,
}
use watched_agent.Service.Views.{Status, Replies, get_json_status}

-- A serviceEnhancer: a plugin that may give a better service for one.
abbrev pub Enhancer : Type 0
Enhancer = Service → Option Service

-- The first loop of addService.
unfoldable pub enhance : List Enhancer → Service → Service
enhance [] s = s
enhance (e ∷ es) s = enhance es (elim (e s) [ none ↦ s | some s' ↦ s' ])

-- A loop that changes the first service that passes a test, and returns.
unfoldable pub update_first :
    (Service → Bool) → (Service → Service) → List Service → Option (List Service)
update_first p f [] = none
update_first p f (s ∷ ss) =
    let rest = update_first p f ss in
    if p s then some (f s ∷ ss) else elim rest [ none ↦ none | some ss' ↦ some (s ∷ ss') ]

-- servicesManager::addService behind its first loop.
unfoldable pub merge_service : Os → Service → List Service → List Service
merge_service os add ss = elim (update_first (same_service add) (update_from os add) ss) [
  | some ss' ↦ ss'
  | none ↦ elim (update_first (λ s. need_socket_from os s add) (update_from os add) ss) [
    | some ss' ↦ ss'
    | none ↦ ss ++ add ∷ []
  ]
]

-- servicesManager::addService, but for the file that it writes for a new service.
unfoldable pub add_service : Os → List Enhancer → Service → List Service → List Service
add_service os es s ss = merge_service os (enhance es s) ss

-- servicesManager::haveSocket, havePID and getService
unfoldable pub any_socket : Os → List Service → ℕ → Bool
any_socket os ss id = any (λ s. have_socket os s id) ss

unfoldable pub any_pid : List Service → ℕ → Bool
any_pid ss pid = any (λ s. have_pid s pid) ss

unfoldable pub get_service : List Service → ℕ → Option Service
get_service ss pid = first (λ s. have_pid s pid) ss

-- servicesManager::handleSubProcess
unfoldable pub handle_sub_process : Os → Process → List Service → List Service
handle_sub_process os p ss =
    elim (update_first (λ s. have_pid s (get_ppid os p.pid)) (add_sub_process p) ss) [
      | some ss' ↦ ss'
      | none ↦ ss
    ]

-- The document that doGetServiceStatus sends.
pub data Reply : Type 0 where
  every : List (Str × Status) → Reply
  one : Status → Reply
  failure : Str → Reply

-- The loop for the id "all": res[id] is set anew for each service. The reply and the services behind
-- it, which the handlers may change; no reply is an exception of a handler.
unfoldable pub id_statuses :
    Replies → Os → List Service → List (Str × Status) → Option (List (Str × Status)) × List Service
id_statuses replies os [] res = (some res, [])
id_statuses replies os (s ∷ ss) res = elim (get_json_status replies os s) [
  | none ↦ (none, s ∷ ss)
  | some r ↦
      let rest = id_statuses replies os ss (insert str_eq (get_id s) r.0 res) in
      (rest.0, r.1 ∷ rest.1)
]

-- servicesManager::doGetServiceStatus
unfoldable pub get_service_status : Replies → Os → List Service → Str → Option Reply × List Service
unfolding id_statuses
get_service_status replies os ss id =
    let all = id_statuses replies os ss [] in
    if str_eq id (codes "all")
    then (all.0 >>= λ statuses. some (every statuses), all.1)
    else elim (first (λ s. is_id s id) ss) [
      | none ↦ (some (failure (codes "No service matching '" ++ (id ++ codes "' found"))), ss)
      | some s ↦ elim (get_json_status replies os s) [
        | none ↦ (none, ss)
        | some r ↦ (
          some (one r.0),
          elim (update_first (λ t. is_id t id) (λ t. r.1) ss) [ none ↦ ss | some ss' ↦ ss' ],
        )
      ]
    ]
