-- ===== src/Service/Template.antt =====
-- The configuration of a service in src/services.cpp: setDefaultConfig writes it for a template, and
-- the constructor reads it from a file.
pub mod Written
pub mod Saved
use watched_agent.Base.{
  ℕ, Bool, true, false, ◌&&◌, ◌||◌, not, List, [], ◌∷◌, ◌++◌, Option, none, some, ◌≡◌,
  if◌then◌else◌, Str, codes, map, ◌>>=◌,
}
use watched_agent.Json.{Json}
use watched_agent.Socket.{Socket, from_source, get_source}
use watched_agent.Process.{Os, Process, from_path}
use watched_agent.Service.{Service, new_service, set_socket, add_main_process, is_empty}

-- The arrays of jsoncpp: the values that a loop over v sees, an array, and whether v is null or an
-- array, on which clear and append are allowed.
pub record Arrays (json : Json) : Type 1 where
  pub elements : json.Value → List json.Value
  pub of_list : List json.Value → json.Value
  pub can_list : json.Value → Bool
  pub elements-of_list : (vs : List json.Value) → elements (of_list vs) ≡ vs

module _ (json : Json) (arrays : Arrays json) where
  open json use {Value, object, is_member, get, put, of_str, as_str}
  open arrays use {elements, of_list, can_list}

  -- cfg[key] is cleared, or made, and filled; `none` is the exception of a value of another type.
  unfoldable pub set_list : Str → List Value → Value → Option Value
  set_list key vs cfg =
      if not (is_member key cfg) || can_list (get key cfg)
      then some (put key (of_list vs) cfg)
      else none

  -- service::setDefaultConfig
  unfoldable pub set_default_config : Service → Value → Option Value
  set_default_config s cfg = do
    c ← set_list (codes "sockets") (map (λ k. of_str (get_source k)) s.sockets) cfg
    d ← set_list (codes "process") (map (λ (p : Process). of_str p.full_path) s.main_process) c
    some (put (codes "host") (of_str s.host) (put (codes "uniqName") (of_str s.uniq_name) d))

  -- service::setDefaultHost, over the name that the system gives this host, empty after an error.
  unfoldable pub set_default_host : Str → Service → Service
  set_default_host found s = if is_empty s.host then record s { host = found } else s

  -- The loops over cfg["sockets"] and cfg["process"].
  unfoldable pub add_sources : Socket → List Value → Service → Option Service
  add_sources raw [] s = some s
  add_sources raw (v ∷ vs) s = do
    k ← from_source raw (as_str v)
    add_sources raw vs (set_socket k s)

  unfoldable pub add_paths : Os → List Value → Service → Service
  add_paths os [] s = s
  add_paths os (v ∷ vs) s = add_paths os vs (add_main_process os (from_path (as_str v)) s)

  -- The elements of a member, none if there is no such member.
  unfoldable pub listed : Str → Value → List Value
  listed key cfg = if is_member key cfg then elements (get key cfg) else []

  unfoldable pub named : Str → Str → Value → Str
  named key x cfg = if is_member key cfg then as_str (get key cfg) else x

  -- service::service(p_server, p_file_path), on the document of the file if it can be read.
  unfoldable pub from_file : Os → Socket → Str → Option Value → Option Service
  from_file os raw found file = do
    let cfg : Value = elim file [ none ↦ object | some v ↦ v ]
    s ← add_sources raw (listed (codes "sockets") cfg) (new_service [])
    let t = record s {
      uniq_name = named (codes "uniqName") s.uniq_name cfg;
      host = named (codes "host") s.host cfg;
    }
    some (set_default_host found (add_paths os (listed (codes "process") cfg) t))
