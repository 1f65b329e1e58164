-- ===== src/Systemd.antt =====
-- The systemd plugin, services/sdbus/systemdbus.cpp: what it reads over D-Bus, its handler and its
-- enhancer.
pub mod Units
pub mod Handling
pub mod Listing
pub mod Replies
use watched_agent.Base.{
  ℕ, Bool, true, false, ◌&&◌, ◌||◌, not, List, [], ◌∷◌, Option, none, some, if◌then◌else◌, Str,
  str_eq, codes, length, drop, ltb, ◌-◌, ◌==◌, ◌>>=◌,
}
use watched_agent.Process.{Os, Process, from_pid, base_name_of}
use watched_agent.Service.{Service, get_main_process, have_pid, update_main_process, is_empty}

-- What sd_bus_message_read_basic leaves in the union `basic`: the member u32 or the member string.
pub data Basic : Type 0 where
  number : ℕ → Basic
  text : Str → Basic

-- The part of the library sd-bus that the plugin uses, on the connection of the plugin; `none` is a
-- negative result. A message is read on from where the last call stopped.
pub record Bus : Type 1 where
  pub Message : Type 0
  -- The object, the interface, the method and the arguments, for the service org.freedesktop.systemd1
  pub call_method : Str → Str → Str → List Basic → Option Message
  -- The type of the next element, and what a container holds
  pub peek_type : Message → Option (ℕ × Str)
  pub enter_container : ℕ → Str → Message → Option Message
  pub read_basic : ℕ → Message → Option (Basic × Message)
  pub exit_container : Message → Option Message
  -- sd_bus_message_read with the format "s"
  pub read_text : Message → Option Str

-- The member of the union that a reader takes; `none` is a read of the other one.
unfoldable pub as_number : Basic → Option ℕ
as_number (number n) = some n
as_number (text s) = none

unfoldable pub as_text : Basic → Option Str
as_text (number n) = none
as_text (text s) = some s

module _ (bus : Bus) where
  open bus use {call_method, peek_type, enter_container, read_basic, exit_container}

  -- The calls of MAKE_DBUS_READ; `none` is one that fails.
  unfoldable pub read_property : Str → Str → Str → Option Basic
  read_property path face prop = do
    reply ←
        call_method path (codes "org.freedesktop.DBus.Properties") (codes "Get")
          (text face ∷ text prop ∷ [])
    outer ← peek_type reply
    inside ← enter_container b'v' outer.1 reply
    inner ← peek_type inside
    basic ← read_basic inner.0 inside
    behind ← exit_container basic.1
    some basic.0

  -- MAKE_DBUS_READ for a text. After a failure the macro gives 0, of which a std::string cannot be
  -- made: `none` is this exception, or a read of another member. The text is copied when its message
  -- is released, which the model takes to be in time.
  unfoldable pub read_text_property : Str → Str → Str → Option Str
  unfolding read_property as_text
  read_text_property face prop path = read_property path face prop >>= as_text

  -- getPID: 0 after a failure.
  unfoldable pub get_pid : Str → Option ℕ
  unfolding read_property as_number
  get_pid path =
      elim (read_property path (codes "org.freedesktop.systemd1.Service") (codes "ExecMainPID")) [
        | none ↦ some 0
        | some basic ↦ as_number basic
      ]

  unfoldable pub get_status : Str → Option Str
  unfolding read_text_property
  get_status = read_text_property (codes "org.freedesktop.systemd1.Unit") (codes "ActiveState")

  unfoldable pub get_sub_status : Str → Option Str
  unfolding read_text_property
  get_sub_status = read_text_property (codes "org.freedesktop.systemd1.Unit") (codes "SubState")

  unfoldable pub get_type : Str → Option Str
  unfolding read_text_property
  get_type = read_text_property (codes "org.freedesktop.systemd1.Service") (codes "Type")

  unfoldable pub get_restart : Str → Option Str
  unfolding read_text_property
  get_restart = read_text_property (codes "org.freedesktop.systemd1.Service") (codes "Restart")

  -- The calls of findByPID.
  unfoldable pub read_unit : ℕ → Option Basic
  read_unit pid = do
    reply ←
        call_method (codes "/org/freedesktop/systemd1") (codes "org.freedesktop.systemd1.Manager")
          (codes "GetUnitByPID") (number pid ∷ [])
    type ← peek_type reply
    basic ← read_basic type.0 reply
    some basic.0

  -- findByPID: the path of a unit behind its last slash, an empty text after a failure; `none` is a read
  -- of another member.
  unfoldable pub find_by_pid : ℕ → Option Str
  unfolding read_unit as_text
  find_by_pid pid = elim (read_unit pid) [
    | none ↦ some []
    | some basic ↦ as_text basic >>= λ path. some (base_name_of path)
  ]

  -- systemdHandler::isBlackout, for the service behind its weak pointer, if it is still there: the
  -- answer, and the service with its new main process. `none` is an exception.
  unfoldable pub is_blackout : Bool → Os → Str → Option Service → Option (Bool × Option Service)
  unfolding get_status get_pid
  is_blackout have_bus os id serv = if not have_bus then some (false, serv) else (do
    status ← get_status id
    (if str_eq status (codes "active")
        then (elim serv [
          | none ↦ some (true, none)
          | some s ↦ do
            pid ← get_pid id
            let p = from_pid os pid
            (if (pid == 0) || (have_pid s pid || is_empty p.base_name)
                then some (true, some s)
                else some (true, some (update_main_process os p s)))
        ])
        else some (str_eq status (codes "inactive"), serv)))

  -- systemdEnhancer::enhance. It gives no other service but changes its argument, so that `some` is
  -- the service as it leaves it.
  unfoldable pub enhance_unit : Bool → Service → Option Service
  unfolding find_by_pid
  enhance_unit have_bus s = if not have_bus then none else elim (get_main_process s) [
    | none ↦ none
    | some p ↦ elim s.handler [
      | some h ↦ none
      | none ↦ find_by_pid p.pid >>= λ name.
          (if ltb 7 (length name) && str_eq (drop (length name - 7) name) (codes "service")
            then some (record s { uniq_name = name; handler = some name })
            else none)
    ]
  ]
