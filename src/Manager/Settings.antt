-- ===== src/Manager/Settings.antt =====
-- The configuration of the detectors in src/servicesManager.cpp: getDetectorCfg and the constructors
-- of serviceDetector and socketDetector, with the black list as matchList and find read it.
use watched_agent.Base.{
  Bool, true, false, ◌||◌, not, List, [], ◌∷◌, Option, none, some, if◌then◌else◌, Str, str_eq,
  str_eq_refl, codes, map, any, ◌≡◌, refl, Bool-cases, inl, inr,
}
use watched_agent.Json.{Json}
use watched_agent.Config.{has_in, put_in}
use watched_agent.Process.{Process}
use watched_agent.Service.Template.{Arrays}
use watched_agent.Manager.Detector.{Rule, match_list, line_matched, names_loopback}

abbrev default_rules : List Rule
default_rules =
    record { interface = some (codes "loopback"); path = none; name = none }
    ∷ record { interface = none; path = some (codes "/sbin/dhclient"); name = none }
    ∷ record { interface = none; path = some (codes "/usr/sbin/avahi-daemon"); name = none }
    ∷ record { interface = none; path = some (codes "/sbin/rpc.statd"); name = none }
    ∷ record { interface = none; path = some (codes "/sbin/rpcbind"); name = none }
    ∷ record { interface = none; path = none; name = some (codes "cups-browsed") }
    ∷ []

or_false : (b : Bool) → (b || false) ≡ b
or_false true = refl
or_false false = refl

default_rules-loopback : any names_loopback default_rules ≡ true
unfolding names_loopback str_eq
default_rules-loopback = refl

default_rules-match :
    (p : Process)
    → match_list p default_rules ≡ (
        str_eq p.full_path (codes "/sbin/dhclient")
        || (str_eq p.full_path (codes "/usr/sbin/avahi-daemon")
            || (str_eq p.full_path (codes "/sbin/rpc.statd")
                || (str_eq p.full_path (codes "/sbin/rpcbind")
                    || str_eq p.base_name (codes "cups-browsed")))))
unfolding match_list line_matched
default_rules-match p = rw (match_list, or_false (str_eq p.base_name (codes "cups-browsed"))) refl

module _ (json : Json) (arrays : Arrays json) where
  open json use {Value, null, object, is_member, get, put, is_map, of_bool, as_bool, of_str, as_str}
  open arrays use {elements, of_list}

  -- servicesManager::getDetectorCfg, which also adds what it returns.
  unfoldable pub get_detector_cfg : Str → Value → Value
  get_detector_cfg name cfg =
      if has_in json (codes "detectors") name cfg
      then cfg
      else put_in json (codes "detectors") name object cfg

  -- serviceDetector::serviceDetector
  unfoldable pub service_detector : Value → Value
  service_detector cfg =
      if is_member (codes "enable") cfg then cfg else put (codes "enable") (of_bool true) cfg

  -- serviceDetector::enabled
  unfoldable pub enabled : Value → Bool
  enabled cfg = as_bool (get (codes "enable") cfg)

  -- An element of the black list with one member.
  unfoldable pub one : Str → Str → Value
  one key text = put key (of_str text) null

  unfoldable pub black_list : List Value
  unfolding one
  black_list =
      one (codes "interface") (codes "loopback")
      ∷ one (codes "path") (codes "/sbin/dhclient")
      ∷ one (codes "path") (codes "/usr/sbin/avahi-daemon")
      ∷ one (codes "path") (codes "/sbin/rpc.statd")
      ∷ one (codes "path") (codes "/sbin/rpcbind")
      ∷ one (codes "name") (codes "cups-browsed")
      ∷ []

  -- socketDetector::socketDetector
  unfoldable pub socket_detector : Value → Value
  unfolding service_detector
  socket_detector cfg =
      let c = service_detector cfg in
      if is_member (codes "blackList") c then c else put (codes "blackList") (of_list black_list) c

  -- The members that matchList and find read of an element.
  unfoldable pub text_of : Str → Value → Option Str
  text_of key v = if is_member key v then some (as_str (get key v)) else none

  unfoldable pub rule_of : Value → Rule
  unfolding text_of
  rule_of v = record {
    interface = text_of (codes "interface") v;
    path = text_of (codes "path") v;
    name = text_of (codes "name") v;
  }

  unfoldable pub rules_of : Value → List Rule
  rules_of cfg = map rule_of (elements (get (codes "blackList") cfg))

  text_of-one :
      (key k text : Str) → text_of k (one key text) ≡ (if str_eq key k then some text else none)
  unfolding text_of one
  text_of-one key k text = elim (Bool-cases (str_eq key k)) [
    | inl e ↦
        rw
          (
            text_of,
            json.member-put k key (of_str text) null json.is_map_null,
            json.get-put k key (of_str text) null json.is_map_null,
            e,
            json.as_str-of_str text,
          )
          refl
    | inr e ↦
        rw
          (
            text_of,
            json.member-put k key (of_str text) null json.is_map_null,
            e,
            json.member_null k,
          )
          refl
  ]

  -- The rule of an element with one member.
  rule_of-one :
      (key text : Str)
      → rule_of (one key text) ≡ record {
        interface = if str_eq key (codes "interface") then some text else none;
        path = if str_eq key (codes "path") then some text else none;
        name = if str_eq key (codes "name") then some text else none;
      }
  unfolding rule_of
  rule_of-one key text =
      rw
        (
          rule_of,
          text_of-one key (codes "interface") text,
          text_of-one key (codes "path") text,
          text_of-one key (codes "name") text,
        )
        refl

  service_detector-get :
      (cfg : Value)
      → is_map cfg ≡ true
      → (is_map (service_detector cfg) ≡ true)
        × (is_member (codes "blackList") (service_detector cfg) ≡ is_member (codes "blackList") cfg)
        × (get (codes "blackList") (service_detector cfg) ≡ get (codes "blackList") cfg)
  unfolding service_detector str_eq
  service_detector-get cfg m = elim (Bool-cases (is_member (codes "enable") cfg)) [
    | inl e ↦
        (rw (service_detector, e) m, rw (service_detector, e) refl, rw (service_detector, e) refl)
    | inr e ↦ (
      rw (service_detector, e) (json.is_map-put (codes "enable") (of_bool true) cfg),
      rw (service_detector, e)
          (json.member-put (codes "blackList") (codes "enable") (of_bool true) cfg m),
      rw (service_detector, e)
          (json.get-put (codes "blackList") (codes "enable") (of_bool true) cfg m),
    )
  ]

  -- The list that the detector goes by.
  socket_detector-get :
      (cfg : Value)
      → is_map cfg ≡ true
      → get (codes "blackList") (socket_detector cfg) ≡ (
          if is_member (codes "blackList") cfg
          then get (codes "blackList") cfg
          else of_list black_list)
  unfolding socket_detector
  socket_detector-get cfg m =
      let (map', member, list) = service_detector-get cfg m in
      elim (Bool-cases (is_member (codes "blackList") cfg)) [
        | inl e ↦ rw (socket_detector, member, e) list
        | inr e ↦
            rw
              (
                socket_detector,
                member,
                e,
                json.get-put (codes "blackList") (codes "blackList") (of_list black_list)
                    (service_detector cfg) map',
                str_eq_refl (codes "blackList"),
              )
              refl
      ]

  black_list-rules : map rule_of black_list ≡ default_rules
  unfolding black_list str_eq
  black_list-rules = simp rule_of-one refl

  -- Over a configuration that is an object or null: without a black list in it, the detector ignores
  -- loopback sockets, and skips the four programs and the name of the default list, and no other
  -- process; with one, it goes by it.
  socket_detector-rules :
      (p : Process) (cfg : Value)
      → is_map cfg ≡ true
      → (any names_loopback (rules_of (socket_detector cfg))
          ≡ (not (is_member (codes "blackList") cfg) || any names_loopback (rules_of cfg)))
        × (match_list p (rules_of (socket_detector cfg)) ≡ (
            if is_member (codes "blackList") cfg
            then match_list p (rules_of cfg)
            else str_eq p.full_path (codes "/sbin/dhclient")
              || (str_eq p.full_path (codes "/usr/sbin/avahi-daemon")
                  || (str_eq p.full_path (codes "/sbin/rpc.statd")
                      || (str_eq p.full_path (codes "/sbin/rpcbind")
                          || str_eq p.base_name (codes "cups-browsed"))))))
  unfolding rules_of
  socket_detector-rules p cfg m =
      let list = socket_detector-get cfg m in
      elim (Bool-cases (is_member (codes "blackList") cfg)) [
        | inl e ↦ (rw (rules_of, list, e) refl, rw (rules_of, list, e) refl)
        | inr e ↦
            let rules : rules_of (socket_detector cfg) ≡ default_rules =
              rw (rules_of, list, e, arrays.elements-of_list black_list) black_list-rules in
            (rw (rules, e) default_rules-loopback, rw (rules, e) (default_rules-match p))
      ]
