-- ===== src/Service/Template/Written.antt =====
-- The members of the configuration that setDefaultConfig of src/services.cpp writes.
use watched_agent.Base.{
  true, false, ◌||◌, not, List, some, ◌≡◌, refl, Str, str_eq, str_eq_refl, codes, map,
}
use watched_agent.Json.{Json}
use watched_agent.Socket.{get_source}
use watched_agent.Process.{Process}
use watched_agent.Service.{Service}
use watched_agent.Service.Template.{Arrays, set_list, set_default_config, listed, named}

abbrev pub paths : Process → Str
paths p = p.full_path

module _ (json : Json) (arrays : Arrays json) where
  open json use {Value, is_map, is_member, get, put, of_str, as_str}
  open arrays use {elements, of_list, can_list}

  -- A configuration whose two lists, if there are any, are arrays.
  abbrev pub IsConfig : Value → Type 0
  IsConfig cfg =
      (is_map cfg ≡ true)
      × ((not (is_member (codes "sockets") cfg) || can_list (get (codes "sockets") cfg)) ≡ true)
      × ((not (is_member (codes "process") cfg) || can_list (get (codes "process") cfg)) ≡ true)

  -- The member `key` is there and is `x`.
  Reads : Str → Value → Value → Type 0
  Reads key x v = (is_member key v ≡ true) × (get key v ≡ x)

  Reads-put : (key : Str) (x v : Value) → is_map v ≡ true → Reads key x (put key x v)
  unfolding Reads
  Reads-put key x v m = (
    rw (json.member-put key key x v m, str_eq_refl key) refl,
    rw (json.get-put key key x v m, str_eq_refl key) refl,
  )

  Reads-put_other :
      (key k : Str) (x y v : Value)
      → is_map v ≡ true
      → str_eq k key ≡ false
      → Reads key x v
      → Reads key x (put k y v)
  unfolding Reads
  Reads-put_other key k x y v m ne (here, e) =
      (rw (json.member-put key k y v m, ne) here, rw (json.get-put key k y v m, ne) e)

  listed-Reads :
      (key : Str) (vs : List Value) (v : Value)
      → Reads key (of_list vs) v
      → listed json arrays key v ≡ vs
  unfolding listed Reads
  listed-Reads key vs v (here, e) = rw (here, e) (arrays.elements-of_list vs)

  named-Reads : (key x y : Str) (v : Value) → Reads key (of_str x) v → named json arrays key y v ≡ x
  unfolding named Reads
  named-Reads key x y v (here, e) = rw (here, e) (json.as_str-of_str x)

  set_list-Reads :
      (key : Str) (vs : List Value) (cfg : Value)
      → (not (is_member key cfg) || can_list (get key cfg)) ≡ true
      → set_list json arrays key vs cfg ≡ some (put key (of_list vs) cfg)
  unfolding set_list
  set_list-Reads key vs cfg h = rw h refl

  -- Another member than the one that is put may still be made an array.
  can-put :
      (key k : Str) (x cfg : Value)
      → is_map cfg ≡ true
      → str_eq k key ≡ false
      → (not (is_member key cfg) || can_list (get key cfg)) ≡ true
      → (not (is_member key (put k x cfg)) || can_list (get key (put k x cfg))) ≡ true
  can-put key k x cfg m ne h = rw (json.member-put key k x cfg m, json.get-put key k x cfg m, ne) h

  -- The members that were written.
  abbrev pub Written : Service → Value → Type 0
  Written s out =
      (listed json arrays (codes "sockets") out ≡ map (λ k. of_str (get_source k)) s.sockets)
      × (listed json arrays (codes "process") out ≡ map (λ p. of_str (paths p)) s.main_process)
      × ((x : Str) → named json arrays (codes "uniqName") x out ≡ s.uniq_name)
      × ((x : Str) → named json arrays (codes "host") x out ≡ s.host)

  pub set_default_config-Written :
      (s : Service) (cfg : Value)
      → IsConfig cfg
      → (out : Value) × (set_default_config json arrays s cfg ≡ some out) × Written s out
  unfolding set_default_config str_eq
  set_default_config-Written s cfg (m, a, b) =
      let ks = map (λ k. of_str (get_source k)) s.sockets in
      let ps = map (λ p. of_str (paths p)) s.main_process in
      let c = put (codes "sockets") (of_list ks) cfg in
      let d = put (codes "process") (of_list ps) c in
      let e = put (codes "uniqName") (of_str s.uniq_name) d in
      let out = put (codes "host") (of_str s.host) e in
      let mc = json.is_map-put (codes "sockets") (of_list ks) cfg in
      let md = json.is_map-put (codes "process") (of_list ps) c in
      let me = json.is_map-put (codes "uniqName") (of_str s.uniq_name) d in
      let kept =
        λ (key : Str) (x : Value) (h : str_eq (codes "uniqName") key ≡ false)
            (h' : str_eq (codes "host") key ≡ false) (r : Reads key x d).
          Reads-put_other key (codes "host") x (of_str s.host) e me h'
            (Reads-put_other key (codes "uniqName") x (of_str s.uniq_name) d md h r) in
      let sockets = Reads-put (codes "sockets") (of_list ks) cfg m in
      let process = Reads-put (codes "process") (of_list ps) c mc in
      let uniq = Reads-put (codes "uniqName") (of_str s.uniq_name) d md in
      let host = Reads-put (codes "host") (of_str s.host) e me in
      (
        out,
        rw
            (
              set_list-Reads (codes "sockets") ks cfg a,
              set_list-Reads (codes "process") ps c
                  (can-put (codes "process") (codes "sockets") (of_list ks) cfg m refl b),
            )
            refl,
        (
          listed-Reads (codes "sockets") ks out (
              kept (codes "sockets") (of_list ks) refl refl (
                Reads-put_other (codes "sockets") (codes "process") (of_list ks) (of_list ps) c mc
                  refl sockets)),
          listed-Reads (codes "process") ps out
              (kept (codes "process") (of_list ps) refl refl process),
          λ x. named-Reads (codes "uniqName") s.uniq_name x out (
              Reads-put_other (codes "uniqName") (codes "host") (of_str s.uniq_name) (of_str s.host)
                e me refl uniq),
          λ x. named-Reads (codes "host") s.host x out host,
        ),
      )
