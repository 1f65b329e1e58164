-- ===== src/Service/Template/Saved.antt =====
-- A service that is read from the configuration that it wrote.
use watched_agent.Base.{
  false, List, [], ◌∷◌, ◌++◌, Option, some, ◌≡◌, refl, sym, ◌∙◌, ap, arith, if◌then◌else◌, Str,
  str_eq_comm, map, any, any-append, All, append_assoc, append-nil, Bool-cases, inl, inr,
}
use watched_agent.Json.{Json}
use watched_agent.Socket.{Socket, from_source, get_source, InRange, is_v4, host_v4}
use watched_agent.Socket.Url.{IsType, shown, from_source-get_source}
use watched_agent.Process.{Os, Process, from_path}
use watched_agent.Service.{
  Service, new_service, has_source, set_socket, add_main_process, name_after, push_main, is_empty,
}
use watched_agent.Service.Sources.{DistinctSources}
use watched_agent.Service.Template.Written.{paths, IsConfig, Written, set_default_config-Written}
use watched_agent.Service.Template.{
  Arrays, set_default_config, set_default_host, add_sources, add_paths, from_file,
}

-- The text of the socket that is read is the text that was written.
get_source-shown :
    (k raw : Socket)
    → get_source (record raw { type = k.type; source = shown k.type k.source raw.source })
      ≡ get_source k
unfolding get_source host_v4
get_source-shown k raw = elim (Bool-cases (is_v4 k.type)) [
  | inl e ↦ rw (get_source, e) refl
  | inr e ↦ rw (get_source, e) refl
]

abbrev pub Readable : Socket → Type 0
Readable k = IsType k.type × InRange k.source

-- No socket of `ks` has a source of `known`.
abbrev Fresh : List Socket → List Socket → Type 0
Fresh known = All (λ k. any (has_source (get_source k)) known ≡ false)

Fresh-append :
    (known ks : List Socket) (k : Socket) (source : Str)
    → get_source k ≡ source
    → Fresh known ks
    → any (has_source source) ks ≡ false
    → Fresh (known ++ k ∷ []) ks
Fresh-append known [] k source e f h = tt
Fresh-append known (x ∷ ks) k source e f h = (
  ground (
    arith,
    any-append (has_source (get_source x)) known (k ∷ []),
    str_eq_comm (get_source k) (get_source x),
  ),
  Fresh-append known ks k source e f.1 (ground arith),
)

Fresh-none : (ks : List Socket) → Fresh [] ks
Fresh-none [] = tt
Fresh-none (k ∷ ks) = (refl, Fresh-none ks)

map-append_one :
    (known : List Socket) (k : Socket)
    → map get_source (known ++ k ∷ []) ≡ map get_source known ++ get_source k ∷ []
map-append_one [] k = refl
map-append_one (x ∷ known) k = ap (◌∷◌ (get_source x)) (map-append_one known k)

-- A new source is put behind the others.
set_socket_new :
    (k : Socket) (s : Service)
    → any (has_source (get_source k)) s.sockets ≡ false
    → ((set_socket k s).sockets ≡ s.sockets ++ k ∷ [])
      × ((set_socket k s).main_process ≡ s.main_process)
unfolding set_socket
set_socket_new k s h = ground arith

paths-append_one :
    (known : List Process) (path : Str)
    → map paths (known ++ from_path path ∷ []) ≡ map paths known ++ path ∷ []
unfolding from_path
paths-append_one [] path = refl
paths-append_one (x ∷ known) path = ap (◌∷◌ x.full_path) (paths-append_one known path)

-- A process that is read from a file has no number yet, and is put behind the others.
add_main_process_saved :
    (os : Os) (path : Str) (s : Service)
    → ((add_main_process os (from_path path) s).main_process
        ≡ s.main_process ++ from_path path ∷ [])
      × ((add_main_process os (from_path path) s).sockets ≡ s.sockets)
      × ((add_main_process os (from_path path) s).uniq_name ≡ s.uniq_name)
      × ((add_main_process os (from_path path) s).host ≡ s.host)
unfolding add_main_process name_after push_main from_path
add_main_process_saved os path s = ground arith

module _ (json : Json) (arrays : Arrays json) (os : Os) (raw : Socket) where
  open json use {Value, is_map, is_member, get, put, of_str, as_str}
  open arrays use {elements, of_list, can_list}

  -- What the loop over the sockets leaves in the service.
  abbrev Holds : List Socket → Service → Option Service → Type 0
  Holds ks s result =
      (t : Service) × (result ≡ some t)
      × (map get_source t.sockets ≡ map get_source s.sockets ++ map get_source ks)
      × (t.main_process ≡ s.main_process)

  add_sources-Holds :
      (ks : List Socket) (s : Service)
      → All Readable ks
      → DistinctSources ks
      → Fresh s.sockets ks
      → Holds ks s (add_sources json arrays raw (map (λ k. of_str (get_source k)) ks) s)
  unfolding add_sources
  add_sources-Holds [] s r d f = (s, refl, sym (append-nil (map get_source s.sockets)), refl)
  add_sources-Holds (k ∷ ks) s r d f =
      let k' : Socket = record raw { type = k.type; source = shown k.type k.source raw.source } in
      let src = get_source-shown k raw in
      let read : from_source raw (as_str (of_str (get_source k))) ≡ some k' =
        rw (json.as_str-of_str (get_source k)) (from_source-get_source k raw r.0.0 r.0.1) in
      let new = set_socket_new k' s (rw src f.0) in
      let fresh : Fresh (set_socket k' s).sockets ks =
        rw new.0 (Fresh-append s.sockets ks k' (get_source k) src f.1 d.0) in
      let (t, made, sources, main) = add_sources-Holds ks (set_socket k' s) r.1 d.1 fresh in
      let sources' = rw (new.0, map-append_one s.sockets k', src) at sources in
      (
        t,
        rw read made,
        sources' ∙ append_assoc (map get_source s.sockets) (get_source k ∷ []) (map get_source ks),
        main ∙ new.1,
      )

  -- What the loop over the processes leaves in the service.
  abbrev Kept : List Process → Service → Service → Type 0
  Kept ps s t =
      (map paths t.main_process ≡ map paths s.main_process ++ map paths ps)
      × (t.sockets ≡ s.sockets)
      × (t.uniq_name ≡ s.uniq_name)
      × (t.host ≡ s.host)

  add_paths-Kept :
      (ps : List Process) (s : Service)
      → Kept ps s (add_paths json arrays os (map (λ p. of_str (paths p)) ps) s)
  unfolding add_paths
  add_paths-Kept [] s = (sym (append-nil (map paths s.main_process)), refl, refl, refl)
  add_paths-Kept (p ∷ ps) s =
      let q = from_path p.full_path in
      let new = add_main_process_saved os p.full_path s in
      let (main, sockets, uniq, host) = add_paths-Kept ps (add_main_process os q s) in
      let rest = map (λ p. of_str (paths p)) ps in
      let step : add_paths json arrays os (of_str p.full_path ∷ rest) s
          ≡ add_paths json arrays os rest (add_main_process os q s) =
        ap (λ path. add_paths json arrays os rest (add_main_process os (from_path path) s))
          (json.as_str-of_str p.full_path) in
      rw step (
        main
            ∙ (ap (λ l. map paths l ++ map paths ps) new.0
                ∙ (ap (λ l. l ++ map paths ps) (paths-append_one s.main_process p.full_path)
                    ∙ append_assoc (map paths s.main_process) (p.full_path ∷ []) (map paths ps))),
        sockets ∙ new.1,
        uniq ∙ new.2,
        host ∙ new.3,
      )

  set_default_host_lem :
      (found : Str) (s : Service)
      → ((set_default_host json arrays found s).sockets ≡ s.sockets)
        × ((set_default_host json arrays found s).main_process ≡ s.main_process)
        × ((set_default_host json arrays found s).uniq_name ≡ s.uniq_name)
        × ((set_default_host json arrays found s).host
            ≡ (if is_empty s.host then found else s.host))
  unfolding set_default_host
  set_default_host_lem found s = ground arith

  -- What a service read from the configuration `out` has in common with the one that wrote it, where
  -- `found` is the name of this host.
  abbrev pub Restores : Str → Service → Option Service → Type 0
  Restores found s result =
      (t : Service) × (result ≡ some t)
      × (map get_source t.sockets ≡ map get_source s.sockets)
      × (map paths t.main_process ≡ map paths s.main_process)
      × (t.uniq_name ≡ s.uniq_name)
      × (t.host ≡ (if is_empty s.host then found else s.host))

  from_file-Written :
      (found : Str) (s : Service) (out : Value)
      → All Readable s.sockets
      → DistinctSources s.sockets
      → Written json arrays s out
      → Restores found s (from_file json arrays os raw found (some out))
  unfolding from_file new_service
  from_file-Written found s out r d (sockets, process, uniq, host) =
      let (t, made, sources, main) =
        add_sources-Holds s.sockets (new_service []) r d (Fresh-none s.sockets) in
      let u = record t { uniq_name = s.uniq_name; host = s.host } in
      let (paths', sockets', uniq', host') = add_paths-Kept s.main_process u in
      let v = add_paths json arrays os (map (λ p. of_str (paths p)) s.main_process) u in
      let last = set_default_host_lem found v in
      (
        set_default_host json arrays found v,
        rw (from_file, sockets, made, process, uniq t.uniq_name, host t.host) refl,
        ap (map get_source) (last.0 ∙ sockets') ∙ sources,
        ap (map paths) last.1 ∙ (paths' ∙ ap (λ l. map paths l ++ map paths s.main_process) main),
        last.2 ∙ uniq',
        last.3 ∙ ap (λ h. if is_empty h then found else h) host',
      )

  -- A service whose sockets have distinct sources, with a known type and groups below 65536, is read
  -- back from the configuration that it writes, over any configuration whose two lists are arrays:
  -- the writing succeeds, and so does the reading, with the sources of the sockets, the paths of the
  -- main processes and the unique name of the service, in order, and its host, or the name found
  -- for this host if it had none.
  pub from_file-set_default_config :
      (found : Str) (s : Service) (cfg : Value)
      → All Readable s.sockets
      → DistinctSources s.sockets
      → IsConfig json arrays cfg
      → (out : Value) × (set_default_config json arrays s cfg ≡ some out)
        × Restores found s (from_file json arrays os raw found (some out))
  from_file-set_default_config found s cfg r d c =
      let (out, e, w) = set_default_config-Written json arrays s cfg c in
      (out, e, from_file-Written found s out r d w)
