-- ===== src/Lua/Enhancing.antt =====
-- What the Lua plugins that enhance a service leave of it.
use watched_agent.Base.{
  Bool, true, List, [], ◌∷◌, none, some, Str, str_eq, any, lookup, insert, ◌≡◌, refl, ◌∙◌, arith,
  Bool-cases, Option-cases, inl, inr, along_some, codes,
}
use watched_agent.Json.{Json}
use watched_agent.Config.{get_collector_cfg, get_parser_cfg}
use watched_agent.Service.{Service}
use watched_agent.Service.Plugged.{
  Plugged, Makers, add_collector, set_handler, add_log_monitor, choose_log, entry,
}
use watched_agent.Lua.{
  Answer, Call, Script, Host, Served, done, call, call_add_collector, call_have_pid, call_is_self,
  call_get_type, call_get_sub_type, call_get_name, call_get_id, call_set_type, call_set_sub_type,
  call_set_uniq_key, call_set_host, call_set_handler, call_add_log_monitor, call_update_base_paths,
  call_set_name, with_handler, update_base_paths, do_call, run_script, enhance_lua,
}

-- A map has a key.
abbrev pub has_key {ℓ} : {A : Type ℓ} → Str → List (Str × A) → Bool
has_key k m = any (λ e. str_eq e.0 k) m

has_key-insert {ℓ} :
    {A : Type ℓ} (k key : Str) (x : A) (m : List (Str × A))
    → has_key k m ≡ true
    → has_key k (insert str_eq key x m) ≡ true
has_key-insert k key x [] h = ground arith
has_key-insert k key x (e ∷ m) h = ground (arith, has_key-insert k key x m)

module _ (json : Json) {C P H : Type 0} where
  open json use {Value}

  -- The sockets and the processes are the same, and no collector and no parser is lost.
  abbrev pub Keeps : Served Value C P H → Served Value C P H → Type 0
  Keeps st st' =
      (st'.service.sockets ≡ st.service.sockets)
      × (st'.service.main_process ≡ st.service.main_process)
      × (st'.service.sub_process ≡ st.service.sub_process)
      × ((k : Str)
          → has_key k st.plugged.collectors ≡ true
          → has_key k st'.plugged.collectors ≡ true)
      × ((k : Str) → has_key k st.plugged.parsers ≡ true → has_key k st'.plugged.parsers ≡ true)

  abbrev Kept : Plugged Value C P H → Plugged Value C P H → Type 0
  Kept p p' =
      ((k : Str) → has_key k p.collectors ≡ true → has_key k p'.collectors ≡ true)
      × ((k : Str) → has_key k p.parsers ≡ true → has_key k p'.parsers ≡ true)

  add_collector-Kept :
      (m : Makers Value C P H) (start : C → C) (name : Str) (p p' : Plugged Value C P H)
      → add_collector json m start name p ≡ some p'
      → Kept p p'
  unfolding add_collector
  add_collector-Kept m start name p p' e = elim (Option-cases (lookup str_eq name p.collectors)) [
    | inr (c, old) ↦ along_some (Kept p) p p' (rw (add_collector, old) at e) (λ k h. h, λ k h. h)
    | inl new ↦ elim (Option-cases (lookup str_eq name m.collectors)) [
      | inl unknown ↦
          along_some (Kept p) p p' (rw (add_collector, new, unknown) at e) (λ k h. h, λ k h. h)
      | inr ((none, file), found) ↦ absurd (ground (arith, rw (add_collector, new, found) at e))
      | inr ((some make, file), found) ↦
          let cfg = get_collector_cfg json name p.cfg in
          let made = start (make (json.get name (json.get (codes "collectors") cfg)) file) in
          along_some (Kept p)
            (record p { cfg = cfg; collectors = insert str_eq name made p.collectors }) p'
            (rw (add_collector, new, found) at e)
            (λ k h. has_key-insert k name made p.collectors h, λ k h. h)
    ]
  ]

  set_handler-Kept :
      (m m' : Makers Value C P H) (name : Str) (p p' : Plugged Value C P H)
      → set_handler json m name p ≡ some (m', p')
      → Kept p p'
  unfolding set_handler
  set_handler-Kept m m' name p p' e = elim (Option-cases (lookup str_eq name p.collectors)) [
    | inr (c, old) ↦
        along_some same (m, p) (m', p') (rw (set_handler, old) at e) (λ k h. h, λ k h. h)
    | inl new ↦ elim (Option-cases (lookup str_eq name m.handlers)) [
      | inl unknown ↦
          along_some same (m, p) (m', p') (rw (set_handler, new, unknown) at e) (λ k h. h, λ k h. h)
      | inr ((none, file), found) ↦ absurd (ground (arith, rw (set_handler, new, found) at e))
      | inr ((some make, file), found) ↦
          let r = entry name m.collectors in
          along_some same (record m { collectors = r.1 }, record p { handler = some (make r.0.1) })
            (m', p') (rw (set_handler, new, found) at e) (λ k h. h, λ k h. h)
    ]
  ]
    where
      same : Makers Value C P H × Plugged Value C P H → Type 0
      same r = Kept p r.1

  add_log_monitor-Kept :
      (h : Host C P H) (m : Makers Value C P H) (s : Service) (name t : Str)
      (p p' : Plugged Value C P H)
      → add_log_monitor json m h.os h.agent_log s.main_process h.start_parser name t p ≡ some p'
      → Kept p p'
  unfolding add_log_monitor
  add_log_monitor-Kept h m s name t p p' e = elim (Option-cases (lookup str_eq t p.parsers)) [
    | inr (x, old) ↦ along_some (Kept p) p p' (rw (add_log_monitor, old) at e) (λ k h. h, λ k h. h)
    | inl new ↦ elim (Option-cases (lookup str_eq name m.parsers)) [
      | inl unknown ↦
          along_some (Kept p) p p' (rw (add_log_monitor, new, unknown) at e) (λ k h. h, λ k h. h)
      | inr ((make, lua), found) ↦
          elim (Option-cases (choose_log h.os h.agent_log t s.main_process)) [
            | inl nothing ↦
                along_some (Kept p) p p' (rw (add_log_monitor, new, found, nothing) at e)
                  (λ k h. h, λ k h. h)
            | inr (file, chosen) ↦ elim (Option-cases make) [
              | inl null ↦
                  absurd (ground (arith, rw (add_log_monitor, new, found, chosen, null) at e))
              | inr (maker, there) ↦
                  let cfg = get_parser_cfg json name p.cfg in
                  let made =
                    h.start_parser
                      (maker file (json.get name (json.get (codes "parsers") cfg)) lua) in
                  along_some (Kept p)
                    (record p { cfg = cfg; parsers = insert str_eq t made p.parsers }) p'
                    (rw (add_log_monitor, new, found, chosen, there) at e)
                    (λ k h. h, λ k h. has_key-insert k t made p.parsers h)
            ]
          ]
    ]
  ]

  has_key-update_base_paths :
      (h : Host C P H) (id k : Str) (es : List (Str × C))
      → has_key k (update_base_paths json h id es) ≡ has_key k es
  unfolding update_base_paths
  has_key-update_base_paths h id k [] = refl
  has_key-update_base_paths h id k (e ∷ es) = ground (arith, has_key-update_base_paths h id k es)

  same_service : (st : Served Value C P H) → Keeps st st
  same_service st = (refl, refl, refl, λ k h. h, λ k h. h)

  along_call :
      (st st' : Served Value C P H) (a : Answer) (r : Answer × Served Value C P H)
      → some (a, st') ≡ some r
      → Keeps st st'
      → Keeps st r.1
  along_call st st' a r e k =
      along_some (λ (t : Answer × Served Value C P H). Keeps st t.1) (a, st') r e k

  do_call-Keeps :
      (h : Host C P H) (c : Call) (st : Served Value C P H) (r : Answer × Served Value C P H)
      → do_call json h c st ≡ some r
      → Keeps st r.1
  unfolding do_call with_handler
  do_call-Keeps h (call_add_collector name) st r e =
      elim (Option-cases (add_collector json st.makers h.start name st.plugged)) [
        | inl null ↦ absurd (ground (arith, rw (do_call, null) at e))
        | inr (p, added) ↦
            let (cs, ps) = add_collector-Kept st.makers h.start name st.plugged p added in
            along_call st (record st { plugged = p }) Answer.nothing r (rw (do_call, added) at e)
              (refl, refl, refl, cs, ps)
      ]
  do_call-Keeps h (call_set_handler name) st r e =
      elim (Option-cases (set_handler json st.makers name st.plugged)) [
        | inl null ↦ absurd (ground (arith, rw (do_call, null) at e))
        | inr ((m, p), set) ↦
            let (cs, ps) = set_handler-Kept st.makers m name st.plugged p set in
            along_call st (with_handler json h (m, p) st) Answer.nothing r (rw (do_call, set) at e)
              (refl, refl, refl, cs, ps)
      ]
  do_call-Keeps h (call_add_log_monitor name t) st r e =
      elim (Option-cases (
        add_log_monitor json st.makers h.os h.agent_log st.service.main_process h.start_parser name
          t st.plugged)) [
            | inl null ↦ absurd (ground (arith, rw (do_call, null) at e))
            | inr (p, added) ↦
                let (cs, ps) =
                  add_log_monitor-Kept h st.makers st.service name t st.plugged p added in
                along_call st (record st { plugged = p }) Answer.nothing r
                  (rw (do_call, added) at e) (refl, refl, refl, cs, ps)
          ]
  do_call-Keeps h call_update_base_paths st r e =
      along_call st _ Answer.nothing r e (
        refl,
        refl,
        refl,
        λ k g. has_key-update_base_paths h _ k st.plugged.collectors ∙ g,
        λ k g. g,
      )
  do_call-Keeps h (call_have_pid pid) st r e = along_call st st _ r e (same_service st)
  do_call-Keeps h call_is_self st r e = along_call st st _ r e (same_service st)
  do_call-Keeps h call_get_type st r e = along_call st st _ r e (same_service st)
  do_call-Keeps h call_get_sub_type st r e = along_call st st _ r e (same_service st)
  do_call-Keeps h call_get_name st r e = along_call st st _ r e (same_service st)
  do_call-Keeps h call_get_id st r e = along_call st st _ r e (same_service st)
  do_call-Keeps h (call_set_type t) st r e = along_call st _ _ r e (same_service st)
  do_call-Keeps h (call_set_sub_type t) st r e = along_call st _ _ r e (same_service st)
  do_call-Keeps h (call_set_uniq_key t) st r e = along_call st _ _ r e (same_service st)
  do_call-Keeps h (call_set_host t) st r e = along_call st _ _ r e (same_service st)
  do_call-Keeps h (call_set_name t) st r e = along_call st _ _ r e (same_service st)

  run_script-Keeps :
      (h : Host C P H) (script : Script) (st st' : Served Value C P H)
      → run_script json h script st ≡ some st'
      → Keeps st st'
  unfolding run_script
  run_script-Keeps h done st st' e = along_some (Keeps st) st st' e (same_service st)
  run_script-Keeps h (call c next) st st' e = elim (Option-cases (do_call json h c st)) [
    | inl null ↦ absurd (ground (arith, rw (run_script, null) at e))
    | inr (r, did) ↦
        let (ks, km, kb, kc, kp) = do_call-Keeps h c st r did in
        let (ls, lm, lb, lc, lp) =
          run_script-Keeps h (next r.0) r.1 st' (rw (run_script, did) at e) in
        (ls ∙ ks, lm ∙ km, lb ∙ kb, λ k g. lc k (kc k g), λ k g. lp k (kp k g))
  ]

  -- Whatever a Lua plugin does when it enhances a service, the service keeps its sockets, its main
  -- processes and its subprocesses, and every name of a collector and every text of a parser that it had,
  -- when no call is one of a null pointer.
  pub enhance_lua-Keeps :
      (h : Host C P H) (have_state : Bool) (script : Script) (st st' : Served Value C P H)
      → enhance_lua json h have_state script st ≡ some st'
      → Keeps st st'
  unfolding enhance_lua
  enhance_lua-Keeps h have_state script st st' e = elim (Bool-cases have_state) [
    | inl on ↦ run_script-Keeps h script st st' (rw (enhance_lua, on) at e)
    | inr off ↦ along_some (Keeps st) st st' (rw (enhance_lua, off) at e) (same_service st)
  ]
