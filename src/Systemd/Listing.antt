-- ===== src/Systemd/Listing.antt =====
-- systemdDetector::find: every unit that is to be detected ends up in a service.
use watched_agent.Base.{
  ℕ, Bool, true, false, List, [], ◌∷◌, some, Str, str_eq, str_eq_iff, any, All, ◌==◌, ◌≡◌, ◌≢◌,
  refl, ◌∙◌, subst, arith, Bool-cases, Option-cases, inl, inr,
}
use watched_agent.Process.{from_pid}
use watched_agent.LogParser.{lines_of}
use watched_agent.Service.{Service, new_service, have_pid, has_pid, is_empty}
use watched_agent.Manager.{update_first, any_pid}
use watched_agent.Manager.Joining.{update_first-any, add_service-Joined}
use watched_agent.Manager.Finding.Visits.{
  KeepsMain, main-enhance, pid-from_pid, main-add_main_process_alone,
}
use watched_agent.Systemd.{get_pid, get_sub_status}
use watched_agent.Systemd.Units.{
  Scan, unit_path, match_units, is_unit_line, unit_of, is_over, is_listed, unit_pid, add_handler,
  make_unit, take_unit, scan_line, visit_unit, visit_units, introspect, find_units,
}

have_pid-add_handler : (b : Str) (s : Service) (q : ℕ) → have_pid (add_handler b s) q ≡ have_pid s q
unfolding add_handler have_pid
have_pid-add_handler b s q = ground arith

module _ (f : Scan) where
  take_unit-keeps :
      (small : Str) (pid q : ℕ) (ss : List Service)
      → f.os.alive q ≡ true
      → any_pid ss q ≡ true
      → any_pid (take_unit f small pid ss) q ≡ true
  unfolding take_unit any_pid
  take_unit-keeps small pid q ss alive h =
      let known = λ (s : Service). have_pid s pid in
      let change = add_handler (unit_path small) in
      elim (Bool-cases (any_pid ss pid)) [
        | inl old ↦ elim (Option-cases (update_first known change ss)) [
          | inl gone ↦ rw (take_unit, old, gone) h
          | inr (ss', e) ↦
              rw (take_unit, old, e)
                (update_first-any known change (λ s. have_pid s q)
                  (λ s k. have_pid-add_handler (unit_path small) s q ∙ k) ss ss' e h)
        ]
        | inr new ↦ elim (Bool-cases (is_empty (from_pid f.os pid).base_name)) [
          | inl nameless ↦ rw (take_unit, new, nameless) h
          | inr named ↦
              rw (take_unit, new, named)
                ((add_service-Joined f.os f.enhancers (make_unit f small (from_pid f.os pid))
                    ss).keeps_pids
                  q alive h)
        ]
      ]

  take_unit-knows :
      (keep : All KeepsMain f.enhancers) (small : Str) (pid : ℕ) (ss : List Service)
      → f.os.alive pid ≡ true
      → is_empty (from_pid f.os pid).base_name ≡ false
      → any_pid (take_unit f small pid ss) pid ≡ true
  unfolding take_unit make_unit
  take_unit-knows keep small pid ss alive named = elim (Bool-cases (any_pid ss pid)) [
    | inl old ↦ take_unit-keeps small pid pid ss alive old
    | inr new ↦
        let p = from_pid f.os pid in
        let unit = make_unit f small p in
        let fresh = record (new_service f.host) { uniq_name = small } in
        let mine : any (has_pid p.pid) unit.main_process ≡ true =
          main-add_main_process_alone f.os p fresh (unfold new_service in refl) in
        rw (take_unit, new, named)
          ((add_service-Joined f.os f.enhancers unit ss).has_pids pid alive (
            main-enhance f.enhancers unit pid keep
              (subst (λ n. any (has_pid n) unit.main_process ≡ true) (pid-from_pid f.os pid) mine)))
  ]

  visit_units-keeps :
      (lines : List Str) (q : ℕ) (ss : List Service)
      → f.os.alive q ≡ true
      → any_pid ss q ≡ true
      → any_pid (visit_units f lines ss).0 q ≡ true
  unfolding visit_units visit_unit
  visit_units-keeps [] q ss alive h = h
  visit_units-keeps (line ∷ lines) q ss alive h = elim (Option-cases (scan_line f line)) [
    | inl thrown ↦ rw (visit_units, visit_unit, thrown) h
    | inr (found, e) ↦ elim (Option-cases found) [
      | inl other ↦ rw (visit_units, visit_unit, e, other) (visit_units-keeps lines q ss alive h)
      | inr (u, unit) ↦
          rw (visit_units, visit_unit, e, unit)
            (visit_units-keeps lines q (take_unit f u.0 u.1 ss) alive
              (take_unit-keeps u.0 u.1 q ss alive h))
    ]
  ]

  -- A search of the units forgets no running process that a service knew, also when it ends with an
  -- exception.
  pub find_units-keeps :
      (have_bus : Bool) (ss : List Service) (q : ℕ)
      → f.os.alive q ≡ true
      → any_pid ss q ≡ true
      → any_pid (find_units have_bus f ss).0 q ≡ true
  unfolding find_units
  find_units-keeps have_bus ss q alive h = elim (Bool-cases have_bus) [
    | inr off ↦ rw (find_units, off) h
    | inl on ↦ elim (Option-cases (introspect f.bus)) [
      | inl gone ↦ rw (find_units, on, gone) h
      | inr (text, e) ↦ rw (find_units, on, e) (visit_units-keeps (lines_of [] text) q ss alive h)
    ]
  ]

  visit_units-finds :
      (keep : All KeepsMain f.enhancers) (line small : Str) (pid : ℕ)
      → scan_line f line ≡ some (some (small, pid))
      → f.os.alive pid ≡ true
      → is_empty (from_pid f.os pid).base_name ≡ false
      → (lines : List Str) (ss : List Service) → any (λ l. str_eq l line) lines ≡ true
      → (visit_units f lines ss).1 ≡ true
      → any_pid (visit_units f lines ss).0 pid ≡ true
  unfolding visit_units visit_unit
  visit_units-finds keep line small pid here alive named [] ss h ended = cc
  visit_units-finds keep line small pid here alive named (l ∷ ls) ss h ended =
      elim (Bool-cases (str_eq l line)) [
        | inl same ↦
            let e = (str_eq_iff l line).0 same in
            rw (e, visit_units, visit_unit, here)
              (visit_units-keeps ls pid (take_unit f small pid ss) alive
                (take_unit-knows keep small pid ss alive named))
        | inr other ↦
            let rest : any (λ k. str_eq k line) ls ≡ true = ground arith in
            elim (Option-cases (scan_line f l)) [
              | inl thrown ↦ absurd (ground (arith, rw (visit_units, visit_unit, thrown) at ended))
              | inr (found, e) ↦ elim (Option-cases found) [
                | inl none_of ↦
                    rw (visit_units, visit_unit, e, none_of)
                      (visit_units-finds keep line small pid here alive named ls ss rest
                        (rw (visit_units, visit_unit, e, none_of) at ended))
                | inr (u, unit) ↦
                    rw (visit_units, visit_unit, e, unit)
                      (visit_units-finds keep line small pid here alive named ls
                        (take_unit f u.0 u.1 ss) rest
                        (rw (visit_units, visit_unit, e, unit) at ended))
              ]
            ]
      ]

  scan_line-unit :
      (line small status : Str) (pid : ℕ)
      → is_unit_line line ≡ some true
      → unit_of line ≡ some small
      → get_pid f.bus (unit_path small) ≡ some pid
      → pid ≢ 0
      → get_sub_status f.bus (unit_path small) ≡ some status
      → is_over status ≡ false
      → match_units f.matches f.bus small f.white ≡ some true
      → match_units f.matches f.bus small f.black ≡ some false
      → scan_line f line ≡ some (some (small, pid))
  unfolding scan_line unit_pid is_listed
  scan_line-unit line small status pid here cut asked up shown over white black =
      let running : (pid == 0) ≡ false = ground (arith, up) in
      rw (scan_line, here, cut, unit_pid, asked, running, shown, over, is_listed, white, black) refl

  -- Completeness of a search of the units that comes to its end: a unit that a line of the text names
  -- ends up in a service, by its PID, when it has one and its process runs and shows a path with a
  -- name, when its state is neither exited nor dead nor empty, and when the white list has the unit and
  -- the black list has not, provided that plugins keep the main processes of a service.
  pub find_units-finds :
      (keep : All KeepsMain f.enhancers) (ss : List Service) (text line small status : Str)
      (pid : ℕ)
      → introspect f.bus ≡ some text
      → any (λ l. str_eq l line) (lines_of [] text) ≡ true
      → (find_units true f ss).1 ≡ true
      → is_unit_line line ≡ some true
      → unit_of line ≡ some small
      → get_pid f.bus (unit_path small) ≡ some pid
      → pid ≢ 0
      → get_sub_status f.bus (unit_path small) ≡ some status
      → is_over status ≡ false
      → match_units f.matches f.bus small f.white ≡ some true
      → match_units f.matches f.bus small f.black ≡ some false
      → f.os.alive pid ≡ true
      → is_empty (from_pid f.os pid).base_name ≡ false
      → any_pid (find_units true f ss).0 pid ≡ true
  unfolding find_units
  find_units-finds keep ss text line small status pid e listed ended here cut asked up shown over
        white black alive named =
      rw (find_units, e)
        (visit_units-finds keep line small pid
          (scan_line-unit line small status pid here cut asked up shown over white black) alive
          named (lines_of [] text) ss listed (rw (find_units, e) at ended))
