-- ===== src/Systemd/Handling.antt =====
-- The handler and the enhancer of the systemd plugin.
use watched_agent.Base.{
  ℕ, Bool, true, ◌&&◌, ◌||◌, not, some, Str, str_eq, codes, length, drop, ltb, ◌-◌, any, ◌==◌,
  ==_iff, ◌≡◌, refl, ap, arith, Bool-cases, Option-cases, inl, inr, along_some,
}
use watched_agent.Process.{Os, from_pid}
use watched_agent.Service.{
  Service, get_main_process, have_pid, has_pid, update_main_process, is_empty,
}
use watched_agent.Service.Updates.{have_pid-update_main_process}
use watched_agent.Manager.Finding.Visits.{KeepsMain, pid-from_pid}
use watched_agent.Systemd.{Bus, get_pid, get_status, find_by_pid, is_blackout, enhance_unit}

module _ (bus : Bus) where
  -- The enhancer keeps the main processes of a service, so that it may stand among the plugins of the
  -- searches.
  pub enhance_unit-KeepsMain : (have_bus : Bool) → KeepsMain (enhance_unit bus have_bus)
  unfolding enhance_unit
  enhance_unit-KeepsMain have_bus s s' q e h = elim (Bool-cases have_bus) [
    | inr off ↦ absurd (ground (arith, rw (enhance_unit, off) at e))
    | inl on ↦ elim (Option-cases (get_main_process s)) [
      | inl gone ↦ absurd (ground (arith, rw (enhance_unit, on, gone) at e))
      | inr (p, first) ↦ elim (Option-cases s.handler) [
        | inr (b, has) ↦ absurd (ground (arith, rw (enhance_unit, on, first, has) at e))
        | inl hasnt ↦ elim (Option-cases (find_by_pid bus p.pid)) [
          | inl bad ↦ absurd (ground (arith, rw (enhance_unit, on, first, hasnt, bad) at e))
          | inr (name, found) ↦
              elim (Bool-cases
                (ltb 7 (length name) && str_eq (drop (length name - 7) name) (codes "service"))) [
                  | inr other ↦
                      absurd
                        (ground (arith, rw (enhance_unit, on, first, hasnt, found, other) at e))
                  | inl unit ↦
                      along_some (λ (t : Service). any (has_pid q) t.main_process ≡ true)
                        (record s { uniq_name = name; handler = some name }) s'
                        (rw (enhance_unit, on, first, hasnt, found, unit) at e) h
                ]
        ]
      ]
    ]
  ]

  -- When the bus gives the state of a unit and its PID, the handler answers true exactly for the states
  -- active and inactive. Afterwards the service knows the running processes that it knew, and the one
  -- of the PID when the state is active, the PID is not 0 and its process shows a path with a name.
  pub is_blackout-knows :
      (os : Os) (id status : Str) (s : Service) (pid : ℕ)
      → get_status bus id ≡ some status
      → get_pid bus id ≡ some pid
      → (s' : Service) × (is_blackout bus true os id (some s)
          ≡ some (str_eq status (codes "active") || str_eq status (codes "inactive"), some s'))
        × ((q : ℕ)
            → os.alive q ≡ true
            → have_pid s' q ≡ (
                have_pid s q
                || (str_eq status (codes "active")
                    && (not (pid == 0)
                        && (not (is_empty (from_pid os pid).base_name) && (pid == q))))))
  unfolding is_blackout
  is_blackout-knows os id status s pid shown asked =
      let p = from_pid os pid in
      elim (Bool-cases (str_eq status (codes "active"))) [
        | inr other ↦ (s, rw (is_blackout, shown, other) refl, λ q alive. rw other (ground arith))
        | inl active ↦ elim (Bool-cases ((pid == 0) || (have_pid s pid || is_empty p.base_name))) [
          | inl known ↦ (
            s,
            rw (is_blackout, shown, active, asked, known) refl,
            λ q alive. elim (Bool-cases (pid == q)) [
              | inl e ↦
                  let same : pid ≡ q = (==_iff pid q).0 e in ground (arith, ap (have_pid s) same)
              | inr e ↦ ground arith
            ],
          )
          | inr new ↦ (
            update_main_process os p s,
            rw (is_blackout, shown, active, asked, new) refl,
            λ q alive.
                ground (arith, have_pid-update_main_process os p s q alive, pid-from_pid os pid),
          )
        ]
      ]
