-- ===== src/Systemd/Replies.antt =====
-- The replies of src/servicesManager.cpp when the handlers of the services are those of
-- services/sdbus/systemdbus.cpp.
use watched_agent.Base.{
  ◌==◌, ◌||◌, Bool, true, false, List, [], ◌∷◌, some, Str, str_eq, codes, any, ◌≡◌, arith,
  Bool-cases, Option-cases, inl, inr, along_some, ℕ, ◌>>=◌,
}
use watched_agent.Json.{Json}
use watched_agent.Process.{Os, from_pid}
use watched_agent.Service.{Service, have_pid, is_empty, update_main_process}
use watched_agent.Service.Updates.{have_pid-update_main_process}
use watched_agent.Service.Views.{Replies, Status, get_json_status, has_failure, status_of}
use watched_agent.Collector.{Collector}
use watched_agent.Manager.Collected.{Watched, Part, visit_service, visit_services, get_all}
use watched_agent.Systemd.{Bus, get_status, get_pid, is_blackout}

-- handler->isBlackout() of a systemdHandler, whose service is there while it asks.
unfoldable pub systemd_replies : Bus → Bool → Os → Replies
unfolding is_blackout
systemd_replies bus have_bus os h s =
    is_blackout bus have_bus os h (some s) >>= λ r. r.1 >>= λ s'. some (r.0, s')

module _ (bus : Bus) (have_bus : Bool) (os : Os) (q : ℕ) (alive : os.alive q ≡ true) where
  -- The service behind a step knows q when the one before does.
  abbrev Kept : Service → Service → Type 0
  Kept s t = have_pid s q ≡ true → have_pid t q ≡ true

  systemd_replies-Kept :
      (h : Str) (s : Service) (b : Bool) (t : Service)
      → systemd_replies bus have_bus os h s ≡ some (b, t)
      → Kept s t
  unfolding systemd_replies is_blackout
  systemd_replies-Kept h s b t e known = elim (Bool-cases have_bus) [
    | inr off ↦
        along_some keeps (false, s) (b, t) (rw (systemd_replies, is_blackout, off) at e) known
    | inl on ↦ elim (Option-cases (get_status bus h)) [
      | inl bad ↦ absurd (ground (arith, rw (systemd_replies, is_blackout, on, bad) at e))
      | inr (status, shown) ↦ elim (Bool-cases (str_eq status (codes "active"))) [
        | inr other ↦
            along_some keeps (str_eq status (codes "inactive"), s) (b, t)
              (rw (systemd_replies, is_blackout, on, shown, other) at e) known
        | inl active ↦ elim (Option-cases (get_pid bus h)) [
          | inl bad ↦
              absurd
                (ground (arith, rw (systemd_replies, is_blackout, on, shown, active, bad) at e))
          | inr (pid, asked) ↦
              let p = from_pid os pid in
              elim (Bool-cases ((pid == 0) || (have_pid s pid || is_empty p.base_name))) [
                | inl same ↦
                    along_some keeps (true, s) (b, t)
                      (rw (systemd_replies, is_blackout, on, shown, active, asked, same) at e) known
                | inr new ↦
                    along_some keeps (true, update_main_process os p s) (b, t)
                      (rw (systemd_replies, is_blackout, on, shown, active, asked, new) at e)
                      (ground (arith, have_pid-update_main_process os p s q alive, known))
              ]
        ]
      ]
    ]
  ]
    where
      keeps : Bool × Service → Type 0
      keeps r = have_pid r.1 q ≡ true

  get_json_status-Kept :
      (s : Service) (status : Status) (t : Service)
      → get_json_status (systemd_replies bus have_bus os) os s ≡ some (status, t)
      → Kept s t
  unfolding get_json_status watched_agent.Service.Views.is_blackout
  get_json_status-Kept s status t e known = elim (Bool-cases (has_failure os s)) [
    | inr fine ↦
        along_some keeps (status_of os false s, s) (status, t)
          (rw (get_json_status, watched_agent.Service.Views.is_blackout, fine) at e) known
    | inl failed ↦ elim (Option-cases s.handler) [
      | inl hasnt ↦
          along_some keeps (status_of os false s, s) (status, t)
            (rw (get_json_status, watched_agent.Service.Views.is_blackout, failed, hasnt) at e)
            known
      | inr (h, has) ↦ elim (Option-cases (systemd_replies bus have_bus os h s)) [
        | inl thrown ↦ absurd (
            ground (
              arith,
              rw (get_json_status, watched_agent.Service.Views.is_blackout, failed, has, thrown) at
                  e,
            ))
        | inr ((b, u), asked) ↦
            along_some keeps (status_of os b u, u) (status, t)
              (rw (get_json_status, watched_agent.Service.Views.is_blackout, failed, has, asked) at
                e)
              (systemd_replies-Kept h s b u asked known)
      ]
    ]
  ]
    where
      keeps : Status × Service → Type 0
      keeps r = have_pid r.1 q ≡ true

  module _ (json : Json) where
    open json use {Double}

    abbrev knows : List (Watched json) → Bool
    knows ws = any (λ w. have_pid w.service q) ws

    visit_service-Kept :
        (since : Double) (w : Watched json) (parts parts' : List (Str × Part json))
        (w' : Watched json)
        → visit_service json (systemd_replies bus have_bus os) os since w parts ≡ some (parts', w')
        → Kept w.service w'.service
    unfolding visit_service
    visit_service-Kept since w parts parts' w' e =
        elim (Option-cases (get_json_status (systemd_replies bus have_bus os) os w.service)) [
          | inl thrown ↦ absurd (ground (arith, rw (visit_service, thrown) at e))
          | inr ((status, t), read) ↦
              along_some (λ (r : List (Str × Part json) × Watched json). Kept w.service r.1.service)
                _ (parts', w') (rw (visit_service, read) at e)
                (get_json_status-Kept w.service status t read)
        ]

    visit_services-keeps :
        (since : Double) (ws : List (Watched json)) (parts : List (Str × Part json))
        → knows ws ≡ true
        → knows (visit_services json (systemd_replies bus have_bus os) os since ws parts).1 ≡ true
    unfolding visit_services
    visit_services-keeps since [] parts h = h
    visit_services-keeps since (w ∷ ws) parts h =
        elim (Option-cases
          (visit_service json (systemd_replies bus have_bus os) os since w parts)) [
            | inl thrown ↦ rw (visit_services, thrown) h
            | inr ((parts', w'), e) ↦
                let kept = visit_service-Kept since w parts parts' w' e in
                let rest = visit_services-keeps since ws parts' in
                rw (visit_services, e)
                  (elim (Bool-cases (have_pid w.service q)) [
                    | inl own ↦ ground (arith, kept own)
                    | inr other ↦ ground (arith, rest (ground (arith, h, other)))
                  ])
          ]

    -- When the handlers of the services are those of systemd, doGetAllJson leaves every running process
    -- known that a service knew before, whether the document is made or an exception ends it.
    pub get_all-keeps :
        (now since : Double) (ws : List (Watched json)) (system : List (Str × Collector json))
        → any (λ w. have_pid w.service q) ws ≡ true
        → any
            (λ w. have_pid w.service q)
            (get_all json (systemd_replies bus have_bus os) os now ws system since).1
          ≡ true
    unfolding get_all
    get_all-keeps now since ws system h = visit_services-keeps since ws [] h
