-- ===== src/Service/Plugged/Adding.antt =====
-- Collectors and log parsers are made once, and what setHandler does to the factories.
use watched_agent.Base.{
  along_some, Bool, true, List, [], ◌∷◌, ◌++◌, none, some, Str, str_eq, str_eq_iff, str_eq_refl,
  codes, lookup, insert, lookup-insert, first, any, ◌≡◌, refl, arith, ◌⊎◌, inl, inr, Bool-cases,
  Option-cases, ◌∙◌,
}
use watched_agent.Json.{Json}
use watched_agent.Process.{Os, Process, get_open_logs, contains}
use watched_agent.Service.Plugged.{
  entry, open_log, choose_log, Plugged, Makers, add_collector, set_handler, add_log_monitor,
}

first-lem :
    (p : Str → Bool) (xs : List Str) (x : Str)
    → first p xs ≡ some x
    → (any (str_eq x) xs ≡ true) × (p x ≡ true)
first-lem p [] x e = ground (arith, e)
first-lem p (y ∷ ys) x e = elim (Bool-cases (p y)) [
  | inl h ↦ let same : y ≡ x = ground (arith, e, h) in rw (← same) (rw (str_eq_refl y) refl, h)
  | inr h ↦ let ih = first-lem p ys x (ground (arith, e, h)) in (ground (arith, ih.0), ih.1)
]

-- The file is open in one of the processes.
pub is_open : Os → Str → List Process → Bool
is_open os f ps = any (λ (p : Process). any (str_eq f) (get_open_logs os p.pid)) ps

open_log-is_open :
    (os : Os) (t f : Str) (ps : List Process)
    → open_log os t ps ≡ some f
    → (is_open os f ps ≡ true) × (contains t f ≡ true)
unfolding open_log is_open
open_log-is_open os t f [] e = ground (arith, e)
open_log-is_open os t f (p ∷ ps) e =
    elim (Option-cases (first (contains t) (get_open_logs os p.pid))) [
      | inl h ↦
          let ih = open_log-is_open os t f ps (rw (open_log, h) at e) in
          (ground (arith, ih.0), ih.1)
      | inr (l, h) ↦
          let same : l ≡ f = ground (arith, rw (open_log, h) at e) in
          let found = first-lem (contains t) (get_open_logs os p.pid) l h in
          rw (← same) (ground (arith, found.0), found.1)
    ]

-- A file that addLogMonitor follows is the agent's own log, for the text watched.agent; or a log that
-- some main process has open and that contains the text; or a file that exists and has the text as
-- its path.
choose_log-from :
    (os : Os) (agent_log t f : Str) (ps : List Process)
    → choose_log os agent_log t ps ≡ some f
    → ((t ≡ codes "watched.agent") × (f ≡ agent_log))
      ⊎ (((is_open os f ps ≡ true) × (contains t f ≡ true)) ⊎ ((f ≡ t) × (os.file_exists t ≡ true)))
unfolding choose_log
choose_log-from os agent_log t f ps e = elim (Bool-cases (str_eq t (codes "watched.agent"))) [
  | inl own ↦
      inl ((str_eq_iff t (codes "watched.agent")).0 own, ground (arith, rw (choose_log, own) at e))
  | inr other ↦ elim (Option-cases (open_log os t ps)) [
    | inr (l, h) ↦
        let same : open_log os t ps ≡ some f = h ∙ (rw (choose_log, other, h) at e) in
        inr (inl (open_log-is_open os t f ps same))
    | inl h ↦ elim (Bool-cases (os.file_exists t)) [
      | inl there ↦ inr (inr (ground (arith, rw (choose_log, other, h, there) at e), there))
      | inr gone ↦ absurd (ground (arith, rw (choose_log, other, h, gone) at e))
    ]
  ]
]

inserted :
    {A : Type 0} (name : Str) (x : A) (xs : List (Str × A))
    → lookup str_eq name (insert str_eq name x xs) ≡ some x
inserted name x xs = rw (lookup-insert name name x xs, str_eq_refl name) refl

lookup-append_new :
    {A : Type 0} (name : Str) (x : A) (xs : List (Str × A))
    → lookup str_eq name xs ≡ none
    → lookup str_eq name (xs ++ (name, x) ∷ []) ≡ some x
lookup-append_new name x [] h = rw (str_eq_refl name) refl
lookup-append_new name x (e ∷ xs) h = ground (arith, lookup-append_new name x xs)

module _ (json : Json) {C P H : Type 0} where
  open json use {Value}

  add_collector-known :
      (m : Makers Value C P H) (start : C → C) (name : Str) (s : Plugged Value C P H) (c : C)
      → lookup str_eq name s.collectors ≡ some c
      → add_collector json m start name s ≡ some s
  unfolding add_collector
  add_collector-known m start name s c h = rw (add_collector, h) refl

  -- A second call of addCollector with a name changes nothing: a collector is made and started once.
  add_collector-again :
      (m : Makers Value C P H) (start : C → C) (name : Str) (s t : Plugged Value C P H)
      → add_collector json m start name s ≡ some t
      → add_collector json m start name t ≡ some t
  unfolding add_collector
  add_collector-again m start name s t e = elim (Option-cases (lookup str_eq name s.collectors)) [
    | inr (c, h) ↦
        along_some kept s t (rw (add_collector, h) at e) (add_collector-known m start name s c h)
    | inl h ↦ elim (Option-cases (lookup str_eq name m.collectors)) [
      | inl g ↦ along_some kept s t (rw (add_collector, h, g) at e) (rw (add_collector, h, g) refl)
      | inr ((none, file), g) ↦ absurd (ground (arith, rw (add_collector, h, g) at e))
      | inr ((some make, file), g) ↦
          along_some kept _ t (rw (add_collector, h, g) at e)
            (add_collector-known m start name _ _ (inserted name _ s.collectors))
    ]
  ]
    where
      kept : Plugged Value C P H → Type 0
      kept u = add_collector json m start name u ≡ some u

  module _ (m : Makers Value C P H) (os : Os) (agent_log : Str) (ps : List Process) (start : P → P)
      (name text : Str) where
    add_log_monitor-known :
        (s : Plugged Value C P H) (p : P)
        → lookup str_eq text s.parsers ≡ some p
        → add_log_monitor json m os agent_log ps start name text s ≡ some s
    unfolding add_log_monitor
    add_log_monitor-known s p h = rw (add_log_monitor, h) refl

    -- A second call of addLogMonitor with a name and a text changes nothing, while the open files are
    -- the same.
    add_log_monitor-again :
        (s t : Plugged Value C P H)
        → add_log_monitor json m os agent_log ps start name text s ≡ some t
        → add_log_monitor json m os agent_log ps start name text t ≡ some t
    unfolding add_log_monitor
    add_log_monitor-again s t e = elim (Option-cases (lookup str_eq text s.parsers)) [
      | inr (p, h) ↦
          along_some kept s t (rw (add_log_monitor, h) at e) (add_log_monitor-known s p h)
      | inl h ↦ elim (Option-cases (lookup str_eq name m.parsers)) [
        | inl g ↦
            along_some kept s t (rw (add_log_monitor, h, g) at e) (rw (add_log_monitor, h, g) refl)
        | inr ((make, lua), g) ↦ elim (Option-cases (choose_log os agent_log text ps)) [
          | inl k ↦
              along_some kept s t (rw (add_log_monitor, h, g, k) at e)
                (rw (add_log_monitor, h, g, k) refl)
          | inr (file, k) ↦ elim (Option-cases make) [
            | inl n ↦ absurd (ground (arith, rw (add_log_monitor, h, g, k, n) at e))
            | inr (make_parser, n) ↦
                along_some kept _ t (rw (add_log_monitor, h, g, k, n) at e)
                  (add_log_monitor-known _ _ (inserted text _ s.parsers))
          ]
        ]
      ]
    ]
      where
        kept : Plugged Value C P H → Type 0
        kept u = add_log_monitor json m os agent_log ps start name text u ≡ some u

  -- A handler that has a factory, and whose name is neither that of a collector of the service nor of a
  -- factory of collectors, is made with an empty file in place of its own; the factories of the
  -- collectors then have a null pointer under its name, and a call of addCollector with this name, on
  -- the service, calls it.
  pub add_collector-set_handler :
      (m : Makers Value C P H) (start : C → C) (name file : Str) (make : Str → H)
      (s : Plugged Value C P H)
      → lookup str_eq name s.collectors ≡ none
      → lookup str_eq name m.handlers ≡ some (some make, file)
      → lookup str_eq name m.collectors ≡ none
      → (m' : Makers Value C P H) × (t : Plugged Value C P H) × (set_handler json m name s
          ≡ some (m', t))
        × (t.handler ≡ some (make []))
        × (add_collector json m' start name t ≡ none)
  unfolding set_handler entry add_collector
  add_collector-set_handler m start name file make s h g k =
      let broken = m.collectors ++ (name, (none, [])) ∷ [] in
      (
        record m { collectors = broken },
        record s { handler = some (make []) },
        rw (set_handler, h, g, entry, k) refl,
        refl,
        rw (add_collector, h, lookup-append_new name (none, []) m.collectors k) refl,
      )
