-- ===== src/Searches.antt =====
-- servicesManager::find of src/servicesManager.cpp over the detectors that are compiled: the one of
-- the systemd plugin, and behind it, as init adds it last, socketDetector.
pub mod Shipped
use watched_agent.Base.{
  ℕ, Bool, true, false, not, List, [], ◌∷◌, Option, none, some, Str, any, All, ◌≡◌, subst, arith,
  Bool-cases, Option-cases, inl, inr,
}
use watched_agent.Socket.{Socket, SockAddr}
use watched_agent.Process.{Os, from_pid, set_sockets, have_inode}
use watched_agent.Service.{Service}
use watched_agent.Manager.{any_pid, Enhancer}
use watched_agent.Manager.Detector.{Search, Rule, match_list, listening, detect}
use watched_agent.Manager.Finding.{stands_for, find_services-finds, find_services-keeps}
use watched_agent.Manager.Finding.Visits.{KeepsMain}
use watched_agent.Manager.Searching.{Detector, find}
use watched_agent.Systemd.Units.{Scan, find_units}
use watched_agent.Systemd.Listing.{find_units-keeps}

-- The systemd plugin's detector.
unfoldable pub units_detector : Bool → Bool → Scan → Detector
units_detector enabled have_bus f = record {
  enabled = enabled;
  search = λ ss. (find_units have_bus f ss).0;
  throws = λ ss. not (find_units have_bus f ss).1;
}

unfoldable pub changed : Option (List Service) → List Service → List Service
changed none ss = ss
changed (some ss') ss = ss'

unfoldable pub is_thrown : Option (List Service) → Bool
is_thrown none = true
is_thrown (some ss) = false

-- socketDetector, with the sockets that it reads, the plugins and the black list. Its exceptions come
-- before its changes.
unfoldable pub sockets_detector : Bool → Os → SockAddr → List Enhancer → Str → List Rule → Detector
unfolding changed is_thrown
sockets_detector enabled os raw enhancers host rules = record {
  enabled = enabled;
  search = λ ss. changed (detect os raw enhancers host rules ss) ss;
  throws = λ ss. is_thrown (detect os raw enhancers host rules ss);
}

-- A detector forgets no running process that a service knew.
abbrev pub Keeps : Os → Detector → Type 0
Keeps os d =
    (ss : List Service) (q : ℕ)
    → os.alive q ≡ true
    → any_pid ss q ≡ true
    → any_pid (d.search ss) q ≡ true

find-Keeps :
    (os : Os) (ds : List Detector)
    → All (Keeps os) ds
    → (ss : List Service) (q : ℕ) → os.alive q ≡ true
    → any_pid ss q ≡ true
    → any_pid (find ds ss) q ≡ true
unfolding find
find-Keeps os [] keep ss q alive h = h
find-Keeps os (d ∷ ds) keep ss q alive h =
    let after = keep.0 ss q alive h in
    ground (
      arith,
      find-Keeps os ds keep.1 ss q alive h,
      find-Keeps os ds keep.1 (d.search ss) q alive after,
    )

units_detector-Keeps :
    (enabled have_bus : Bool) (f : Scan) → Keeps f.os (units_detector enabled have_bus f)
unfolding units_detector
units_detector-Keeps enabled have_bus f ss q alive h = find_units-keeps f have_bus ss q alive h

module _ (os : Os) (raw : SockAddr) (enhancers : List Enhancer) (host : Str) (rules : List Rule)
    (keep : All KeepsMain enhancers) (names : List Str) (shown : os.proc_entries ≡ some names) where
  abbrev search_of : List Socket → Search
  search_of sockets = record {
    os = os;
    enhancers = enhancers;
    host = host;
    sockets = sockets;
    rules = rules;
  }

  sockets_detector-Keeps :
      (enabled : Bool) → Keeps os (sockets_detector enabled os raw enhancers host rules)
  unfolding sockets_detector detect
  sockets_detector-Keeps enabled ss q alive h = elim (Option-cases (listening os raw rules)) [
    | inl thrown ↦ rw (detect, thrown) h
    | inr (sockets, e) ↦
        rw (detect, e) (find_services-keeps (search_of sockets) keep ss names shown q alive h)
  ]

  sockets_detector-finds :
      (sockets : List Socket)
      → listening os raw rules ≡ some sockets
      → (pid : ℕ) → any (stands_for pid) names ≡ true
      → os.alive pid ≡ true
      → any (λ (k : Socket). have_inode (set_sockets os (from_pid os pid)).sockets k.id) sockets
        ≡ true
      → match_list (from_pid os pid) rules ≡ false
      → (ss : List Service)
      → any_pid ((sockets_detector true os raw enhancers host rules).search ss) pid ≡ true
  unfolding sockets_detector detect
  sockets_detector-finds sockets e pid listed alive owns free ss =
      rw (detect, e)
        (find_services-finds (search_of sockets) keep ss names shown pid listed alive owns free)

  module _ (f : Scan) (same : f.os ≡ os) (on have_bus : Bool) where
    -- A pass over both detectors, which see one system, forgets no running process that a service knew,
    -- whichever detector is enabled and throws, when /proc can be opened and the plugins of the second
    -- one keep the main processes of a service.
    pub find-keeps_both :
        (enabled : Bool) (ss : List Service) (q : ℕ)
        → os.alive q ≡ true
        → any_pid ss q ≡ true
        → any_pid
            (find
              (units_detector on have_bus f
                ∷ sockets_detector enabled os raw enhancers host rules
                ∷ [])
              ss)
            q
          ≡ true
    find-keeps_both enabled ss q alive h =
        find-Keeps os
          (units_detector on have_bus f ∷ sockets_detector enabled os raw enhancers host rules ∷ [])
          (
            subst (λ o. Keeps o (units_detector on have_bus f)) same
                (units_detector-Keeps on have_bus f),
            (sockets_detector-Keeps enabled, tt),
          )
          ss q alive h

    -- A pass over both detectors, which see one system, makes each running process of /proc known to a
    -- service that has a listening socket and is not on the black list, when the second one is enabled
    -- and the first one does not throw: provided that the files of /proc/net are read to `sockets`,
    -- /proc can be opened and the plugins of the second one keep the main processes of a service.
    pub find-finds_both :
        (sockets : List Socket) (ss : List Service) (pid : ℕ)
        → listening os raw rules ≡ some sockets
        → (find_units have_bus f ss).1 ≡ true
        → any (stands_for pid) names ≡ true
        → os.alive pid ≡ true
        → any (λ (k : Socket). have_inode (set_sockets os (from_pid os pid)).sockets k.id) sockets
          ≡ true
        → match_list (from_pid os pid) rules ≡ false
        → any_pid
            (find
              (units_detector on have_bus f
                ∷ sockets_detector true os raw enhancers host rules
                ∷ [])
              ss)
            pid
          ≡ true
    unfolding find units_detector sockets_detector
    find-finds_both sockets ss pid e ended listed alive owns free =
        let known = sockets_detector-finds sockets e pid listed alive owns free in
        elim (Bool-cases on) [
          | inr off ↦ rw (find, off) (last ss (known ss))
          | inl used ↦
              rw (find, used, ended)
                (last (find_units have_bus f ss).0 (known (find_units have_bus f ss).0))
        ]
      where
        last :
            (ts : List Service)
            → any_pid ((sockets_detector true os raw enhancers host rules).search ts) pid ≡ true
            → any_pid (find (sockets_detector true os raw enhancers host rules ∷ []) ts) pid ≡ true
        last ts h = ground arith
