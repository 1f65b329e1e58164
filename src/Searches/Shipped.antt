-- ===== src/Searches/Shipped.antt =====
-- A pass of servicesManager::find with the detectors that the program has: the one of systemd, those
-- that are written in Lua, and socketDetector.
use watched_agent.Base.{
  ℕ, Bool, true, false, List, [], ◌∷◌, some, Str, any, map, All, ◌++◌, ◌≡◌, refl, ◌∙◌, ap, arith,
}
use watched_agent.Socket.{Socket, SockAddr}
use watched_agent.Process.{Os, from_pid, set_sockets, have_inode}
use watched_agent.Service.{Service}
use watched_agent.Manager.{any_pid, Enhancer}
use watched_agent.Manager.Detector.{Rule, match_list, listening}
use watched_agent.Manager.Finding.{stands_for}
use watched_agent.Manager.Finding.Visits.{KeepsMain}
use watched_agent.Manager.Searching.{Detector, find}
use watched_agent.Systemd.Units.{Scan, find_units}
use watched_agent.Searches.{units_detector, sockets_detector, find-keeps_both, find-finds_both}

-- LuaDetector, which only calls the function find of its plugin: that one may call haveSocket and
-- havePID of the manager, which change nothing.
unfoldable pub lua_detector : Bool → Detector
lua_detector enabled = record { enabled = enabled; search = λ ss. ss; throws = λ ss. false }

-- `detectors` behind init: the compiled one, those in Lua, and socketDetector.
unfoldable pub detectors : Detector → List Bool → Detector → List Detector
unfolding lua_detector
detectors units luas sockets = units ∷ (map lua_detector luas ++ sockets ∷ [])

find-lua_detector :
    (luas : List Bool) (ds : List Detector) (ss : List Service)
    → find (map lua_detector luas ++ ds) ss ≡ find ds ss
unfolding find lua_detector
find-lua_detector [] ds ss = refl
find-lua_detector (enabled ∷ luas) ds ss = rw (find-lua_detector luas ds ss) (ground arith)

find-detectors :
    (units sockets : Detector) (luas : List Bool) (ss : List Service)
    → find (detectors units luas sockets) ss ≡ find (units ∷ sockets ∷ []) ss
unfolding find detectors
find-detectors units sockets luas ss =
    rw
      (
        find-lua_detector luas (sockets ∷ []) ss,
        find-lua_detector luas (sockets ∷ []) (units.search ss),
      )
      refl

module _ (os : Os) (raw : SockAddr) (enhancers : List Enhancer) (keep : All KeepsMain enhancers)
    (host : Str) (rules : List Rule) (names : List Str) (shown : os.proc_entries ≡ some names)
    (f : Scan) (same : f.os ≡ os) (on have_bus : Bool) (luas : List Bool) where
  -- A pass over the program's detectors, of which those of systemd and of sockets see one system,
  -- forgets no running process that a service knew, whichever detector is enabled and throws, provided
  -- that the enhancers keep the main processes of a service and that /proc can be opened.
  pub find-keeps_shipped :
      (enabled : Bool) (ss : List Service) (q : ℕ)
      → os.alive q ≡ true
      → any_pid ss q ≡ true
      → any_pid
          (find
            (detectors
              (units_detector on have_bus f)
              luas
              (sockets_detector enabled os raw enhancers host rules))
            ss)
          q
        ≡ true
  find-keeps_shipped enabled ss q alive h =
      ap (λ (ts : List Service). any_pid ts q) (find-detectors _ _ luas ss)
      ∙ find-keeps_both os raw enhancers host rules keep names shown f same on have_bus enabled ss q
          alive h

  -- A pass over the program's detectors, of which those of systemd and of sockets see one system,
  -- makes each running process of /proc known to a service that has a listening socket and is not on
  -- the black list, provided that the enhancers keep the main processes of a service, the detector of
  -- sockets is enabled, the one of systemd does not throw, the files of /proc/net are read to
  -- `sockets` and /proc can be opened.
  pub find-finds_shipped :
      (sockets : List Socket) (ss : List Service) (pid : ℕ)
      → listening os raw rules ≡ some sockets
      → (find_units have_bus f ss).1 ≡ true
      → any (stands_for pid) names ≡ true
      → os.alive pid ≡ true
      → any (λ (k : Socket). have_inode (set_sockets os (from_pid os pid)).sockets k.id) sockets
        ≡ true
      → match_list (from_pid os pid) rules ≡ false
      → any_pid
          (find
            (detectors
              (units_detector on have_bus f)
              luas
              (sockets_detector true os raw enhancers host rules))
            ss)
          pid
        ≡ true
  find-finds_shipped sockets ss pid e ended listed alive owns free =
      ap (λ (ts : List Service). any_pid ts pid) (find-detectors _ _ luas ss)
      ∙ find-finds_both os raw enhancers host rules keep names shown f same on have_bus sockets ss
          pid e ended listed alive owns free
