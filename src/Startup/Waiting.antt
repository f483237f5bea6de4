-- ===== src/Startup/Waiting.antt =====
-- When `Wait` of pkg/nfs/server.go returns, and what the server is then.
use google_cloud_platform_nf.Prelude.{◌≡◌, ◌≢◌, refl, Bool, true, none, some, arith, if◌then◌else◌}
use google_cloud_platform_nf.Text.{Bytes}
use google_cloud_platform_nf.Startup.Run.{Services}
use google_cloud_platform_nf.Startup.Lifecycle.{
  Os, bind, Phase, not_started, started, listening, registered, ready, serving, returned, fatal,
  Process, start, signal, stop, Step, starts, listens, dies, registers, signals, passes, serves,
  serves_late, breaks, returns, stops, Reach, here, next,
}

module _ (os : Os) (endpoint : Bytes) (services : Services) (test_mode : Bool) where
  -- Behind the test of `testMode`.
  IsReadyAt : Bytes × Bytes → Process → Type 0
  IsReadyAt at y =
      (bind os endpoint ≡ some at)
      × (y.server ≡ some services)
      × (y.wg ≡ (if test_mode then 0 else 1))

  -- What holds while the goroutine stands at a phase.
  IsAt : Phase → Process → Type 0
  IsAt not_started y = (y.wg ≡ 0) × (y.server ≡ none)
  IsAt started y = (y.wg ≡ 1) × (y.server ≡ none)
  IsAt (listening at) y = (bind os endpoint ≡ some at) × (y.wg ≡ 1) × (y.server ≡ none)
  IsAt (registered at) y = (bind os endpoint ≡ some at) × (y.wg ≡ 1) × (y.server ≡ some services)
  IsAt (ready at) y = IsReadyAt at y
  IsAt (serving at) y = IsReadyAt at y
  IsAt (returned at) y = IsReadyAt at y
  IsAt fatal y = Unit {0}

  stopped-IsAt : (p : Phase) (y : Process) → IsAt p y → IsAt p (record y { stopped = true })
  unfolding IsAt IsReadyAt
  stopped-IsAt not_started y h = h
  stopped-IsAt started y h = h
  stopped-IsAt (listening at) y h = h
  stopped-IsAt (registered at) y h = h
  stopped-IsAt (ready at) y h = h
  stopped-IsAt (serving at) y h = h
  stopped-IsAt (returned at) y h = h
  stopped-IsAt fatal y h = h

  Step-IsAt :
      {y z : Process} → Step os endpoint services test_mode y z → IsAt y.phase y → IsAt z.phase z
  unfolding IsAt IsReadyAt start signal
  Step-IsAt {y} (starts p e) h = let old = rw p at h in rw e (omega (arith, old.0), old.1)
  Step-IsAt {y} (listens at p bound e) h = let old = rw p at h in rw e (bound, old.0, old.1)
  Step-IsAt {y} (dies p bound e) h = rw e tt
  Step-IsAt {y} (registers at p e) h = let old = rw p at h in rw e (old.0, old.1, refl)
  Step-IsAt {y} (signals at t p e) h =
      let old = rw p at h in rw (e, t) (old.0, old.2, omega (arith, old.1))
  Step-IsAt {y} (passes at t p e) h = let old = rw p at h in rw (e, t) (old.0, old.2, old.1)
  Step-IsAt {y} (serves at p live e) h = rw e (rw p at h)
  Step-IsAt {y} (serves_late at p late e) h = rw e tt
  Step-IsAt {y} (breaks at p e) h = rw e tt
  Step-IsAt {y} (returns at p late e) h = rw e (rw p at h)
  Step-IsAt {y} (stops alive waiting done e) h = rw e (stopped-IsAt y.phase y h)

  Reach-IsAt : {y : Process} → Reach os endpoint services test_mode y → IsAt y.phase y
  unfolding IsAt
  Reach-IsAt here = (refl, refl)
  Reach-IsAt (next r step) = Step-IsAt step (Reach-IsAt r)

  IsReadyAt-waited :
      (at : Bytes × Bytes) (y : Process)
      → IsReadyAt at y
      → y.wg ≡ 0
      → (test_mode ≡ true) × (y.server ≡ some services) × (bind os endpoint ≡ some at)
  unfolding IsReadyAt
  IsReadyAt-waited at y h done = (ground (arith, h.2), h.1, h.0)

  IsAt-waited :
      (p : Phase) (y : Process)
      → IsAt p y
      → p ≢ not_started
      → p ≢ fatal
      → y.wg ≡ 0
      → (at : Bytes × Bytes) × (test_mode ≡ true)
        × (y.server ≡ some services)
        × (bind os endpoint ≡ some at)
  unfolding IsAt
  IsAt-waited not_started y h begun alive done = absurd (begun refl)
  IsAt-waited started y h begun alive done = absurd (omega (arith, h.0))
  IsAt-waited (listening at) y h begun alive done = absurd (omega (arith, h.1))
  IsAt-waited (registered at) y h begun alive done = absurd (omega (arith, h.1))
  IsAt-waited (ready at) y h begun alive done =
      let all = IsReadyAt-waited at y h done in (at, all.0, all.1, all.2)
  IsAt-waited (serving at) y h begun alive done =
      let all = IsReadyAt-waited at y h done in (at, all.0, all.1, all.2)
  IsAt-waited (returned at) y h begun alive done =
      let all = IsReadyAt-waited at y h done in (at, all.0, all.1, all.2)
  IsAt-waited fatal y h begun alive done = absurd (alive refl)

  -- After `Start`, while the process lives, the wait group is at zero, as `Wait` needs it to return,
  -- only in test mode, and only once the listener is there and `s.server` is the server with its
  -- services. Outside test mode `Wait` never returns.
  pub Reach-waited :
      {y : Process}
      → Reach os endpoint services test_mode y
      → y.phase ≢ not_started
      → y.phase ≢ fatal
      → y.wg ≡ 0
      → (at : Bytes × Bytes) × (test_mode ≡ true)
        × (y.server ≡ some services)
        × (bind os endpoint ≡ some at)
  Reach-waited {y} r begun alive done = IsAt-waited y.phase y (Reach-IsAt r) begun alive done

  -- Once `Wait` can return, `Stop` finds a server.
  Reach-stop :
      {y : Process}
      → Reach os endpoint services test_mode y
      → y.phase ≢ not_started
      → y.phase ≢ fatal
      → y.wg ≡ 0
      → stop y ≡ some (record y { stopped = true })
  unfolding stop
  Reach-stop r begun alive done =
      let (_, _, there, _) = Reach-waited r begun alive done in rw there refl

  -- A server that serves listens where its endpoint says, and has its services.
  pub Reach-serving :
      {y : Process} (at : Bytes × Bytes)
      → Reach os endpoint services test_mode y
      → y.phase ≡ serving at
      → (bind os endpoint ≡ some at) × (y.server ≡ some services)
  unfolding IsAt IsReadyAt
  Reach-serving {y} at r p =
      let all : IsAt y.phase y = Reach-IsAt r in let h = rw p at all in (h.0, h.1)
