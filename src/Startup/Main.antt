-- ===== src/Startup/Main.antt =====
-- cmd/nfsplugin/main.go, `main`: the NFS services, `handle` in its goroutine and SIGTERM as steps.
-- What `os/exec` does is a step of its own: it calls `cmd.Cancel` in another goroutine once the
-- context is cancelled. `fails` is a fatal error or a panic of `d.Run`. A SIGTERM before `signal.Notify` ends the process at once and is left out.
use google_cloud_platform_nf.Prelude.{
  ◌≡◌, ◌≢◌, refl, Bool, true, false, not, ◌&&◌, Option, none, some,
}
use google_cloud_platform_nf.Text.{Bytes}
use google_cloud_platform_nf.Driver.{Driver}
use google_cloud_platform_nf.Startup.{Flags, handle}

-- The child process of `NfsServicesStartCmd`, up to the SIGTERM of `cmd.Cancel`. It may end by itself
-- at any time; `main` does not wait for it and takes no notice.
pub data NfsProcess : Type 0 where
  not_run running ended signalled : NfsProcess

-- Whether `cmd.Start` has started it.
abbrev was_started : NfsProcess → Bool
was_started not_run = false
was_started other = true

-- Where the goroutine of `main` stands. `fatal` and `exited` are ends of the process.
pub data MainPhase : Type 0 where
  starting prepared waiting cancelled exited fatal : MainPhase

pub record Main : Type 0 where
  pub main_phase : MainPhase
  pub nfs_process : NfsProcess
  pub handling : Bool
  pub running_driver : Option Driver

abbrev pub new_main : Main
new_main = record {
  main_phase = starting;
  nfs_process = not_run;
  handling = false;
  running_driver = none;
}

abbrev pub is_over : MainPhase → Bool
is_over exited = true
is_over fatal = true
is_over other = false

-- `*runNfsServices && !*runControllerServer`.
unfoldable pub starts_nfs_services : Bool → Flags → Bool
starts_nfs_services run_nfs_services f = run_nfs_services && not f.run_controller_server

module _ (driver_version : Bytes) (f : Flags) (run_nfs_services : Bool) where
  pub data Step (y z : Main) : Type 0 where
    starts_services :
        y.main_phase ≡ starting
        → starts_nfs_services run_nfs_services f ≡ true
        → z ≡ record y { main_phase = prepared; nfs_process = running }
        → Step y z
    cannot_start :
        y.main_phase ≡ starting
        → starts_nfs_services run_nfs_services f ≡ true
        → z ≡ record y { main_phase = fatal }
        → Step y z
    needs_no_services :
        y.main_phase ≡ starting
        → starts_nfs_services run_nfs_services f ≡ false
        → z ≡ record y { main_phase = prepared }
        → Step y z
    goes :
        y.main_phase ≡ prepared → z ≡ record y { main_phase = waiting; handling = true } → Step y z
    handles :
        (d : Driver)
        → y.handling ≡ true
        → is_over y.main_phase ≡ false
        → handle driver_version f ≡ some d
        → z ≡ record y { handling = false; running_driver = some d }
        → Step y z
    cannot_handle :
        y.handling ≡ true
        → is_over y.main_phase ≡ false
        → handle driver_version f ≡ none
        → z ≡ record y { main_phase = fatal }
        → Step y z
    fails :
        (d : Driver)
        → y.running_driver ≡ some d
        → is_over y.main_phase ≡ false
        → z ≡ record y { main_phase = fatal }
        → Step y z
    ends : y.nfs_process ≡ running → z ≡ record y { nfs_process = ended } → Step y z
    cancels : y.main_phase ≡ waiting → z ≡ record y { main_phase = cancelled } → Step y z
    signals :
        y.main_phase ≡ cancelled
        → y.nfs_process ≡ running
        → z ≡ record y { nfs_process = signalled }
        → Step y z
    exits : y.main_phase ≡ cancelled → z ≡ record y { main_phase = exited } → Step y z

  pub data Reach (y : Main) : Main → Type 0 where
    here : Reach y y
    next : {z w : Main} → Reach y z → Step z w → Reach y w

  -- What each phase knows of the child.
  pub IsAt : MainPhase → NfsProcess → Type 0
  IsAt starting p = p ≡ not_run
  IsAt prepared p = (was_started p ≡ starts_nfs_services run_nfs_services f) × (p ≢ signalled)
  IsAt waiting p = (was_started p ≡ starts_nfs_services run_nfs_services f) × (p ≢ signalled)
  IsAt cancelled p = was_started p ≡ starts_nfs_services run_nfs_services f
  IsAt exited p = was_started p ≡ starts_nfs_services run_nfs_services f
  IsAt fatal p = was_started p ≡ true → starts_nfs_services run_nfs_services f ≡ true

  -- In every phase the child was started only where the flags ask for it.
  IsAt-fatal : (phase : MainPhase) (p : NfsProcess) → IsAt phase p → IsAt fatal p
  unfolding IsAt
  IsAt-fatal starting p h = λ started. absurd (let bad = rw h at started in cc)
  IsAt-fatal prepared p h = λ started. cc
  IsAt-fatal waiting p h = λ started. cc
  IsAt-fatal cancelled p h = λ started. cc
  IsAt-fatal exited p h = λ started. cc
  IsAt-fatal fatal p h = h

  -- A child that ends by itself.
  IsAt-ended : (phase : MainPhase) → IsAt phase running → IsAt phase ended
  unfolding IsAt
  IsAt-ended starting h = absurd (cc)
  IsAt-ended prepared h = (h.0, λ bad. cc)
  IsAt-ended waiting h = (h.0, λ bad. cc)
  IsAt-ended cancelled h = h
  IsAt-ended exited h = h
  IsAt-ended fatal h = h

  Holds : Main → Type 0
  Holds y = IsAt y.main_phase y.nfs_process

  Step-IsAt : {y z : Main} → Step y z → Holds y → Holds z
  unfolding Holds IsAt
  Step-IsAt {y} (starts_services p asked e) h = rw e (rw asked refl, λ bad. cc)
  Step-IsAt {y} (cannot_start p asked e) h = rw e (λ started. asked)
  Step-IsAt {y} (needs_no_services p unasked e) h =
      let idle = rw p at h in rw (e, idle) (rw unasked refl, λ bad. cc)
  Step-IsAt {y} (goes p e) h = rw e (rw p at h)
  Step-IsAt {y} (handles d handling alive made e) h = rw e h
  Step-IsAt {y} (cannot_handle handling alive bad e) h =
      rw e (IsAt-fatal y.main_phase y.nfs_process h)
  Step-IsAt {y} (fails d driven alive e) h = rw e (IsAt-fatal y.main_phase y.nfs_process h)
  Step-IsAt {y} (ends child e) h = rw e (IsAt-ended y.main_phase (rw child at h))
  Step-IsAt {y} (cancels p e) h = let old = rw p at h in rw e old.0
  Step-IsAt {y} (signals p child e) h = let old = rw (p, child) at h in rw (e, p) old
  Step-IsAt {y} (exits p e) h = rw e (rw p at h)

  pub Reach-IsAt : {y : Main} → Reach new_main y → IsAt y.main_phase y.nfs_process
  unfolding IsAt Holds
  Reach-IsAt here = refl
  Reach-IsAt (next r step) = Step-IsAt step (Reach-IsAt r)

  -- From every state in which `main` waits and the NFS services run, SIGTERM can end the process
  -- before the services get their own SIGTERM: `main` exits without waiting for it.
  pub exits-running :
      {y : Main}
      → Reach new_main y
      → y.main_phase ≡ waiting
      → y.nfs_process ≡ running
      → (z : Main) × Reach new_main z × (z.main_phase ≡ exited) × (z.nfs_process ≡ running)
  exits-running {y} r p child =
      let z : Main = record y { main_phase = cancelled } in
      (
        record y { main_phase = exited },
        next (next r (cancels p refl)) (exits refl refl),
        refl,
        child,
      )
