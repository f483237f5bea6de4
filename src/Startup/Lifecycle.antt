-- ===== src/Startup/Lifecycle.antt =====
-- pkg/nfs/server.go: `Start`, `serve` and `Wait` of the gRPC server as steps of goroutines that share
-- the wait group and the server. `Run` calls `Start` once, and then `Wait`.
use google_cloud_platform_nf.Prelude.{
  ℕ, ◌+◌, ◌-◌, ◌≡◌, ◌≢◌, Bool, true, false, ◌&&◌, Option, none, some, if◌then◌else◌,
}
use google_cloud_platform_nf.Text.{Bytes, codes, eq_bytes}
use google_cloud_platform_nf.Server.{parse_endpoint, listen_address}
use google_cloud_platform_nf.Startup.Run.{Services}

-- What `os.Remove` answers.
pub data Removal : Type 0 where
  removed absent not_removed : Removal

-- The operating system as `serve` calls it: `os.Remove`, and whether `net.Listen` succeeds.
pub record Os : Type 0 where
  pub remove : Bytes → Removal
  pub listen : Bytes → Bytes → Bool

-- `err != nil && !os.IsNotExist(err)`.
abbrev is_fatal : Removal → Bool
is_fatal not_removed = true
is_fatal other = false

unfoldable listen_at : Os → Bytes × Bytes → Option (Bytes × Bytes)
listen_at os (proto, addr) = if os.listen proto addr then some (proto, addr) else none

unfoldable bind_to : Os → Bytes × Bytes → Option (Bytes × Bytes)
unfolding listen_at listen_address eq_bytes
bind_to os (proto, addr) =
    if eq_bytes proto (codes "unix") && is_fatal (os.remove (listen_address (proto, addr)).1)
    then none
    else listen_at os (listen_address (proto, addr))

-- `serve` up to its listener: the protocol and the address, or a fatal error.
unfoldable pub bind : Os → Bytes → Option (Bytes × Bytes)
unfolding bind_to parse_endpoint
bind os endpoint = elim (parse_endpoint endpoint) [ none ↦ none | some parts ↦ bind_to os parts ]

-- Where the goroutine of `serve` stands. `fatal` is the end of the process.
pub data Phase : Type 0 where
  not_started started : Phase
  listening registered ready serving returned : Bytes × Bytes → Phase
  fatal : Phase

-- `nonBlockingGRPCServer` and its goroutines: `server` is the server with the services that it has,
-- `stopping` the goroutine that test mode starts, `stopped` that `GracefulStop` was called.
pub record Process : Type 0 where
  pub wg : ℕ
  pub server : Option Services
  pub phase : Phase
  pub stopping : Bool
  pub stopped : Bool

-- `NewNonBlockingGRPCServer`.
abbrev pub new_non_blocking_grpc_server : Process
new_non_blocking_grpc_server = record {
  wg = 0;
  server = none;
  phase = not_started;
  stopping = false;
  stopped = false;
}

-- `Start`: the counter, and the goroutine.
unfoldable pub start : Process → Process
start y = record y { wg = y.wg + 1; phase = started }

-- `Done`, and the goroutine of the test mode. The counter is at one then, as `IsAt` of Startup/Waiting shows.
unfoldable pub signal : Bytes × Bytes → Process → Process
signal at y = record y { wg = y.wg - 1; phase = ready at; stopping = true }

-- `Stop` and `ForceStop`; without a server they would follow a nil pointer, which is `none`.
unfoldable pub stop : Process → Option Process
stop y = elim y.server [ none ↦ none | some g ↦ some (record y { stopped = true }) ]

unfoldable force_stop : Process → Option Process
force_stop y = elim y.server [ none ↦ none | some g ↦ some (record y { stopped = true }) ]

module _ (os : Os) (endpoint : Bytes) (services : Services) (test_mode : Bool) where
  pub data Step (y z : Process) : Type 0 where
    starts : y.phase ≡ not_started → z ≡ start y → Step y z
    listens :
        (at : Bytes × Bytes)
        → y.phase ≡ started
        → bind os endpoint ≡ some at
        → z ≡ record y { phase = listening at }
        → Step y z
    dies : y.phase ≡ started → bind os endpoint ≡ none → z ≡ record y { phase = fatal } → Step y z
    registers :
        (at : Bytes × Bytes)
        → y.phase ≡ listening at
        → z ≡ record y { server = some services; phase = registered at }
        → Step y z
    signals :
        (at : Bytes × Bytes)
        → test_mode ≡ true
        → y.phase ≡ registered at
        → z ≡ signal at y
        → Step y z
    passes :
        (at : Bytes × Bytes)
        → test_mode ≡ false
        → y.phase ≡ registered at
        → z ≡ record y { phase = ready at }
        → Step y z
    serves :
        (at : Bytes × Bytes)
        → y.phase ≡ ready at
        → y.stopped ≡ false
        → z ≡ record y { phase = serving at }
        → Step y z
    serves_late :
        (at : Bytes × Bytes)
        → y.phase ≡ ready at
        → y.stopped ≡ true
        → z ≡ record y { phase = fatal }
        → Step y z
    breaks : (at : Bytes × Bytes) → y.phase ≡ serving at → z ≡ record y { phase = fatal } → Step y z
    returns :
        (at : Bytes × Bytes)
        → y.phase ≡ serving at
        → y.stopped ≡ true
        → z ≡ record y { phase = returned at }
        → Step y z
    stops :
        y.phase ≢ fatal → y.stopping ≡ true → y.wg ≡ 0 → z ≡ record y { stopped = true } → Step y z

  pub data Reach : Process → Type 0 where
    here : Reach new_non_blocking_grpc_server
    next : {y z : Process} → Reach y → Step y z → Reach z
