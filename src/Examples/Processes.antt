-- ===== src/Examples/Processes.antt =====
-- A gRPC server in test mode up to its wait group, and a `main` that starts the NFS services: the
-- theorems applied.
use google_cloud_platform_nf.Prelude.{◌≡◌, refl, true, false, some}
use google_cloud_platform_nf.Text.{Bytes, codes}
use google_cloud_platform_nf.Server.{parse_endpoint}
use google_cloud_platform_nf.Startup.{Flags}
use google_cloud_platform_nf.Startup.Lifecycle
use google_cloud_platform_nf.Startup.Lifecycle.{
  Os, absent, bind, Process, new_non_blocking_grpc_server, not_started, started, listening,
  registered, ready, fatal, starts, listens, registers, signals, start, signal,
}
use google_cloud_platform_nf.Startup.Waiting.{Reach-waited}
use google_cloud_platform_nf.Startup.Main
use google_cloud_platform_nf.Startup.Main.{
  Main, new_main, prepared, waiting, exited, not_run, running, starts_nfs_services, starts_services,
  goes, exits-running,
}
use google_cloud_platform_nf.Examples.Identifiers.{flags, all_services}

abbrev os : Os
os = record { remove = λ p. absent; listen = λ proto addr. true }

abbrev endpoint : Bytes
endpoint = codes "unix://tmp/csi.sock"

abbrev at : Bytes × Bytes
at = (codes "unix", codes "/tmp/csi.sock")

bound : bind os endpoint ≡ some at
unfolding bind parse_endpoint
bound = refl

abbrev begun : Process
begun = record new_non_blocking_grpc_server { wg = 1; phase = started }

abbrev bound_process : Process
bound_process = record begun { phase = listening at }

abbrev registered_process : Process
registered_process = record begun { server = some all_services; phase = registered at }

abbrev ready_process : Process
ready_process = record registered_process { wg = 0; phase = ready at; stopping = true }

begins : Lifecycle.Step os endpoint all_services true new_non_blocking_grpc_server begun
unfolding start
begins = starts refl refl

signalled-Step : Lifecycle.Step os endpoint all_services true registered_process ready_process
unfolding signal
signalled-Step = signals at refl refl refl

bound-Step : Lifecycle.Step os endpoint all_services true begun bound_process
bound-Step = listens at refl bound refl

registered-Step : Lifecycle.Step os endpoint all_services true bound_process registered_process
registered-Step = registers at refl refl

test_run : Lifecycle.Reach os endpoint all_services true ready_process
test_run =
    Lifecycle.next
      (Lifecycle.next (Lifecycle.next (Lifecycle.next Lifecycle.here begins) bound-Step)
        registered-Step)
      signalled-Step

Reach-waited_example :
    (where_bound : Bytes × Bytes) × (true ≡ true)
    × (ready_process.server ≡ some all_services)
    × (bind os endpoint ≡ some where_bound)
Reach-waited_example = Reach-waited os endpoint all_services true test_run (λ e. cc) (λ e. cc) refl

abbrev node_flags : Flags
node_flags = record flags { run_controller_server = false; run_node_server = true }

abbrev prepared_main : Main
prepared_main = record new_main { main_phase = prepared; nfs_process = running }

abbrev waiting_main : Main
waiting_main = record prepared_main { main_phase = waiting; handling = true }

services-Step : Main.Step (codes "v1") node_flags true new_main prepared_main
unfolding starts_nfs_services
services-Step = starts_services refl refl refl

waiting-Step : Main.Step (codes "v1") node_flags true prepared_main waiting_main
waiting-Step = goes refl refl

main_run : Main.Reach (codes "v1") node_flags true new_main waiting_main
main_run = Main.next (Main.next Main.here services-Step) waiting-Step

exits-running_example :
    (z : Main) × Main.Reach (codes "v1") node_flags true new_main z
    × (z.main_phase ≡ exited)
    × (z.nfs_process ≡ running)
exits-running_example = exits-running (codes "v1") node_flags true main_run refl refl
