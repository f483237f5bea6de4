-- ===== src/Startup/Run.antt =====
-- `Run` of pkg/nfs/nfs.go and the registrations of `serve`, pkg/nfs/server.go: which servers a
-- process has, and which services its gRPC server offers. Listening itself is left out.
use google_cloud_platform_nf.Prelude.{
  ◌≡◌, Option-cases, inl, inr, Bool, true, false, Option, none, some, arith, if◌then◌else◌,
}
use google_cloud_platform_nf.Text.{Bytes}
use google_cloud_platform_nf.Version.{VersionInfo, Build, GoRuntime, get_version_yaml}
use google_cloud_platform_nf.Cluster.{NodeApi}
use google_cloud_platform_nf.Driver.{Driver}
use google_cloud_platform_nf.Lb.{LbController}
use google_cloud_platform_nf.Startup.{new_controller_server}

-- `ControllerServer`, less its pointer to the driver.
pub record ControllerServer : Type 0 where
  pub lb_controller : Option LbController

-- A value of an interface type is nil, or it holds a pointer, which may be nil.
pub data Interface {ℓ} (A : Type ℓ) : Type ℓ where
  nil_interface : Interface A
  holding : Option A → Interface A

-- `x != nil` of an interface.
unfoldable pub is_not_nil : {A : Type 0} → Interface A → Bool
is_not_nil nil_interface = false
is_not_nil (holding p) = true

-- The services that are registered.
pub record Services : Type 0 where
  pub identity : Bool
  pub controller : Bool
  pub node : Bool

-- The three tests of `serve`.
unfoldable pub serve :
    Interface (Unit {0}) → Interface ControllerServer → Interface (Unit {0}) → Services
unfolding is_not_nil
serve ids cs ns = record {
  identity = is_not_nil ids;
  controller = is_not_nil cs;
  node = is_not_nil ns;
}

-- `n.ns` and `n.cs`; the outer `none` is the fatal error of the load balancer.
unfoldable pub node_server_of : Driver → Option (Unit {0})
node_server_of d = if d.run_node_server then some tt else none

unfoldable pub controller_server_of :
    (api : NodeApi) → api.State → Driver → Option (Option ControllerServer)
unfolding new_controller_server
controller_server_of api s d =
    if d.run_controller_server
    then elim (new_controller_server api s d.ip_list) [
      | none ↦ none
      | some lb ↦ some (some (record { lb_controller = lb }))
    ]
    else some none

-- `Start` takes interfaces, so the pointers of the driver are wrapped.
unfoldable pub start_services : Driver → Option (Option ControllerServer) → Option Services
unfolding serve node_server_of
start_services d none = none
start_services d (some cs) =
    some (serve (holding (some tt)) (holding cs) (holding (node_server_of d)))

-- `Run` up to `Wait`; a version that cannot be printed is a fatal error.
unfoldable pub run :
    (api : NodeApi)
    → (VersionInfo → Option Bytes)
    → Build
    → GoRuntime
    → api.State
    → Driver
    → Option Services
unfolding start_services controller_server_of get_version_yaml
run api marshal build go s d = elim (get_version_yaml marshal build go d.name) [
  | none ↦ none
  | some version_meta ↦ start_services d (controller_server_of api s d)
]

start_services-some :
    (d : Driver) (cs : Option (Option ControllerServer)) (services : Services)
    → start_services d cs ≡ some services
    → (services.identity ≡ true) × (services.controller ≡ true) × (services.node ≡ true)
unfolding start_services
start_services-some d none services h = absurd (cc)
start_services-some d (some cs) services h = ground arith

-- A process that starts offers all three services, whichever servers its flags ask for: the
-- interface that holds a nil pointer is not nil.
pub run-eq-some :
    (api : NodeApi) (marshal : VersionInfo → Option Bytes) (build : Build) (go : GoRuntime)
    (s : api.State) (d : Driver) (services : Services)
    → run api marshal build go s d ≡ some services
    → (services.identity ≡ true) × (services.controller ≡ true) × (services.node ≡ true)
unfolding run
run-eq-some api marshal build go s d services h =
    elim (Option-cases (get_version_yaml marshal build go d.name)) [
      | inl unprinted ↦ absurd (let bad = rw (unprinted, run) at h in cc)
      | inr (version_meta, printed) ↦
          start_services-some d (controller_server_of api s d) services (rw (printed, run) at h)
    ]
