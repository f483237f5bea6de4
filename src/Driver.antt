-- ===== src/Driver.antt =====
-- pkg/nfs/nfs.go: the driver and how it is made of its options, and the capabilities of
-- pkg/nfs/utils.go. The pointers to the servers, the lock table and the cache are kept elsewhere.
use google_cloud_platform_nf.Prelude.{ℕ, List, [], ◌∷◌, Bool, map}
use google_cloud_platform_nf.Text.{Bytes}
use google_cloud_platform_nf.Text.Numerals.{ℤ, pos, negsuc}

pub data ControllerCapability : Type 0 where
  create_delete_volume publish_unpublish_volume publish_readonly : ControllerCapability
  controller_single_node_multi_writer clone_volume create_delete_snapshot : ControllerCapability

pub data NodeCapability : Type 0 where
  get_volume_stats node_single_node_multi_writer unknown : NodeCapability

-- `csi.ControllerServiceCapability` and `csi.NodeServiceCapability`, of the kind `Rpc`.
pub data ControllerServiceCapability : Type 0 where
  controller_rpc : ControllerCapability → ControllerServiceCapability

pub data NodeServiceCapability : Type 0 where
  node_rpc : NodeCapability → NodeServiceCapability

unfoldable new_controller_service_capability : ControllerCapability → ControllerServiceCapability
new_controller_service_capability cap = controller_rpc cap

unfoldable new_node_service_capability : NodeCapability → NodeServiceCapability
new_node_service_capability cap = node_rpc cap

pub record DriverOptions : Type 0 where
  pub node_id : Bytes
  pub driver_name : Bytes
  pub endpoint : Bytes
  pub mount_permissions : ℕ
  pub working_mount_dir : Bytes
  pub default_on_delete_policy : Bytes
  pub vol_stats_cache_expire_in_minutes : ℤ
  pub ip_list : List Bytes
  pub run_controller_server : Bool
  pub run_node_server : Bool

pub record Driver : Type 0 where
  pub name : Bytes
  pub node_id : Bytes
  pub version : Bytes
  pub endpoint : Bytes
  pub mount_permissions : ℕ
  pub working_mount_dir : Bytes
  pub default_on_delete_policy : Bytes
  pub cscap : List ControllerServiceCapability
  pub nscap : List NodeServiceCapability
  pub vol_stats_cache_expire_in_minutes : ℤ
  pub ip_list : List Bytes
  pub run_controller_server : Bool
  pub run_node_server : Bool

-- Each of the two replaces the list.
unfoldable add_controller_service_capabilities : Driver → List ControllerCapability → Driver
unfolding new_controller_service_capability
add_controller_service_capabilities d cl = record d {
  cscap = map new_controller_service_capability cl;
}

unfoldable add_node_service_capabilities : Driver → List NodeCapability → Driver
unfolding new_node_service_capability
add_node_service_capabilities d nl = record d { nscap = map new_node_service_capability nl }

-- The fields that the literal of `NewDriver` gives; the others are zero.
unfoldable driver_literal : Bytes → DriverOptions → Driver
driver_literal driver_version options = record {
  name = options.driver_name;
  node_id = options.node_id;
  version = driver_version;
  endpoint = options.endpoint;
  mount_permissions = options.mount_permissions;
  working_mount_dir = options.working_mount_dir;
  default_on_delete_policy = [];
  cscap = [];
  nscap = [];
  vol_stats_cache_expire_in_minutes = options.vol_stats_cache_expire_in_minutes;
  ip_list = options.ip_list;
  run_controller_server = options.run_controller_server;
  run_node_server = options.run_node_server;
}

-- The version is set when the program is built. The expiry of the cache, with its default of ten
-- minutes, goes to the cache alone.
unfoldable pub new_driver : Bytes → DriverOptions → Driver
unfolding driver_literal add_controller_service_capabilities add_node_service_capabilities
new_driver driver_version options =
    add_node_service_capabilities
      (add_controller_service_capabilities (driver_literal driver_version options) (
        create_delete_volume ∷ publish_unpublish_volume ∷ publish_readonly
        ∷ controller_single_node_multi_writer ∷ clone_volume ∷ create_delete_snapshot ∷ []))
      (get_volume_stats ∷ node_single_node_multi_writer ∷ unknown ∷ [])

unfoldable cache_expiry : ℤ → ℤ
cache_expiry (pos ℕ.zero) = pos 10
cache_expiry (pos (ℕ.suc n)) = pos (ℕ.suc n)
cache_expiry (negsuc n) = pos 10
