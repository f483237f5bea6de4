-- ===== src/Examples/Identifiers.antt =====
-- Ids, options, endpoints and flags: their theorems applied.
use google_cloud_platform_nf.Prelude.{
  ◌≡◌, ◌≢◌, refl, Option, List, [], ◌∷◌, some, arith, true, false,
}
use google_cloud_platform_nf.Text.{Bytes, codes, eq_bytes}
use google_cloud_platform_nf.Text.Numerals.{pos}
use google_cloud_platform_nf.Text.Trim.{trim}
use google_cloud_platform_nf.Volumes.{
  NfsVolume, NfsSnapshot, get_nfs_vol_from_id, get_volume_id_from_nfs_vol, get_nfs_snap_from_id,
  get_snapshot_id_from_nfs_snapshot, slash,
}
use google_cloud_platform_nf.Volumes.RoundTrip.{
  stored, IsPlain, get_nfs_vol_from_id-get_volume_id, get_nfs_snap_from_id-get_snapshot_id,
}
use google_cloud_platform_nf.Node.Options.{
  extract_read_ahead_kb_mount_flag, read_ahead_flag, no_flag,
}
use google_cloud_platform_nf.Server.{parse_endpoint}
use google_cloud_platform_nf.Text.Split.{split}
use google_cloud_platform_nf.Maps.{lookup, insert}
use google_cloud_platform_nf.Cluster.{assigned_ip}
use google_cloud_platform_nf.Lb.{
  resync_ip_map, zero_ips, count_nodes, has_ip, crashed, LbController, assign_ip_to_node,
}
use google_cloud_platform_nf.Driver.{Driver, new_driver}
use google_cloud_platform_nf.Startup.Run.{Services, run, run-eq-some}
use google_cloud_platform_nf.Startup.{
  Flags, driver_options, handle, new_lb_controller, new_controller_server,
  new_controller_server-ne-crashed, handle-blank_address,
}
use google_cloud_platform_nf.Version.{VersionInfo, Build, GoRuntime}
use google_cloud_platform_nf.Examples.{
  cluster_api, first_address, two_nodes, in_order, in_order-Perm,
}

abbrev volume : NfsVolume
volume = record {
  id = [];
  server = first_address;
  base_dir = codes "/vol1/";
  sub_dir = codes "pvc-1";
  size = pos 7;
  uuid = codes "u";
  on_delete = codes "Retain";
}

volume-IsPlain : IsPlain volume
volume-IsPlain = record {
  server = omega arith;
  base_dir = omega arith;
  sub_dir = omega arith;
  uuid = omega arith;
}

get_nfs_vol_from_id-get_volume_id_example :
    get_nfs_vol_from_id (get_volume_id_from_nfs_vol volume) ≡ some (stored volume)
get_nfs_vol_from_id-get_volume_id_example = get_nfs_vol_from_id-get_volume_id volume volume-IsPlain

abbrev snapshot : NfsSnapshot
snapshot = record {
  id = [];
  server = first_address;
  base_dir = codes "/vol1";
  uuid = codes "snap";
  src = codes "u";
}

get_nfs_snap_from_id-get_snapshot_id_example :
    get_nfs_snap_from_id (get_snapshot_id_from_nfs_snapshot snapshot)
    ≡ some (record snapshot {
      id = get_snapshot_id_from_nfs_snapshot snapshot;
      server = trim first_address slash;
      base_dir = trim (codes "/vol1") slash;
    })
get_nfs_snap_from_id-get_snapshot_id_example =
    get_nfs_snap_from_id-get_snapshot_id snapshot (omega arith) (omega arith) (omega arith)
      (omega arith)

abbrev plain_flags : List Bytes
plain_flags = codes "vers=3" ∷ codes "ro" ∷ []

no_flag_found : extract_read_ahead_kb_mount_flag plain_flags ≡ no_flag
unfolding extract_read_ahead_kb_mount_flag read_ahead_flag
no_flag_found = refl

endpoint_parsed : parse_endpoint (codes "unix://csi.sock") ≡ some (codes "unix", codes "csi.sock")
unfolding parse_endpoint
endpoint_parsed = refl

abbrev pub flags : Flags
flags = record {
  endpoint = codes "unix://csi.sock";
  node_id = codes "a";
  mount_permissions = 0;
  driver_name = codes "nfs.lb";
  working_mount_dir = codes "/tmp";
  default_on_delete_policy = codes "retain";
  vol_stats_cache_expire_in_minutes = pos 10;
  ip_addresses = codes "10.0.0.1,";
  run_controller_server = true;
  run_node_server = false;
}

abbrev started : Driver
started = new_driver (codes "v1") (driver_options flags)

handled : handle (codes "v1") flags ≡ some started
unfolding handle
handled = refl

abbrev balancer : LbController
balancer = record { ip_map = (first_address, 0) ∷ ([], 0) ∷ [] }

server_started : new_controller_server cluster_api two_nodes started.ip_list ≡ some (some balancer)
unfolding new_controller_server new_lb_controller resync_ip_map zero_ips count_nodes assigned_ip
    lookup insert eq_bytes new_driver driver_options split
server_started = refl

handle-blank_address_example : has_ip balancer.ip_map [] ≡ true
handle-blank_address_example =
    handle-blank_address cluster_api two_nodes (codes "v1") flags started balancer
      (codes "10.0.0.1") refl handled server_started

new_controller_server-ne-crashed_example :
    (assign_ip_to_node cluster_api in_order two_nodes balancer (codes "a")).2 ≢ crashed
new_controller_server-ne-crashed_example =
    new_controller_server-ne-crashed cluster_api two_nodes started.ip_list balancer in_order
      in_order-Perm two_nodes (codes "a") server_started

abbrev node_only : Driver
node_only = record started { run_controller_server = false; run_node_server = true }

abbrev pub all_services : Services
all_services = record { identity = true; controller = true; node = true }

abbrev printed : VersionInfo → Option Bytes
printed info = some info.driver_name

abbrev build : Build
build = record { driver_version = codes "v1"; git_commit = codes "c"; build_date = codes "d" }

abbrev go : GoRuntime
go = record {
  version = codes "go1.22";
  compiler = codes "gc";
  goos = codes "linux";
  goarch = codes "amd64";
}

node_only_runs : run cluster_api printed build go two_nodes node_only ≡ some all_services
unfolding run new_driver
node_only_runs = refl

run-eq-some_example :
    (all_services.identity ≡ true) × (all_services.controller ≡ true) × (all_services.node ≡ true)
run-eq-some_example =
    run-eq-some cluster_api printed build go two_nodes node_only all_services node_only_runs
