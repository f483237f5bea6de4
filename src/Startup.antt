-- ===== src/Startup.antt =====
-- cmd/nfsplugin/main.go, `handle`, and `NewControllerServer` of pkg/nfs/utils.go: what the flags make
-- of the driver and of the load balancer's addresses.
pub mod Run
pub mod Lifecycle
pub mod Waiting
pub mod Main
use mathlib.Core.List.{Perm}
use google_cloud_platform_nf.Prelude.{
  ℕ, ◌==◌, ◌≡◌, ◌≢◌, refl, List, [], ◌∷◌, ◌++◌, Bool, true, ◌&&◌, Option, none, some, arith,
  if◌then◌else◌, Bool-cases, inl, inr,
}
use google_cloud_platform_nf.Text.{Bytes, is_empty, eq_bytes, eq_bytes_refl}
use google_cloud_platform_nf.Text.Numerals.{ℤ}
use google_cloud_platform_nf.Text.Split.{split, extend_first}
use google_cloud_platform_nf.Cluster.{NodeApi, Reply, found, refused}
use google_cloud_platform_nf.Driver.{Driver, DriverOptions, new_driver}
use google_cloud_platform_nf.Lb.{
  IpMap, LbController, has_ip, resync_ip_map, assign_ip_to_node, crashed,
}
use google_cloud_platform_nf.Lb.Balance.{lookup_of_has_ip}
use google_cloud_platform_nf.Lb.Outcomes.{assign_ip_to_node-ne-crashed}
use google_cloud_platform_nf.Lb.Resync.{listed, resync_ip_map-keys}

-- The flags that `handle` reads.
pub record Flags : Type 0 where
  pub endpoint : Bytes
  pub node_id : Bytes
  pub mount_permissions : ℕ
  pub driver_name : Bytes
  pub working_mount_dir : Bytes
  pub default_on_delete_policy : Bytes
  pub vol_stats_cache_expire_in_minutes : ℤ
  pub ip_addresses : Bytes
  pub run_controller_server : Bool
  pub run_node_server : Bool

unfoldable pub driver_options : Flags → DriverOptions
unfolding split
driver_options f = record {
  node_id = f.node_id;
  driver_name = f.driver_name;
  endpoint = f.endpoint;
  mount_permissions = f.mount_permissions;
  working_mount_dir = f.working_mount_dir;
  default_on_delete_policy = f.default_on_delete_policy;
  vol_stats_cache_expire_in_minutes = f.vol_stats_cache_expire_in_minutes;
  ip_list = split f.ip_addresses b',';
  run_controller_server = f.run_controller_server;
  run_node_server = f.run_node_server;
}

-- `handle` up to `Run`; `none` is the fatal error of a controller without addresses.
unfoldable pub handle : Bytes → Flags → Option Driver
unfolding driver_options
handle driver_version f =
    if f.run_controller_server && is_empty f.ip_addresses
    then none
    else some (new_driver driver_version (driver_options f))

-- `NewLBController` behind its clients; a fatal error is `none`.
unfoldable pub new_lb_controller : (api : NodeApi) → api.State → List Bytes → Option LbController
new_lb_controller api s ip_list = elim (resync_ip_map api s ip_list) [
  | refused e ↦ none
  | found m ↦ some (record { ip_map = m })
]

-- `NewControllerServer`: there is a load balancer if there are addresses.
unfoldable pub new_controller_server :
    (api : NodeApi) → api.State → List Bytes → Option (Option LbController)
new_controller_server api s [] = some none
new_controller_server api s (ip ∷ ips) = elim (new_lb_controller api s (ip ∷ ips)) [
  | none ↦ none
  | some c ↦ some (some c)
]

abbrev rest : List Bytes → List Bytes
rest [] = []
rest (p ∷ ps) = ps

listed-extend_first :
    (c : ℕ) (ps : List Bytes)
    → listed [] (rest ps) ≡ true
    → listed [] (rest (extend_first c ps)) ≡ true
unfolding extend_first listed
listed-extend_first c [] h = absurd (cc)
listed-extend_first c (p ∷ ps) h = h

listed-rest : (ps : List Bytes) → listed [] (rest ps) ≡ true → listed [] ps ≡ true
unfolding listed
listed-rest [] h = h
listed-rest (p ∷ ps) h = ground (arith, h)

-- A list of addresses that ends in a comma has an empty one behind it.
blank_behind : (s : Bytes) → listed [] (rest (split (s ++ b',' ∷ []) b',')) ≡ true
unfolding split listed eq_bytes
blank_behind [] = refl
blank_behind (c ∷ s) = elim (Bool-cases (c == b',')) [
  | inl comma ↦ rw (comma, split) (listed-rest (split (s ++ b',' ∷ []) b',') (blank_behind s))
  | inr other ↦
      rw (other, split) (listed-extend_first c (split (s ++ b',' ∷ []) b',') (blank_behind s))
]

handle-ip_list :
    (driver_version : Bytes) (f : Flags) (d : Driver)
    → handle driver_version f ≡ some d
    → d.ip_list ≡ split f.ip_addresses b','
unfolding handle new_driver
handle-ip_list driver_version f d h = ground arith

listed-handle :
    (driver_version : Bytes) (f : Flags) (d : Driver) (listing : Bytes)
    → f.ip_addresses ≡ listing ++ b',' ∷ []
    → handle driver_version f ≡ some d
    → listed [] d.ip_list ≡ true
listed-handle driver_version f d listing e h =
    rw (handle-ip_list driver_version f d h, e)
      (listed-rest (split (listing ++ b',' ∷ []) b',') (blank_behind listing))

module _ (api : NodeApi) (s : api.State) where
  -- The addresses that the controller counts are those of the list, and no others.
  new_controller_server-keys :
      (ips : List Bytes) (c : LbController) (j : Bytes)
      → new_controller_server api s ips ≡ some (some c)
      → has_ip c.ip_map j ≡ listed j ips
  unfolding new_controller_server new_lb_controller
  new_controller_server-keys [] c j h = absurd (cc)
  new_controller_server-keys (ip ∷ ips) c j h = by_reply (resync_ip_map api s (ip ∷ ips)) refl
    where
      by_reply :
          (r : Reply IpMap)
          → resync_ip_map api s (ip ∷ ips) ≡ r
          → has_ip c.ip_map j ≡ listed j (ip ∷ ips)
      by_reply (found m) e = ground (arith, e, resync_ip_map-keys api s (ip ∷ ips) m j e)
      by_reply (refused err) e = absurd (ground (arith, e))

  new_controller_server-some :
      (ips : List Bytes) (c : LbController)
      → new_controller_server api s ips ≡ some (some c)
      → (ip : Bytes) × (listed ip ips ≡ true)
  unfolding new_controller_server listed
  new_controller_server-some [] c h = absurd (cc)
  new_controller_server-some (ip ∷ ips) c h = (ip, ground (arith, eq_bytes_refl ip))

  -- A controller that was started with a load balancer has an address to assign: its first
  -- `AssignIPToNode` does not panic, whatever the cluster and the node are.
  pub new_controller_server-ne-crashed :
      (ips : List Bytes) (c : LbController) (visit : List Bytes → List Bytes)
      (visits : (ks : List Bytes) → Perm (visit ks) ks) (s' : api.State) (k : Bytes)
      → new_controller_server api s ips ≡ some (some c)
      → (assign_ip_to_node api visit s' c k).2 ≢ crashed
  new_controller_server-ne-crashed ips c visit visits s' k h =
      let (ip, there) = new_controller_server-some ips c h in
      let known : has_ip c.ip_map ip ≡ true = rw (new_controller_server-keys ips c ip h) there in
      assign_ip_to_node-ne-crashed api visit visits s' c k ip (lookup_of_has_ip c.ip_map ip known)

  -- A value of `--ip-addresses` that ends in a comma makes the empty text one of the addresses that
  -- the controller hands out, if the controller starts.
  pub handle-blank_address :
      (driver_version : Bytes) (f : Flags) (d : Driver) (c : LbController) (listing : Bytes)
      → f.ip_addresses ≡ listing ++ b',' ∷ []
      → handle driver_version f ≡ some d
      → new_controller_server api s d.ip_list ≡ some (some c)
      → has_ip c.ip_map [] ≡ true
  handle-blank_address driver_version f d c listing e started server =
      rw (new_controller_server-keys d.ip_list c [] server)
        (listed-handle driver_version f d listing e started)
