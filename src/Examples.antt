-- ===== src/Examples.antt =====
-- Concrete inputs, with the theorems applied to them: a cluster of two nodes, a lock table that is a
-- list, a host that remembers how many mounts it made.
pub mod Balancer
pub mod Requests
pub mod Provisioning
pub mod Statistics
pub mod Lagging
pub mod Delayed
pub mod Interleaved
pub mod Versioned
pub mod Restarted
pub mod Successes
pub mod Tuned
pub mod Processes
pub mod Volumes
pub mod Identifiers
use mathlib.Core.List.{Perm}
use mathlib.Core.List.Perm
use google_cloud_platform_nf.Prelude.{
  ℕ, ◌+◌, ◌<◌, ◌^◌, ◌≡◌, refl, List, [], ◌∷◌, Bool, true, false, ◌||◌, Option, none, some, length,
  arith, if◌then◌else◌, ◌==◌,
}
use google_cloud_platform_nf.Text.{Bytes, codes, eq_bytes, eq_bytes_iff}
use google_cloud_platform_nf.Text.Numerals.{pos}
use google_cloud_platform_nf.Cluster.{
  Node, node_annotation, NodeApi, Reply, found, refused, missing, IsFresh, assigned_ip, find_node,
  replace_node,
}
use google_cloud_platform_nf.Maps.{lookup, insert}
use google_cloud_platform_nf.Driver.{Driver}
use google_cloud_platform_nf.Host.{Host, not_mounted, is_mounted}
use google_cloud_platform_nf.Lb.{
  IpMap, LbController, resync_ip_map, zero_ips, count_nodes, load, increment,
}
use google_cloud_platform_nf.Lb.Counted.{IsCounted}
use google_cloud_platform_nf.Lb.Resync.{resync_ip_map-IsCounted}
use google_cloud_platform_nf.Locks.{StringSet, IsStringSet}

abbrev pub reply_of : Option Node → Reply Node
reply_of none = refused missing
reply_of (some n) = found n

abbrev pub cluster_api : NodeApi
cluster_api = record {
  State = List Node;
  get = λ s k. reply_of (find_node k s);
  list = λ s. found s;
  update = λ s n. (replace_node n s, none);
}

abbrev pub all_nodes : List Node → List Node
all_nodes s = s

pub reply_found : (r : Option Node) (n : Node) → reply_of r ≡ found n → r ≡ some n
reply_found none n h = absurd (cc)
reply_found (some m) n h = ground arith

pub cluster_api-IsFresh : IsFresh cluster_api all_nodes
cluster_api-IsFresh = record {
  get_found = λ s k n h. reply_found (find_node k s) n h;
  list_found = λ s ns h. cc;
  update_done = λ s n h. (n.resource_version, refl);
  update_failed = λ s n e h. absurd (cc);
}

abbrev pub first_address : Bytes
first_address = codes "10.0.0.1"

abbrev pub second_address : Bytes
second_address = codes "10.0.0.2"

abbrev pub bare_node : Node
bare_node = record { name = codes "a"; resource_version = []; annotations = none }

abbrev pub node_with_address : Node
node_with_address = record {
  name = codes "b";
  resource_version = [];
  annotations = some ((node_annotation, second_address) ∷ []);
}

abbrev pub two_nodes : List Node
two_nodes = bare_node ∷ node_with_address ∷ []

abbrev pub addresses : List Bytes
addresses = first_address ∷ second_address ∷ []

-- What a resync of the two nodes gives.
abbrev pub two_counts : IpMap
two_counts = (first_address, 0) ∷ (second_address, 1) ∷ []

abbrev pub two_loads : LbController
two_loads = record { ip_map = two_counts }

pub resynced : resync_ip_map cluster_api two_nodes addresses ≡ found two_counts
unfolding resync_ip_map zero_ips count_nodes assigned_ip load increment lookup insert eq_bytes
resynced = refl

pub two_counts-IsCounted : IsCounted two_counts two_nodes
two_counts-IsCounted =
    resync_ip_map-IsCounted cluster_api two_nodes addresses two_counts all_nodes cluster_api-IsFresh
      (omega arith) resynced

abbrev pub in_order : List Bytes → List Bytes
in_order ks = ks

pub in_order-Perm : (ks : List Bytes) → Perm (in_order ks) ks
in_order-Perm ks = Perm.refl ks

abbrev has_key : List Bytes → Bytes → Bool
has_key [] k = false
has_key (j ∷ s) k = eq_bytes j k || has_key s k

abbrev without : List Bytes → Bytes → List Bytes
without [] k = []
without (j ∷ s) k = let rest = without s k in if eq_bytes j k then rest else j ∷ rest

abbrev pub key_list : StringSet
key_list = record {
  Set = List Bytes;
  empty = [];
  has = has_key;
  insert = λ s k. k ∷ s;
  delete = without;
}

has_key-without :
    (s : List Bytes) (k j : Bytes)
    → has_key (without s k) j ≡ (if eq_bytes k j then false else has_key s j)
has_key-without [] k j = ground arith
has_key-without (i ∷ s) k j =
    ground (arith, eq_bytes_iff i k, eq_bytes_iff i j, eq_bytes_iff k j, has_key-without s k j)

pub key_list-IsStringSet : IsStringSet key_list
key_list-IsStringSet = record {
  has_empty = λ k. refl;
  has_insert = λ s k j. ground arith;
  has_delete = λ s k j. has_key-without s k j;
}

-- The number of mounts made: a target is a mount point once there is one.
abbrev pub counting_host : Host
counting_host = record {
  State = ℕ;
  is_likely_not_mount_point = λ h t. if h == 0 then not_mounted else is_mounted;
  mount = λ h source target fs options. (h + 1, none);
  cleanup_mount = λ h t. (0, true);
  mkdir_all = λ h p mode. (h, true);
  remove_all = λ h p. (h, true);
  rename = λ h from to. (h, true);
  lstat_mode = λ h p. some 0o777;
  chmod = λ h p mode. (h, true);
  walk_dir = λ h p. [];
  stat_size = λ h p. none;
  mountpoint_device = λ h p. none;
  shell = λ h command. (h, none);
  tar_create = λ h from to. (h, true);
  tar_extract = λ h from to. (h, true);
  copy_all = λ h from to. (h, true);
}

abbrev pub driver : Driver
driver = record {
  name = codes "nfs.lb.csi.storage.gke.io";
  node_id = codes "a";
  version = codes "v1";
  endpoint = codes "unix://tmp/csi.sock";
  mount_permissions = 0;
  working_mount_dir = codes "/tmp";
  default_on_delete_policy = [];
  cscap = [];
  nscap = [];
  vol_stats_cache_expire_in_minutes = pos 10;
  ip_list = addresses;
  run_controller_server = true;
  run_node_server = true;
}
