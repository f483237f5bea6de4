-- ===== src/Fakes.antt =====
-- pkg/lbcontroller/fake.go and pkg/nfs/fake_mounter.go: the cluster, the controller and the mounter
-- that the tests of the driver use.
use google_cloud_platform_nf.Prelude.{
  ℕ, ◌+◌, ◌≡◌, refl, List, [], ◌∷◌, Bool, true, false, none, some, if◌then◌else◌,
}
use google_cloud_platform_nf.Text.{Bytes, codes, is_empty, eq_bytes}
use google_cloud_platform_nf.Text.Search.{contains}
use google_cloud_platform_nf.Maps.{lookup}
use google_cloud_platform_nf.Cluster.{Node, node_annotation, assigned_ip}
use google_cloud_platform_nf.Host.{MountCheck, is_mounted, not_mounted, check_failed}
use google_cloud_platform_nf.Lb.{IpMap, LbController}
use google_cloud_platform_nf.Lb.Census.{holds, population}

pub record TestNode : Type 0 where
  pub name : Bytes
  pub assigned_ip : Bytes

-- `NewNode`. The fields that it does not set are zero.
unfoldable new_node : Bytes → Bytes → Node
new_node name ip = record {
  name = name;
  resource_version = [];
  annotations = if is_empty ip then none else some ((node_annotation, ip) ∷ []);
}

unfoldable new_node_pool : List TestNode → List Node
unfolding new_node
new_node_pool [] = []
new_node_pool (fn ∷ fake_nodes) = new_node fn.name fn.assigned_ip ∷ new_node_pool fake_nodes

-- A `runtime.Object`: the lister's store takes the nodes alone.
pub data Object : Type 0 where
  node_object : Node → Object
  other_object : Object

unfoldable listed_nodes : List Object → List Node
listed_nodes [] = []
listed_nodes (node_object n ∷ objects) = n ∷ listed_nodes objects
listed_nodes (other_object ∷ objects) = listed_nodes objects

-- `NewFakeLBController`: the objects of the client, the nodes of the lister, and the controller.
unfoldable new_fake_lb_controller : IpMap → List Object → List Object × List Node × LbController
unfolding listed_nodes
new_fake_lb_controller ip_map nodes = (nodes, listed_nodes nodes, record { ip_map = ip_map })

-- The number of test nodes with that address.
test_population : Bytes → List TestNode → ℕ
test_population ip [] = 0
test_population ip (fn ∷ fake_nodes) =
    (if eq_bytes fn.assigned_ip ip then 1 else 0) + test_population ip fake_nodes

holds-new_node :
    (ip name j : Bytes) → is_empty ip ≡ false → holds ip (new_node name j) ≡ eq_bytes j ip
unfolding holds assigned_ip new_node lookup eq_bytes
holds-new_node [] name j full = absurd (cc)
holds-new_node (c ∷ ip) name [] full = refl
holds-new_node (c ∷ ip) name (d ∷ j) full = refl

-- Of the nodes of a pool as many carry an address as the list of test nodes gives it to; the empty
-- text is no address.
population-new_node_pool :
    (ip : Bytes) (fake_nodes : List TestNode)
    → is_empty ip ≡ false
    → population ip (new_node_pool fake_nodes) ≡ test_population ip fake_nodes
unfolding population new_node_pool test_population
population-new_node_pool ip [] full = refl
population-new_node_pool ip (fn ∷ fake_nodes) full =
    rw (holds-new_node ip fn.name fn.assigned_ip full, population-new_node_pool ip fake_nodes full)
      refl

-- The mounter's `Mount` and `MountSensitive`: true where they return no error.
unfoldable fake_mount : Bytes → Bytes → Bool
unfolding contains
fake_mount source target =
    if contains source (codes "error_mount")
    then false
    else if contains target (codes "error_mount")
    then false
    else true

unfoldable fake_mount_sensitive : Bytes → Bytes → Bool
unfolding contains
fake_mount_sensitive source target =
    if contains source (codes "error_mount_sens")
    then false
    else if contains target (codes "error_mount_sens")
    then false
    else true

unfoldable fake_is_likely_not_mount_point : Bytes → MountCheck
unfolding contains
fake_is_likely_not_mount_point file =
    if contains file (codes "error_is_likely")
    then check_failed
    else if contains file (codes "false_is_likely")
    then is_mounted
    else not_mounted
