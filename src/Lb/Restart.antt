-- ===== src/Lb/Restart.antt =====
-- A controller that starts anew: `resyncIPMap` of pkg/lbcontroller/lbcontroller.go against the counts
-- that calls of `AssignIPToNode` and `RemoveIPFromNode` have kept.
use google_cloud_platform_nf.Prelude.{◌^◌, ◌<◌, ◌≡◌, refl, List, [], length, true, arith}
use google_cloud_platform_nf.Text.{Bytes}
use google_cloud_platform_nf.Maps.{lookup}
use google_cloud_platform_nf.Cluster.{Node, assigned_ip, NodeApi, IsVersioned, found}
use google_cloud_platform_nf.Lb.Interleaving.{
  System, Step, reads, assigns, removes, elsewhere, joins, leaves, Reach, here, next,
  Reach-IsCounted,
}
use google_cloud_platform_nf.Lb.Outcomes
use google_cloud_platform_nf.Lb.Outcomes.{assign_to-Effect}
use google_cloud_platform_nf.Lb.Removal
use google_cloud_platform_nf.Lb.Removal.{remove_from-Effect}
use google_cloud_platform_nf.Lb.Resync.{resync_ip_map-keys, resync_ip_map_current}
use google_cloud_platform_nf.Lb.{IpMap, load, has_ip, resync_ip_map}

-- Maps that know the same addresses with the same counts are the same maps.
lookup_of_load :
    (m m' : IpMap) (ip : Bytes)
    → has_ip m ip ≡ has_ip m' ip
    → (has_ip m ip ≡ true → load m ip ≡ load m' ip)
    → lookup ip m ≡ lookup ip m'
unfolding load
lookup_of_load m m' ip same equal = ground (arith, same, equal)

module _ (api : NodeApi) (nodes : api.State → List Node) (Issued : api.State → Node → Type 0)
    (versioned : IsVersioned api nodes Issued) where
  -- No step adds an address to the map or takes one from it.
  Step-keys :
      {y z : System api} (j : Bytes)
      → Step api nodes Issued y z
      → has_ip z.lb_controller.ip_map j ≡ has_ip y.lb_controller.ip_map j
  Step-keys {y} j (reads call k got e) = rw e refl
  Step-keys {y} j (assigns visit visits before after n split e) = rw e (
      Outcomes.Effect-keys visit visits (assigned_ip n) y.lb_controller _ _ j
        (assign_to-Effect api visit y.cluster y.lb_controller n (assigned_ip n)))
  Step-keys {y} j (removes before after n split e) = rw e (
      Removal.Effect-keys (assigned_ip n) y.lb_controller _ _ j
        (remove_from-Effect api y.cluster y.lb_controller n (assigned_ip n)))
  Step-keys {y} j (elsewhere s same kept e) = rw e refl
  Step-keys {y} j (joins s n grown bare fits kept e) = rw e refl
  Step-keys {y} j (leaves s before after n split rest bare kept e) = rw e refl

  pub Reach-keys :
      {y z : System api} (j : Bytes)
      → Reach api nodes Issued y z
      → has_ip z.lb_controller.ip_map j ≡ has_ip y.lb_controller.ip_map j
  Reach-keys j here = refl
  Reach-keys j (next r step) = rw (Step-keys j step, Reach-keys j r) refl

  -- A controller that started from a resync has, after any interleaving of calls, the map that a
  -- resync would make of the cluster then: each address has the same count in both, or is in
  -- neither. The lister is up to date at both resyncs; in between it may lag, nodes without an
  -- address may join and leave, and an update succeeds only where it is made from the server's own
  -- node, which it replaces, and changes nothing otherwise.
  pub Reach-resync_ip_map :
      {z : System api} (s : api.State) (ips : List Bytes) (m m' : IpMap) (ip : Bytes)
      → length (nodes s) < 2 ^ 63
      → ((ns : List Node) → api.list s ≡ found ns → ns ≡ nodes s)
      → resync_ip_map api s ips ≡ found m
      → Reach api nodes Issued
          (record { cluster = s; lb_controller = record { ip_map = m }; waiting = [] })
          z
      → ((ns : List Node) → api.list z.cluster ≡ found ns → ns ≡ nodes z.cluster)
      → resync_ip_map api z.cluster ips ≡ found m'
      → lookup ip m' ≡ lookup ip z.lb_controller.ip_map
  Reach-resync_ip_map {z} s ips m m' ip fits current first r current' second =
      let counted = resync_ip_map_current api s ips m nodes current fits first in
      let kept = Reach-IsCounted api nodes Issued versioned s (record { ip_map = m }) counted r in
      let anew = resync_ip_map_current api z.cluster ips m' nodes current' kept.bounded second in
      let same : has_ip m' ip ≡ has_ip z.lb_controller.ip_map ip =
        rw (Reach-keys ip r, resync_ip_map-keys api s ips m ip first)
          (resync_ip_map-keys api z.cluster ips m' ip second) in
      lookup_of_load m' z.lb_controller.ip_map ip same
        (λ known. rw (anew.exact ip known, kept.exact ip (rw same at known)) refl)
