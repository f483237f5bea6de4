-- ===== src/Lb/Growth.antt =====
-- Runs of `AssignIPToNode` calls alone: how evenly pkg/lbcontroller/lbcontroller.go spreads the nodes
-- that come.
use google_cloud_platform_nf.Prelude.{
  ◌+◌, ◌*◌, ◌≤◌, ◌≡◌, ◌∙◌, List, [], Bool, true, false, length, arith, All, All-map,
}
use google_cloud_platform_nf.Text.{Bytes}
use google_cloud_platform_nf.Cluster.{Node, assigned_ip, NodeApi, IsVersioned}
use google_cloud_platform_nf.Lb.Census.{population-le-length}
use google_cloud_platform_nf.Lb.Counted.{IsCounted}
use google_cloud_platform_nf.Lb.Balance.{IsBalanced, IsSmall, Effect-IsBalanced}
use google_cloud_platform_nf.Lb.Outcomes.{assign_to-Effect}
use google_cloud_platform_nf.Lb.Interleaving.{
  System, Step, reads, assigns, removes, elsewhere, joins, leaves, Reach, here, next,
  Reach-IsCounted,
}
use google_cloud_platform_nf.Lb.Restart.{Reach-keys}
use google_cloud_platform_nf.Lb.Share.{Distinct, load-le-share}
use google_cloud_platform_nf.Lb.{IpMap, LbController, load, has_ip}

counted-IsSmall : (m : IpMap) (ns : List Node) → IsCounted m ns → IsSmall m
counted-IsSmall m ns counted = record {
  room = λ i hi. omega (arith, counted.exact i hi, counted.bounded, population-le-length i ns);
}

module _ (api : NodeApi) (nodes : api.State → List Node) (Issued : api.State → Node → Type 0) where
  -- Every step but a removal.
  abbrev pub grows : {y z : System api} → Step api nodes Issued y z → Bool
  grows (removes before after n split e) = false
  grows other = true

  pub data Growth (y : System api) : System api → Type 0 where
    begins : Growth y y
    grown :
        {z w : System api}
        → Growth y z
        → (step : Step api nodes Issued z w) → grows step ≡ true
        → Growth y w

  Growth-Reach : {y z : System api} → Growth y z → Reach api nodes Issued y z
  Growth-Reach begins = here
  Growth-Reach (grown g step up) = next (Growth-Reach g) step

  Step-IsBalanced :
      {y z : System api} (step : Step api nodes Issued y z)
      → grows step ≡ true
      → IsCounted y.lb_controller.ip_map (nodes y.cluster)
      → IsBalanced y.lb_controller.ip_map
      → IsBalanced z.lb_controller.ip_map
  Step-IsBalanced (reads call k got e) up counted balanced = rw e balanced
  Step-IsBalanced {y} (assigns visit visits before after n split e) up counted balanced = rw e (
      Effect-IsBalanced visit visits (assigned_ip n) y.lb_controller _ _
        (assign_to-Effect api visit y.cluster y.lb_controller n (assigned_ip n)) balanced
        (counted-IsSmall y.lb_controller.ip_map (nodes y.cluster) counted))
  Step-IsBalanced (removes before after n split e) up counted balanced = absurd (cc)
  Step-IsBalanced (elsewhere s same kept e) up counted balanced = rw e balanced
  Step-IsBalanced (joins s n more bare fits kept e) up counted balanced = rw e balanced
  Step-IsBalanced (leaves s before after n split rest bare kept e) up counted balanced =
      rw e balanced

module _ (api : NodeApi) (nodes : api.State → List Node) (Issued : api.State → Node → Type 0)
    (versioned : IsVersioned api nodes Issued) (s : api.State) (c : LbController)
    (counted : IsCounted c.ip_map (nodes s)) where
  abbrev pub initial : System api
  initial = record { cluster = s; lb_controller = c; waiting = [] }

  Growth-IsBalanced :
      {z : System api}
      → Growth api nodes Issued initial z
      → IsBalanced c.ip_map
      → IsBalanced z.lb_controller.ip_map
  Growth-IsBalanced begins balanced = balanced
  Growth-IsBalanced (grown g step up) balanced =
      Step-IsBalanced api nodes Issued step up
        (Reach-IsCounted api nodes Issued versioned s c counted (Growth-Reach api nodes Issued g))
        (Growth-IsBalanced g balanced)

  -- In any run in which `RemoveIPFromNode` has no turn, however the calls of `AssignIPToNode`
  -- interleave, each address of the map carries at most the average and one node more: with k
  -- addresses and n nodes in the cluster, k times its count is at most n + k. At first no call waits,
  -- the counts are those of the cluster's nodes, and any two are within one of each other. An update
  -- succeeds only where it is made from the server's own node, which it replaces, and changes nothing
  -- otherwise.
  pub Growth-share :
      {z : System api} (ips : List Bytes) (ip : Bytes)
      → IsBalanced c.ip_map
      → Distinct ips
      → All (λ j. has_ip c.ip_map j ≡ true) ips
      → has_ip c.ip_map ip ≡ true
      → Growth api nodes Issued initial z
      → length ips * load z.lb_controller.ip_map ip ≤ length (nodes z.cluster) + length ips
  Growth-share {z} ips ip balanced distinct known there g =
      let r = Growth-Reach api nodes Issued g in
      load-le-share z.lb_controller.ip_map (nodes z.cluster) ips ip
        (Reach-IsCounted api nodes Issued versioned s c counted r) (Growth-IsBalanced g balanced)
        distinct (All-map (λ j known. Reach-keys api nodes Issued versioned j r ∙ known) ips known)
        (Reach-keys api nodes Issued versioned ip r ∙ there)
