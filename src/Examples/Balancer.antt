-- ===== src/Examples/Balancer.antt =====
-- The load balancer of pkg/lbcontroller/lbcontroller.go on the two nodes: its theorems applied.
use google_cloud_platform_nf.Prelude.{◌≤◌, ◌≢◌, ◌≡◌, refl, [], ◌∷◌, none, some, arith, ◌<◌, ◌^◌}
use google_cloud_platform_nf.Text.{codes, eq_bytes}
use google_cloud_platform_nf.Maps.{lookup, insert, remove, keys}
use google_cloud_platform_nf.Cluster.{
  Node, NodeApi, found, unavailable, find_node, replace_node, assigned_ip, node_annotation,
}
use google_cloud_platform_nf.Lb.{
  LbController, load, biased, increment, decrement, select_ip, annotate, unannotate, assigned,
  not_assigned, write_ip, assign_to, assign_ip_to_node, write_removal, remove_from,
  remove_ip_from_node,
}
use google_cloud_platform_nf.Lb.Counted.{IsCounted}
use google_cloud_platform_nf.Lb.Resync.{resync_ip_map-IsCounted}
use google_cloud_platform_nf.Lb.Outcomes.{assign_ip_to_node-least}
use google_cloud_platform_nf.Lb.Balance.{IsBalanced, IsSmall, assign_ip_to_node-IsBalanced}
use google_cloud_platform_nf.Lb.Repeats.{assign_ip_to_node_twice}
use google_cloud_platform_nf.Lb.Removal.{remove_ip_from_node-assign_ip_to_node}
use google_cloud_platform_nf.Examples.{
  cluster_api, all_nodes, cluster_api-IsFresh, first_address, second_address, bare_node,
  node_with_address, two_nodes, addresses, two_counts, two_loads, resynced, in_order, in_order-Perm,
}

-- An API whose updates all fail.
abbrev failing_api : NodeApi
failing_api = record cluster_api { update = λ s n. (s, some unavailable) }

abbrev node_annotated : Node
node_annotated = record {
  name = codes "a";
  resource_version = [];
  annotations = some ((node_annotation, first_address) ∷ []);
}

abbrev node_stripped : Node
node_stripped = record { name = codes "a"; resource_version = []; annotations = some [] }

abbrev one_each : LbController
one_each = record { ip_map = (first_address, 1) ∷ (second_address, 1) ∷ [] }

first_assignment :
    assign_ip_to_node cluster_api in_order two_nodes two_loads (codes "a")
    ≡ (node_annotated ∷ node_with_address ∷ [], one_each, assigned first_address)
unfolding assign_ip_to_node assign_to write_ip select_ip load biased increment annotate lookup
    insert keys find_node replace_node assigned_ip eq_bytes
first_assignment = refl

first_removal :
    remove_ip_from_node cluster_api (node_annotated ∷ node_with_address ∷ []) one_each (codes "a")
    ≡ (node_stripped ∷ node_with_address ∷ [], two_loads, none)
unfolding remove_ip_from_node remove_from write_removal load decrement unannotate lookup insert
    remove find_node replace_node assigned_ip eq_bytes
first_removal = refl

resync_ip_map-IsCounted_example : IsCounted two_counts two_nodes
resync_ip_map-IsCounted_example =
    resync_ip_map-IsCounted cluster_api two_nodes addresses two_counts all_nodes cluster_api-IsFresh
      (omega arith) resynced

node_found : cluster_api.get two_nodes (codes "a") ≡ found bare_node
unfolding find_node eq_bytes
node_found = refl

node_bare : assigned_ip bare_node ≡ none
unfolding assigned_ip
node_bare = refl

second_known : lookup second_address two_counts ≢ none
unfolding lookup eq_bytes
second_known h = absurd (cc)

given :
    (assign_ip_to_node cluster_api in_order two_nodes two_loads (codes "a")).2
    ≡ assigned first_address
given = rw first_assignment

assign_ip_to_node-least_example :
    biased (load two_counts first_address) ≤ biased (load two_counts second_address)
assign_ip_to_node-least_example =
    assign_ip_to_node-least cluster_api in_order in_order-Perm two_nodes two_loads (codes "a")
      bare_node first_address second_address node_found node_bare given second_known

pub two_counts-IsBalanced : IsBalanced two_counts
unfolding load lookup
two_counts-IsBalanced = record { even = λ i j hi hj. ground arith }

pub two_counts-IsSmall : IsSmall two_counts
unfolding load lookup
two_counts-IsSmall = record { room = λ i hi. ground arith }

assign_ip_to_node-IsBalanced_example :
    IsBalanced (assign_ip_to_node cluster_api in_order two_nodes two_loads (codes "a")).1.ip_map
assign_ip_to_node-IsBalanced_example =
    assign_ip_to_node-IsBalanced in_order in_order-Perm cluster_api two_nodes two_loads (codes "a")
      two_counts-IsBalanced two_counts-IsSmall

node_found_again :
    cluster_api.get (node_annotated ∷ node_with_address ∷ []) (codes "a") ≡ found node_annotated
unfolding find_node eq_bytes
node_found_again = refl

assign_ip_to_node_twice_example :
    assign_ip_to_node cluster_api in_order
      (node_annotated ∷ node_with_address ∷ [])
      one_each
      (codes "a")
    ≡ (node_annotated ∷ node_with_address ∷ [], one_each, assigned first_address)
assign_ip_to_node_twice_example =
    assign_ip_to_node_twice cluster_api all_nodes cluster_api-IsFresh in_order in_order two_nodes
      (node_annotated ∷ node_with_address ∷ []) two_loads one_each (codes "a") first_address
      node_annotated first_assignment node_found_again

fits : load two_counts first_address < 2 ^ 64
unfolding load lookup eq_bytes
fits = omega arith

remove_ip_from_node-assign_ip_to_node_example :
    load two_counts second_address ≡ load two_counts second_address
remove_ip_from_node-assign_ip_to_node_example =
    remove_ip_from_node-assign_ip_to_node cluster_api all_nodes cluster_api-IsFresh in_order
      two_nodes (node_annotated ∷ node_with_address ∷ []) (node_stripped ∷ node_with_address ∷ [])
      two_loads one_each two_loads (codes "a") first_address second_address bare_node node_annotated
      fits node_found node_bare first_assignment node_found_again first_removal

update_failed :
    (assign_ip_to_node failing_api in_order two_nodes two_loads (codes "a")).2
    ≡ not_assigned unavailable
unfolding assign_ip_to_node assign_to write_ip select_ip load biased lookup keys find_node
    assigned_ip eq_bytes
update_failed = refl

removal_failed :
    (remove_ip_from_node failing_api two_nodes two_loads (codes "b")).2 ≡ some unavailable
unfolding remove_ip_from_node remove_from write_removal lookup find_node assigned_ip eq_bytes
removal_failed = refl
