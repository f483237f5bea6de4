-- ===== src/Examples/Restarted.antt =====
-- A call under a server with versions, and a controller that starts anew behind it: the theorems
-- applied.
use google_cloud_platform_nf.Prelude.{
  ◌*◌, ◌+◌, ◌≤◌, All, ◌≡◌, refl, List, [], ◌∷◌, true, some, length, arith, sym,
}
use google_cloud_platform_nf.Text.{codes, eq_bytes}
use google_cloud_platform_nf.Cluster.{
  Node, found, find_node, replace_node, node_annotation, assigned_ip, Reply,
}
use google_cloud_platform_nf.Maps.{lookup, insert, keys}
use google_cloud_platform_nf.Lb.{
  has_ip, IpMap, load, biased, increment, select_ip, annotate, write_ip, assign_to, resync_ip_map,
  zero_ips, count_nodes,
}
use google_cloud_platform_nf.Lb.Interleaving.{assigning, System, Step, reads, assigns, here, next}
use google_cloud_platform_nf.Lb.Share.{Distinct}
use google_cloud_platform_nf.Lb.Growth.{Growth, begins, grown, Growth-share}
use google_cloud_platform_nf.Examples.Balancer.{two_counts-IsBalanced}
use google_cloud_platform_nf.Lb.Restart.{Reach-resync_ip_map}
use google_cloud_platform_nf.Examples.{
  two_nodes, two_loads, two_counts, two_counts-IsCounted, bare_node, node_with_address, addresses,
  first_address, second_address, in_order, in_order-Perm,
}
use google_cloud_platform_nf.Examples.Versioned.{
  versioned_api, stored_nodes, Held, versioned_api-IsVersioned,
}

listed_of : {s ns : List Node} → ◌≡◌ {A = Reply (List Node)} (found s) (found ns) → s ≡ ns
listed_of e = cc

-- A call of `AssignIPToNode` under the server, from its read to its update.
abbrev start_system : System versioned_api
start_system = record { cluster = two_nodes; lb_controller = two_loads; waiting = [] }

abbrev read_system : System versioned_api
read_system = record start_system { waiting = assigning bare_node ∷ [] }

abbrev nodes_then : List Node
nodes_then =
    record {
      name = codes "a";
      resource_version = 0 ∷ [];
      annotations = some ((node_annotation, first_address) ∷ []);
    }
    ∷ node_with_address
    ∷ []

abbrev counts_then : IpMap
counts_then = (first_address, 1) ∷ (second_address, 1) ∷ []

abbrev assigned_system : System versioned_api
assigned_system = record {
  cluster = nodes_then;
  lb_controller = record { ip_map = counts_then };
  waiting = [];
}

read-Step : Step versioned_api stored_nodes Held start_system read_system
unfolding find_node eq_bytes
read-Step = reads (assigning bare_node) (codes "a") refl refl

assign-Step : Step versioned_api stored_nodes Held read_system assigned_system
unfolding assign_to write_ip select_ip load biased increment annotate lookup insert keys
    replace_node find_node assigned_ip eq_bytes
assign-Step = assigns in_order in_order-Perm [] [] bare_node refl refl

first_resync : resync_ip_map versioned_api two_nodes addresses ≡ found two_counts
unfolding resync_ip_map zero_ips count_nodes assigned_ip load increment lookup insert eq_bytes
first_resync = refl

second_resync : resync_ip_map versioned_api nodes_then addresses ≡ found counts_then
unfolding resync_ip_map zero_ips count_nodes assigned_ip load increment lookup insert eq_bytes
second_resync = refl

Reach-resync_ip_map_example : lookup first_address counts_then ≡ lookup first_address counts_then
Reach-resync_ip_map_example =
    Reach-resync_ip_map versioned_api stored_nodes Held versioned_api-IsVersioned two_nodes
      addresses two_counts counts_then first_address (omega arith) (λ ns e. sym (listed_of e))
      first_resync (next (next here read-Step) assign-Step) (λ ns e. sym (listed_of e))
      second_resync

addresses-Distinct : Distinct addresses
unfolding eq_bytes
addresses-Distinct = ((refl, tt), (tt, tt))

addresses_known : All (λ j. has_ip two_counts j ≡ true) addresses
unfolding lookup eq_bytes
addresses_known = (refl, (refl, tt))

first_known : has_ip two_counts first_address ≡ true
unfolding lookup eq_bytes
first_known = refl

only_assigned : Growth versioned_api stored_nodes Held start_system assigned_system
unfolding read-Step assign-Step
only_assigned = grown (grown begins read-Step refl) assign-Step refl

Growth-share_example : 2 * load counts_then first_address ≤ length nodes_then + 2
Growth-share_example =
    Growth-share versioned_api stored_nodes Held versioned_api-IsVersioned two_nodes two_loads
      two_counts-IsCounted addresses first_address two_counts-IsBalanced addresses-Distinct
      addresses_known first_known only_assigned
