-- ===== src/Examples/Interleaved.antt =====
-- Two volumes are published to one node at the same time, and a node leaves: the theorems applied.
use google_cloud_platform_nf.Prelude.{◌≡◌, ◌≤◌, ◌<◌, ◌^◌, refl, [], ◌∷◌, true, false, some, length}
use google_cloud_platform_nf.Text.{codes, eq_bytes}
use google_cloud_platform_nf.Maps.{lookup, insert, keys}
use google_cloud_platform_nf.Cluster.{
  Node, node_annotation, assigned_ip, find_node, replace_node, found,
}
use google_cloud_platform_nf.Lb.{
  LbController, load, has_ip, biased, increment, select_ip, annotate, write_ip, assign_to,
}
use google_cloud_platform_nf.Lb.Counted.{IsCounted}
use google_cloud_platform_nf.Lb.Interleaving.{
  assigning, System, Step, reads, assigns, Reach, here, next, Reach-IsCounted, Reach-load,
}
use google_cloud_platform_nf.Examples.{
  first_address, second_address, bare_node, node_with_address, two_nodes, two_loads,
  two_counts-IsCounted, in_order, in_order-Perm,
}
use google_cloud_platform_nf.Examples.Lagging.{
  lagging_api, server_nodes, Issued, lagging_api-IsVersioned,
}

abbrev node_annotated : Node
node_annotated = record {
  name = codes "a";
  resource_version = [];
  annotations = some ((node_annotation, first_address) ∷ []);
}

abbrev one_each : LbController
one_each = record { ip_map = (first_address, 1) ∷ (second_address, 1) ∷ [] }

abbrev idle : System lagging_api
idle = record { cluster = (two_nodes, false); lb_controller = two_loads; waiting = [] }

abbrev one_read : System lagging_api
one_read = record idle { waiting = assigning bare_node ∷ [] }

abbrev both_read : System lagging_api
both_read = record idle { waiting = assigning bare_node ∷ assigning bare_node ∷ [] }

abbrev one_done : System lagging_api
one_done = record {
  cluster = (node_annotated ∷ node_with_address ∷ [], true);
  lb_controller = one_each;
  waiting = assigning bare_node ∷ [];
}

-- The update of the second call is refused.
abbrev both_done : System lagging_api
both_done = record one_done { waiting = [] }

node_read : lagging_api.get (two_nodes, false) (codes "a") ≡ found bare_node
unfolding find_node eq_bytes
node_read = refl

first_assigns : Step lagging_api server_nodes Issued both_read one_done
unfolding assign_to write_ip select_ip load biased increment annotate lookup insert keys
    replace_node assigned_ip eq_bytes
first_assigns = assigns in_order in_order-Perm [] (assigning bare_node ∷ []) bare_node refl refl

second_fails : Step lagging_api server_nodes Issued one_done both_done
unfolding assign_to write_ip select_ip load biased increment annotate lookup insert keys
    replace_node assigned_ip eq_bytes
second_fails = assigns in_order in_order-Perm [] [] bare_node refl refl

first_reads : Step lagging_api server_nodes Issued idle one_read
first_reads = reads (assigning bare_node) (codes "a") node_read refl

second_reads : Step lagging_api server_nodes Issued one_read both_read
second_reads = reads (assigning bare_node) (codes "a") node_read refl

run : Reach lagging_api server_nodes Issued idle both_done
run = next (next (next (next here first_reads) second_reads) first_assigns) second_fails

Reach-IsCounted_example : IsCounted one_each.ip_map (node_annotated ∷ node_with_address ∷ [])
Reach-IsCounted_example =
    Reach-IsCounted lagging_api server_nodes Issued lagging_api-IsVersioned (two_nodes, false)
      two_loads two_counts-IsCounted run

first_known : has_ip one_each.ip_map first_address ≡ true
unfolding lookup eq_bytes
first_known = refl

Reach-load_example :
    (load one_each.ip_map first_address ≤ length (node_annotated ∷ node_with_address ∷ []))
    × (length (node_annotated ∷ node_with_address ∷ []) < 2 ^ 63)
Reach-load_example =
    Reach-load lagging_api server_nodes Issued lagging_api-IsVersioned (two_nodes, false) two_loads
      first_address two_counts-IsCounted run first_known
