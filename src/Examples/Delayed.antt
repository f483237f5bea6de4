-- ===== src/Examples/Delayed.antt =====
-- The controller server before an API server whose lister lags behind: its theorems applied.
use google_cloud_platform_nf.Prelude.{[], ◌∷◌, ◌≡◌, refl, false, some}
use google_cloud_platform_nf.Text.{Bytes, codes, eq_bytes}
use google_cloud_platform_nf.Cluster.{find_node, replace_node, assigned_ip, node_annotation}
use google_cloud_platform_nf.Maps.{Map, lookup, insert, keys}
use google_cloud_platform_nf.Lb.{
  assign_ip_to_node, assign_to, write_ip, select_ip, biased, load, assigned,
}
use google_cloud_platform_nf.Lb.Origin.{IsGiven, assign_ip_to_node-IsGiven}
use google_cloud_platform_nf.Node.MountLaws.{IsPublished}
use google_cloud_platform_nf.Controller.EndToEnd.{
  Answers, controller_publish_volume-Answers, node_publish_volume-controller_publish_volume,
}
use google_cloud_platform_nf.Examples.Requests.{node_request, node_world, node_published}
use google_cloud_platform_nf.Rpc.{mounted_with, done}
use google_cloud_platform_nf.Controller.{
  ControllerWorld, ControllerPublishVolumeRequest, ControllerUnpublishVolumeRequest,
  controller_publish_volume,
}
use google_cloud_platform_nf.Controller.Publish.{InStep, controller_publish_volume-InStep}
use google_cloud_platform_nf.Examples.{
  key_list, two_nodes, two_loads, two_counts-IsCounted, in_order, in_order-Perm, first_address,
  counting_host, driver,
}
use google_cloud_platform_nf.Examples.Lagging.{
  lagging_api, server_nodes, Issued, lagging_api-IsVersioned,
}

abbrev controller_world : ControllerWorld lagging_api key_list
controller_world = record {
  cluster = (two_nodes, false);
  lb_controller = two_loads;
  volume_locks = record { locks = [] };
}

abbrev publish_request : ControllerPublishVolumeRequest
publish_request = record {
  volume_id = codes "v";
  node_id = codes "a";
  volume_capability = some (mounted_with []);
}

controller_publish_volume-InStep_example :
    InStep lagging_api key_list server_nodes Issued lagging_api-IsVersioned
      (controller_publish_volume lagging_api key_list in_order publish_request controller_world).0
controller_publish_volume-InStep_example =
    controller_publish_volume-InStep lagging_api key_list server_nodes Issued
      lagging_api-IsVersioned in_order in_order-Perm publish_request controller_world
      two_counts-IsCounted

assigned_first :
    (assign_ip_to_node lagging_api in_order (two_nodes, false) two_loads (codes "a")).2
    ≡ assigned first_address
unfolding assign_ip_to_node assign_to write_ip lookup insert keys find_node replace_node assigned_ip
    eq_bytes select_ip biased load
assigned_first = refl

abbrev answered : Map Bytes
answered = (node_annotation, first_address) ∷ []

controller_published :
    (controller_publish_volume lagging_api key_list in_order publish_request controller_world).1
    ≡ done answered
unfolding controller_publish_volume lookup insert keys find_node replace_node assigned_ip eq_bytes
    select_ip biased load
controller_published = refl

assign_ip_to_node-IsGiven_example :
    IsGiven lagging_api server_nodes
      (two_nodes, false)
      two_loads
      (codes "a")
      first_address
      (assign_ip_to_node lagging_api in_order (two_nodes, false) two_loads (codes "a")).0
      (assign_ip_to_node lagging_api in_order (two_nodes, false) two_loads (codes "a")).1
assign_ip_to_node-IsGiven_example =
    assign_ip_to_node-IsGiven lagging_api server_nodes Issued lagging_api-IsVersioned in_order
      (two_nodes, false) two_loads (codes "a") first_address assigned_first

controller_publish_volume-Answers_example :
    Answers lagging_api key_list server_nodes Issued lagging_api-IsVersioned in_order
      publish_request controller_world
      (controller_publish_volume lagging_api key_list in_order publish_request controller_world).0
      answered
controller_publish_volume-Answers_example =
    controller_publish_volume-Answers lagging_api key_list server_nodes Issued
      lagging_api-IsVersioned in_order publish_request controller_world answered
      controller_published

node_publish_volume-controller_publish_volume_example :
    (published : IsPublished counting_host key_list driver node_request node_world.host_state)
    × IsGiven lagging_api server_nodes
        (two_nodes, false)
        two_loads
        (codes "a")
        published.ip
        (controller_publish_volume lagging_api key_list in_order publish_request
          controller_world).0.cluster
        (controller_publish_volume lagging_api key_list in_order publish_request
          controller_world).0.lb_controller
node_publish_volume-controller_publish_volume_example =
    node_publish_volume-controller_publish_volume lagging_api key_list server_nodes Issued
      lagging_api-IsVersioned in_order counting_host driver publish_request controller_world
      node_request node_world controller_published node_published

abbrev unpublish_request : ControllerUnpublishVolumeRequest
unpublish_request = record { volume_id = codes "v"; node_id = codes "b" }
