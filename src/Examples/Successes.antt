-- ===== src/Examples/Successes.antt =====
-- Requests that succeed, and a read-ahead that is written and read back: the theorems applied.
use google_cloud_platform_nf.Prelude.{◌≡◌, ◌≢◌, refl, [], ◌∷◌, none, some, true}
use google_cloud_platform_nf.Text.{Bytes, codes, eq_bytes, to_lower, lower}
use google_cloud_platform_nf.Maps.{lookup}
use google_cloud_platform_nf.Cluster.{find_node, node_annotation, found}
use google_cloud_platform_nf.Rpc.{mounted_with, done}
use google_cloud_platform_nf.Lb.{has_ip}
use google_cloud_platform_nf.Maps.{Map}
use google_cloud_platform_nf.Controller.Delivery.{
  IsPublishable, IsDeliverable, controller_publish_volume-node_publish_volume,
}
use google_cloud_platform_nf.Controller.{controller_publish_volume}
use google_cloud_platform_nf.Controller.Progress.{controller_publish_volume-done}
use google_cloud_platform_nf.Node.Finish.{none_asked, no_flag_given}
use google_cloud_platform_nf.Node.{PublishParams, publish_params, mount_source}
use google_cloud_platform_nf.Node.Options.{extract_read_ahead_kb_mount_flag, read_ahead_flag}
use google_cloud_platform_nf.Node.Publish.{node_publish_volume, request_options}
use google_cloud_platform_nf.Node.Progress.{IsMountable}
use google_cloud_platform_nf.Examples.{
  cluster_api, two_nodes, two_loads, bare_node, node_with_address, first_address, in_order,
  in_order-Perm, key_list, counting_host, driver,
}
use google_cloud_platform_nf.Examples.Requests.{
  controller_world, publish_request, node_world, node_request,
}

first_found : lookup first_address two_loads.ip_map ≢ none
unfolding lookup eq_bytes
first_found e = cc

a_found : cluster_api.get two_nodes (codes "a") ≡ found bare_node
unfolding find_node eq_bytes
a_found = refl

b_found : cluster_api.get two_nodes (codes "b") ≡ found node_with_address
unfolding find_node eq_bytes
b_found = refl

controller_publish_volume-done_example :
    (ip : Bytes) × (has_ip two_loads.ip_map ip ≡ true)
    × ((controller_publish_volume cluster_api key_list in_order publish_request controller_world).1
        ≡ done ((node_annotation, ip) ∷ []))
controller_publish_volume-done_example =
    controller_publish_volume-done cluster_api key_list in_order in_order-Perm publish_request
      controller_world (mounted_with []) bare_node first_address refl refl refl refl a_found
      first_found (λ ip. refl)

abbrev pub params : PublishParams
params = record {
  base_dir = codes "/vol1";
  sub_dir = [];
  sub_dir_replace_map = [];
  mount_options = codes "ro" ∷ [];
  mount_permissions = 0;
}

params_read :
    publish_params node_request.volume_context (
      some (record {
        base_dir = [];
        sub_dir = [];
        sub_dir_replace_map = [];
        mount_options = request_options (mounted_with []) true;
        mount_permissions = 0;
      }))
    ≡ some params
unfolding publish_params request_options eq_bytes to_lower lower
params_read = refl

address_read : lookup node_annotation node_request.publish_context ≡ some first_address
unfolding lookup eq_bytes
address_read = refl

any_address-IsMountable :
    (ip : Bytes) → IsMountable counting_host key_list 0 (mount_source ip params) (codes "/t") params
unfolding extract_read_ahead_kb_mount_flag read_ahead_flag
any_address-IsMountable ip = record {
  checked = λ e. cc;
  made = refl;
  finishes = record {
    permitted = 1;
    tuned = 1;
    accepted = refl;
    permits = none_asked refl refl;
    tunes = no_flag_given refl refl;
  };
}

publish_request-IsPublishable : IsPublishable cluster_api key_list publish_request controller_world
publish_request-IsPublishable = record {
  cap = mounted_with [];
  node = bare_node;
  address = first_address;
  volume_given = refl;
  node_given = refl;
  cap_given = refl;
  free = refl;
  got = a_found;
  known = first_found;
  accepted = λ ip. refl;
}

node_request-IsDeliverable :
    IsDeliverable counting_host key_list driver node_request node_world
      (λ ip. has_ip two_loads.ip_map ip ≡ true)
node_request-IsDeliverable = record {
  cap = mounted_with [];
  params = params;
  volume_given = refl;
  target_given = refl;
  cap_given = refl;
  free = refl;
  parsed = params_read;
  shared = refl;
  mountable = λ ip known. any_address-IsMountable ip;
}

controller_publish_volume-node_publish_volume_example :
    (context : Map Bytes) × ((controller_publish_volume cluster_api key_list in_order
        publish_request controller_world).1
      ≡ done context)
    × ((node_publish_volume counting_host key_list driver
          (record node_request { publish_context = context })
          node_world).1
        ≡ done tt)
controller_publish_volume-node_publish_volume_example =
    controller_publish_volume-node_publish_volume cluster_api key_list in_order in_order-Perm
      publish_request controller_world counting_host driver node_request node_world
      publish_request-IsPublishable node_request-IsDeliverable
