-- ===== src/Examples/Requests.antt =====
-- Requests to the controller server, the node server and the provisioner: their theorems applied.
use google_cloud_platform_nf.Prelude.{◌≡◌, refl, [], ◌∷◌, none, some, true}
use google_cloud_platform_nf.Text.{codes, eq_bytes, to_lower, lower}
use google_cloud_platform_nf.Maps.{lookup, insert}
use google_cloud_platform_nf.Cluster.{node_annotation}
use google_cloud_platform_nf.Locks.{VolumeLocks, locked}
use google_cloud_platform_nf.Rpc.{mounted_with, done, NodePublishVolumeRequest}
use google_cloud_platform_nf.Node.{World, publish_params, mount_source, acquire}
use google_cloud_platform_nf.Node.Options.{collect_mount_options, read_ahead_flag}
use google_cloud_platform_nf.Node.Publish.{node_publish_volume}
use google_cloud_platform_nf.Node.LockLaws.{node_publish_volume-RestoresLocks}
use google_cloud_platform_nf.Node.PublishLaws.{IsRefused, node_publish_volume-IsRefused}
use google_cloud_platform_nf.Node.MountLaws.{IsPublished, node_publish_volume-IsPublished}
use google_cloud_platform_nf.Controller.{
  ControllerWorld, ControllerPublishVolumeRequest, controller_publish_volume,
}
use google_cloud_platform_nf.Controller.Publish.{controller_publish_volume-locked}
use google_cloud_platform_nf.Examples.{
  cluster_api, first_address, two_nodes, two_loads, in_order, key_list, key_list-IsStringSet,
  counting_host, driver,
}

abbrev pub free_locks : VolumeLocks key_list
free_locks = record { locks = [] }

abbrev pub publish_request : ControllerPublishVolumeRequest
publish_request = record {
  volume_id = codes "v";
  node_id = codes "a";
  volume_capability = some (mounted_with []);
}

abbrev pub controller_world : ControllerWorld cluster_api key_list
controller_world = record {
  cluster = two_nodes;
  lb_controller = two_loads;
  volume_locks = free_locks;
}

abbrev pub node_world : World counting_host key_list
node_world = record { host_state = 0; volume_locks = free_locks }

abbrev pub node_request : NodePublishVolumeRequest
node_request = record {
  volume_id = codes "v";
  target_path = codes "/t";
  volume_capability = some (mounted_with []);
  volume_context = (codes "share", codes "/vol1") ∷ [];
  publish_context = (node_annotation, first_address) ∷ [];
  readonly = true;
}

abbrev bare_request : NodePublishVolumeRequest
bare_request = record node_request { publish_context = [] }

pub node_published :
    (node_publish_volume counting_host key_list driver node_request node_world).1 ≡ done tt
unfolding node_publish_volume lookup insert eq_bytes to_lower lower publish_params
    collect_mount_options read_ahead_flag mount_source acquire
node_published = refl

controller_publish_volume-locked_example :
    locked key_list
      (controller_publish_volume cluster_api key_list in_order publish_request
        controller_world).0.volume_locks
      (codes "a/v")
    ≡ locked key_list free_locks (codes "a/v")
controller_publish_volume-locked_example =
    controller_publish_volume-locked cluster_api key_list key_list-IsStringSet in_order
      publish_request controller_world (codes "a/v")

node_publish_volume-IsPublished_example : IsPublished counting_host key_list driver node_request 0
node_publish_volume-IsPublished_example =
    node_publish_volume-IsPublished counting_host key_list driver node_request node_world
      node_published

no_context : lookup node_annotation bare_request.publish_context ≡ none
unfolding lookup
no_context = refl

node_publish_volume-IsRefused_example :
    IsRefused counting_host key_list node_world
      (node_publish_volume counting_host key_list driver bare_request node_world)
node_publish_volume-IsRefused_example =
    node_publish_volume-IsRefused counting_host key_list driver bare_request node_world no_context

node_publish_volume-RestoresLocks_example :
    locked key_list
      (node_publish_volume counting_host key_list driver node_request node_world).0.volume_locks
      (codes "v-/t")
    ≡ locked key_list free_locks (codes "v-/t")
node_publish_volume-RestoresLocks_example =
    node_publish_volume-RestoresLocks counting_host key_list key_list-IsStringSet driver
      node_request node_world (codes "v-/t")
