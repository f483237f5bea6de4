-- ===== src/Controller/Delivery.antt =====
-- A volume on its way to a node: `ControllerPublishVolume` of pkg/nfs/controllerserver.go and then
-- `NodePublishVolume` of pkg/nfs/nodeserver.go, with the answer of the one as the context of the other.
use mathlib.Core.List.{Perm}
use google_cloud_platform_nf.Prelude.{◌≡◌, ◌≢◌, refl, List, [], ◌∷◌, none, some, true, false}
use google_cloud_platform_nf.Text.{Bytes, is_empty, eq_bytes_refl}
use google_cloud_platform_nf.Maps.{Map, lookup}
use google_cloud_platform_nf.Cluster.{Node, NodeApi, node_annotation, found}
use google_cloud_platform_nf.Locks.{StringSet, locked}
use google_cloud_platform_nf.Rpc.{done, VolumeCapability, NodePublishVolumeRequest}
use google_cloud_platform_nf.Driver.{Driver}
use google_cloud_platform_nf.Host.{Host}
use google_cloud_platform_nf.Lb.{has_ip, annotate}
use google_cloud_platform_nf.Node.{
  World, PublishParams, publish_params, mount_source, node_lock_key,
}
use google_cloud_platform_nf.Node.Publish.{node_publish_volume}
use google_cloud_platform_nf.Node.MountLaws.{start_params}
use google_cloud_platform_nf.Node.Progress.{IsMountable, node_publish_volume-done}
use google_cloud_platform_nf.Controller.{
  ControllerWorld, ControllerPublishVolumeRequest, locking_volume_id, controller_publish_volume,
}
use google_cloud_platform_nf.Controller.Progress.{controller_publish_volume-done}

-- What `ControllerPublishVolume` needs: a complete request, a free lock, the node, an address, and a
-- server that takes the node's update.
pub record IsPublishable (api : NodeApi) (sets : StringSet) (req : ControllerPublishVolumeRequest)
    (w : ControllerWorld api sets) : Type 0 where
  pub cap : VolumeCapability
  pub node : Node
  pub address : Bytes
  pub volume_given : is_empty req.volume_id ≡ false
  pub node_given : is_empty req.node_id ≡ false
  pub cap_given : req.volume_capability ≡ some cap
  pub free : locked sets w.volume_locks (locking_volume_id req.node_id req.volume_id) ≡ false
  pub got : api.get w.cluster req.node_id ≡ found node
  pub known : lookup address w.lb_controller.ip_map ≢ none
  pub accepted : (ip : Bytes) → (api.update w.cluster (annotate node ip)).1 ≡ none

-- What `NodePublishVolume` needs, whichever address of the controller it is given.
pub record IsDeliverable (host : Host) (sets : StringSet) (d : Driver)
    (req : NodePublishVolumeRequest) (w : World host sets) (HasIp : Bytes → Type 0) : Type 0 where
  pub cap : VolumeCapability
  pub params : PublishParams
  pub volume_given : is_empty req.volume_id ≡ false
  pub target_given : is_empty req.target_path ≡ false
  pub cap_given : req.volume_capability ≡ some cap
  pub free : locked sets w.volume_locks (node_lock_key req.volume_id req.target_path) ≡ false
  pub parsed :
      publish_params req.volume_context (some (start_params host sets d req cap)) ≡ some params
  pub shared : is_empty params.base_dir ≡ false
  pub mountable :
      (ip : Bytes)
      → HasIp ip
      → IsMountable host sets w.host_state (mount_source ip params) req.target_path params

lookup_only : (k v : Bytes) → lookup k ((k, v) ∷ []) ≡ some v
unfolding lookup
lookup_only k v = rw (eq_bytes_refl k) refl

-- `ControllerPublishVolume` succeeds, and `NodePublishVolume` succeeds with its answer, if both
-- requests are complete, no call holds their locks, the lister finds the node, the controller has an
-- address at all, the server accepts the update of the node, the parameters of the volume name a
-- share, and the calls of the node's host succeed for each address that the controller counts: the
-- check of the target, its making, the mount, and the permissions and the read-ahead where they are
-- asked for.
pub controller_publish_volume-node_publish_volume :
    (api : NodeApi) (sets : StringSet) (visit : List Bytes → List Bytes)
    (visits : (ks : List Bytes) → Perm (visit ks) ks) (req : ControllerPublishVolumeRequest)
    (w : ControllerWorld api sets) (host : Host) (d : Driver) (node_req : NodePublishVolumeRequest)
    (node_w : World host sets)
    → IsPublishable api sets req w
    → IsDeliverable host sets d node_req node_w (λ ip. has_ip w.lb_controller.ip_map ip ≡ true)
    → (context : Map Bytes) × ((controller_publish_volume api sets visit req w).1 ≡ done context)
      × ((node_publish_volume host sets d (record node_req { publish_context = context }) node_w).1
          ≡ done tt)
controller_publish_volume-node_publish_volume api sets visit visits req w host d node_req node_w
      first second =
    let (ip, counted, answer) =
      controller_publish_volume-done api sets visit visits req w first.cap first.node first.address
        first.volume_given first.node_given first.cap_given first.free first.got first.known
        first.accepted in
    let context : Map Bytes = (node_annotation, ip) ∷ [] in
    (
      context,
      answer,
      node_publish_volume-done host sets d (record node_req { publish_context = context })
          second.cap ip second.params node_w
          (record {
            volume_given = second.volume_given;
            target_given = second.target_given;
            cap_given = second.cap_given;
            address_given = lookup_only node_annotation ip;
            parsed = second.parsed;
            shared = second.shared;
          })
          second.free (second.mountable ip counted),
    )
