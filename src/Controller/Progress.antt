-- ===== src/Controller/Progress.antt =====
-- When `ControllerPublishVolume` and `ControllerUnpublishVolume` of pkg/nfs/controllerserver.go
-- succeed.
use mathlib.Core.List.{Perm}
use google_cloud_platform_nf.Prelude.{◌≡◌, ◌≢◌, refl, List, [], ◌∷◌, none, some, true, false}
use google_cloud_platform_nf.Text.{Bytes, is_empty}
use google_cloud_platform_nf.Maps.{lookup}
use google_cloud_platform_nf.Cluster.{Node, NodeApi, node_annotation, found}
use google_cloud_platform_nf.Locks.{StringSet, locked, try_acquire}
use google_cloud_platform_nf.Rpc.{done, VolumeCapability}
use google_cloud_platform_nf.Lb.{has_ip, annotate}
use google_cloud_platform_nf.Lb.Progress.{assign_ip_to_node-IsAssigned}
use google_cloud_platform_nf.Controller.Publish.{with_lock}
use google_cloud_platform_nf.Controller.{
  ControllerWorld, ControllerPublishVolumeRequest, locking_volume_id, publish_answer, Handler,
  acquire, locking, assign, controller_publish_volume,
}

module _ (api : NodeApi) (sets : StringSet) where
  locking_result :
      {A : Type 0} (key : Bytes) (body : Handler api sets A) (w : ControllerWorld api sets)
      → locked sets w.volume_locks key ≡ false
      → (locking api sets key body w).1 ≡ (body (with_lock api sets key w)).1
  unfolding locking acquire try_acquire
  locking_result key body w free = rw (free, locking, acquire, try_acquire)

  module _ (visit : List Bytes → List Bytes) (visits : (ks : List Bytes) → Perm (visit ks) ks)
      (req : ControllerPublishVolumeRequest) (w : ControllerWorld api sets) where
    -- `ControllerPublishVolume` succeeds for a request with both ids and a capability, and answers
    -- with an address that the controller counts, if no call holds the lock, the lister finds the
    -- node, the controller has an address at all and the server accepts the update of the node.
    pub controller_publish_volume-done :
        (cap : VolumeCapability) (n : Node) (j : Bytes)
        → is_empty req.volume_id ≡ false
        → is_empty req.node_id ≡ false
        → req.volume_capability ≡ some cap
        → locked sets w.volume_locks (locking_volume_id req.node_id req.volume_id) ≡ false
        → api.get w.cluster req.node_id ≡ found n
        → lookup j w.lb_controller.ip_map ≢ none
        → ((ip : Bytes) → (api.update w.cluster (annotate n ip)).1 ≡ none)
        → (ip : Bytes) × (has_ip w.lb_controller.ip_map ip ≡ true)
          × ((controller_publish_volume api sets visit req w).1 ≡ done ((node_annotation, ip) ∷ []))
    unfolding controller_publish_volume assign publish_answer
    controller_publish_volume-done cap n j volume node given free got known accepted =
        let key = locking_volume_id req.node_id req.volume_id in
        let all =
          assign_ip_to_node-IsAssigned api visit visits w.cluster w.lb_controller n j known accepted
            req.node_id got in
        (
          all.ip,
          all.counted,
          rw
              (
                volume,
                node,
                given,
                locking_result key (assign api sets visit req.node_id) w free,
                all.is_ip,
              )
              refl,
        )
