-- ===== src/Controller.antt =====
-- pkg/nfs/controllerserver.go: `ControllerPublishVolume`, `ControllerUnpublishVolume` and the calls
-- that answer from the driver alone.
pub mod Publish
pub mod EndToEnd
pub mod Progress
pub mod Delivery
use google_cloud_platform_nf.Prelude.{
  ◌≡◌, refl, List, [], ◌∷◌, ◌++◌, Bool, true, false, not, Option, none, some, if◌then◌else◌,
}
use google_cloud_platform_nf.Text.{Bytes, is_empty}
use google_cloud_platform_nf.Maps.{Map}
use google_cloud_platform_nf.Cluster.{NodeApi, ApiError, node_annotation}
use google_cloud_platform_nf.Locks.{StringSet, VolumeLocks, try_acquire, release}
use google_cloud_platform_nf.Rpc.{
  Code, invalid_argument, aborted, internal, unimplemented, VolumeCapability, Outcome, done, failed,
  panicked, M, continue, ◌>>=◌, ◌>>◌, fail, require, deferring,
}
use google_cloud_platform_nf.Driver.{Driver, ControllerServiceCapability}
use google_cloud_platform_nf.Lb.{
  LbController, Assignment, assigned, not_assigned, crashed, assign_ip_to_node, remove_ip_from_node,
}
use google_cloud_platform_nf.Provisioner.{is_valid_volume_capabilities}

-- The cluster, the counts of the load balancer and the lock table of the driver.
pub record ControllerWorld (api : NodeApi) (sets : StringSet) : Type 0 where
  pub cluster : api.State
  pub lb_controller : LbController
  pub volume_locks : VolumeLocks sets

pub record ControllerPublishVolumeRequest : Type 0 where
  pub volume_id : Bytes
  pub node_id : Bytes
  pub volume_capability : Option VolumeCapability

pub record ControllerUnpublishVolumeRequest : Type 0 where
  pub volume_id : Bytes
  pub node_id : Bytes

-- `lockingVolumeID`.
unfoldable pub locking_volume_id : Bytes → Bytes → Bytes
locking_volume_id node_id volume_id = node_id ++ b'/' ∷ volume_id

-- The publish context, or the code of the error.
unfoldable pub publish_answer : Assignment → Outcome (Map Bytes)
publish_answer (assigned ip) = done ((node_annotation, ip) ∷ [])
publish_answer (not_assigned e) = failed internal
publish_answer crashed = panicked

unfoldable pub unpublish_answer : Option ApiError → Outcome (Unit {0})
unpublish_answer none = done tt
unpublish_answer (some e) = failed internal

abbrev pub is_some : {A : Type 0} → Option A → Bool
is_some none = false
is_some (some a) = true

module _ (api : NodeApi) (sets : StringSet) where
  abbrev pub Handler : Type 0 → Type 0
  Handler A = M (ControllerWorld api sets) A

  unfoldable pub acquire : Bytes → Handler (Unit {0})
  unfolding try_acquire
  acquire key w =
      let (locks, acquired) = try_acquire sets w.volume_locks key in
      (record w { volume_locks = locks }, if acquired then done tt else failed aborted)

  unfoldable pub release_key : Bytes → Handler (Unit {0})
  unfolding release
  release_key key w = (record w { volume_locks = release sets w.volume_locks key }, done tt)

  unfoldable pub locking : {A : Type 0} → Bytes → Handler A → Handler A
  unfolding acquire release_key
  locking key body = do acquire key; deferring (release_key key) body

  -- `AssignIPToNode` and its answer; `visit` is the order of its loop over the map.
  unfoldable pub assign : (List Bytes → List Bytes) → Bytes → Handler (Map Bytes)
  unfolding assign_ip_to_node publish_answer
  assign visit node_id w =
      let (cluster, lb, r) = assign_ip_to_node api visit w.cluster w.lb_controller node_id in
      (record w { cluster = cluster; lb_controller = lb }, publish_answer r)

  unfoldable pub remove : Bytes → Handler (Unit {0})
  unfolding remove_ip_from_node unpublish_answer
  remove node_id w =
      let (cluster, lb, r) = remove_ip_from_node api w.cluster w.lb_controller node_id in
      (record w { cluster = cluster; lb_controller = lb }, unpublish_answer r)

  unfoldable pub controller_publish_volume :
      (List Bytes → List Bytes) → ControllerPublishVolumeRequest → Handler (Map Bytes)
  unfolding locking assign locking_volume_id
  controller_publish_volume visit req = do
    require (not (is_empty req.volume_id)) invalid_argument
    require (not (is_empty req.node_id)) invalid_argument
    require (is_some req.volume_capability) invalid_argument
    locking (locking_volume_id req.node_id req.volume_id) (assign visit req.node_id)

  unfoldable pub controller_unpublish_volume : ControllerUnpublishVolumeRequest → Handler (Unit {0})
  unfolding locking remove locking_volume_id
  controller_unpublish_volume req = do
    require (not (is_empty req.volume_id)) invalid_argument
    require (not (is_empty req.node_id)) invalid_argument
    locking (locking_volume_id req.node_id req.volume_id) (remove req.node_id)

-- The confirmed capabilities.
unfoldable validate_volume_capabilities :
    Bytes → List VolumeCapability → Outcome (List VolumeCapability)
unfolding is_valid_volume_capabilities
validate_volume_capabilities volume_id caps =
    if is_empty volume_id
    then failed invalid_argument
    else if is_valid_volume_capabilities caps
    then done caps
    else failed invalid_argument

unfoldable controller_get_capabilities : Driver → List ControllerServiceCapability
controller_get_capabilities d = d.cscap

unfoldable controller_get_volume : Outcome (Unit {0})
controller_get_volume = failed unimplemented

-- `ListVolumes` and `GetCapacity`.
unfoldable unlisted_call : Outcome (Unit {0})
unlisted_call = failed unimplemented

-- `ListSnapshots`, `ControllerExpandVolume` and `ControllerModifyVolume`.
unfoldable unimplemented_call : Outcome (Unit {0})
unimplemented_call = failed unimplemented
