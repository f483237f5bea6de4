-- ===== src/Node/Progress.antt =====
-- When `NodePublishVolume` and `NodeUnpublishVolume` of pkg/nfs/nodeserver.go succeed.
use google_cloud_platform_nf.Prelude.{◌≡◌, ◌≢◌, refl, true, false, some, if◌then◌else◌, ◌∙◌, ap}
use google_cloud_platform_nf.Text.{Bytes, is_empty}
use google_cloud_platform_nf.Maps.{lookup}
use google_cloud_platform_nf.Cluster.{node_annotation}
use google_cloud_platform_nf.Locks.{StringSet, try_acquire, locked}
use google_cloud_platform_nf.Rpc.{
  internal, done, VolumeCapability, NodePublishVolumeRequest, NodeUnpublishVolumeRequest, pure,
  continue, Outcome, after_return,
}
use google_cloud_platform_nf.Driver.{Driver}
use google_cloud_platform_nf.Host.{
  Host, MountCheck, is_mounted, not_mounted, is_absent, check_failed,
}
use google_cloud_platform_nf.Node.{
  World, PublishParams, publish_params, mount_source, file_mode, node_lock_key, call_host,
  release_key,
}
use google_cloud_platform_nf.Node.Publish.{
  after_check, not_mount_point, mount_volume, mount_unless_mounted, publish_with, publish_locked,
  publish_for, node_publish_volume, node_unpublish_volume,
}
use google_cloud_platform_nf.Node.LockLaws.{locking_free}
use google_cloud_platform_nf.Node.MountLaws.{checked_host, start_params}
use google_cloud_platform_nf.Node.Finish.{Finishes, mount_volume_done}

module _ (host : Host) (sets : StringSet) where
  -- The host as the check of the target leaves it.
  abbrev checked_state : host.State → Bytes → PublishParams → host.State
  checked_state h t p = checked_host host sets h t (file_mode p.mount_permissions)

  -- The calls of the host that a publish makes succeed: the check of the target, its making, the mount
  -- and what follows it.
  pub record IsMountable (h : host.State) (source target_path : Bytes) (p : PublishParams)
      : Type 0 where
    pub checked : host.is_likely_not_mount_point h target_path ≢ check_failed
    pub made : (host.mkdir_all h target_path (file_mode p.mount_permissions)).1 ≡ true
    pub finishes : Finishes host target_path source p (checked_state h target_path p)

  after_check_succeeds :
      (source t : Bytes) (p : PublishParams) (w : World host sets) (c : MountCheck)
      → host.is_likely_not_mount_point w.host_state t ≡ c
      → IsMountable w.host_state source t p
      → (continue
          (after_check host sets t (file_mode p.mount_permissions) c w)
          (λ fresh. if fresh then mount_volume host sets source t p else pure tt)).1
        ≡ done tt
  unfolding after_check call_host
  after_check_succeeds source t p w is_mounted e can = refl
  after_check_succeeds source t p w not_mounted e can =
      ap (λ r. r.1)
        (mount_volume_done host sets t source p w (rw (e, checked_host) at can.finishes))
  after_check_succeeds source t p w is_absent e can = rw can.made (
      ap (λ r. r.1)
        (mount_volume_done host sets t source p
          (record w {
            host_state = (host.mkdir_all w.host_state t (file_mode p.mount_permissions)).0;
          })
          (rw (e, checked_host) at can.finishes)))
  after_check_succeeds source t p w check_failed e can = absurd (can.checked e)

  mount_unless_mounted_succeeds :
      (source t : Bytes) (p : PublishParams) (w : World host sets)
      → IsMountable w.host_state source t p
      → (mount_unless_mounted host sets source t p w).1 ≡ done tt
  mount_unless_mounted_succeeds source t p w can =
      unfold mount_unless_mounted not_mount_point in
      (after_check_succeeds source t p w (host.is_likely_not_mount_point w.host_state t) refl can)

  -- A request that lacks nothing, with the address and the parameters that it gives.
  pub record IsComplete (d : Driver) (req : NodePublishVolumeRequest) (cap : VolumeCapability)
      (ip : Bytes) (p : PublishParams) : Type 0 where
    pub volume_given : is_empty req.volume_id ≡ false
    pub target_given : is_empty req.target_path ≡ false
    pub cap_given : req.volume_capability ≡ some cap
    pub address_given : lookup node_annotation req.publish_context ≡ some ip
    pub parsed :
        publish_params req.volume_context (some (start_params host sets d req cap)) ≡ some p
    pub shared : is_empty p.base_dir ≡ false

  module _ (d : Driver) (req : NodePublishVolumeRequest) (cap : VolumeCapability) (ip : Bytes)
      (p : PublishParams) (complete : IsComplete d req cap ip p) where
    pub node_publish_volume_free :
        (w : World host sets)
        → locked sets w.volume_locks (node_lock_key req.volume_id req.target_path) ≡ false
        → node_publish_volume host sets d req w
          ≡ after_return (release_key host sets (node_lock_key req.volume_id req.target_path)) (
              mount_unless_mounted host sets (mount_source ip p) req.target_path p (record w {
                volume_locks =
                    (try_acquire sets w.volume_locks
                      (node_lock_key req.volume_id req.target_path)).0;
              }))
    unfolding node_publish_volume publish_for publish_locked publish_with
    node_publish_volume_free w free =
        let key = node_lock_key req.volume_id req.target_path in
        rw
          (
            complete.cap_given,
            complete.volume_given,
            complete.target_given,
            locking_free host sets key (publish_locked host sets d req cap) w free,
            complete.parsed,
            complete.shared,
            complete.address_given,
          )
          refl

  pub released_state :
      (key : Bytes) (r : World host sets × Outcome (Unit {0}))
      → ((after_return (release_key host sets key) r).0.host_state ≡ r.0.host_state)
        × ((after_return (release_key host sets key) r).1 ≡ r.1)
  unfolding release_key
  released_state key (w, r) = (refl, refl)

  -- `NodePublishVolume` succeeds for a request with a volume id, a target, a capability, the
  -- controller's address and parameters that name a share, if no call holds the lock and the calls of
  -- the host succeed: the check of the target, its making, the mount, and the permissions and the
  -- read-ahead where they are asked for.
  pub node_publish_volume-done :
      (d : Driver) (req : NodePublishVolumeRequest) (cap : VolumeCapability) (ip : Bytes)
      (p : PublishParams) (w : World host sets)
      → IsComplete d req cap ip p
      → locked sets w.volume_locks (node_lock_key req.volume_id req.target_path) ≡ false
      → IsMountable w.host_state (mount_source ip p) req.target_path p
      → (node_publish_volume host sets d req w).1 ≡ done tt
  node_publish_volume-done d req cap ip p w complete free can =
      let key = node_lock_key req.volume_id req.target_path in
      let w' : World host sets = record w {
        volume_locks = (try_acquire sets w.volume_locks key).0;
      } in
      let inner = mount_unless_mounted host sets (mount_source ip p) req.target_path p w' in
      ap (λ r. r.1) (node_publish_volume_free d req cap ip p complete w free)
      ∙ (released_state key inner).1
      ∙ mount_unless_mounted_succeeds (mount_source ip p) req.target_path p w' can

  -- `NodeUnpublishVolume` succeeds for a request with a volume id and a target, if no call holds the
  -- lock and the host cleans the mount point up.
  pub node_unpublish_volume-done :
      (req : NodeUnpublishVolumeRequest) (w : World host sets)
      → is_empty req.volume_id ≡ false
      → is_empty req.target_path ≡ false
      → locked sets w.volume_locks (node_lock_key req.volume_id req.target_path) ≡ false
      → (host.cleanup_mount w.host_state req.target_path).1 ≡ true
      → (node_unpublish_volume host sets req w).1 ≡ done tt
  unfolding node_unpublish_volume call_host
  node_unpublish_volume-done req w volume target free cleaned =
      let key = node_lock_key req.volume_id req.target_path in
      let body = call_host host sets internal (λ h. host.cleanup_mount h req.target_path) in
      rw (volume, target, locking_free host sets key body w free, cleaned) refl
