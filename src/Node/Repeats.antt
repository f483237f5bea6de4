-- ===== src/Node/Repeats.antt =====
-- A `NodePublishVolume` of pkg/nfs/nodeserver.go that is sent again.
use google_cloud_platform_nf.Prelude.{◌≡◌, ◌∙◌, ap, refl, false, if◌then◌else◌}
use google_cloud_platform_nf.Text.{Bytes}
use google_cloud_platform_nf.Locks.{StringSet, IsStringSet, try_acquire, locked}
use google_cloud_platform_nf.Rpc.{
  done, VolumeCapability, NodePublishVolumeRequest, pure, continue, after_return,
}
use google_cloud_platform_nf.Driver.{Driver}
use google_cloud_platform_nf.Host.{
  Host, MountCheck, is_mounted, not_mounted, is_absent, check_failed,
}
use google_cloud_platform_nf.Node.Options.{collect_mount_options}
use google_cloud_platform_nf.Node.{
  World, PublishParams, mount_source, file_mode, node_lock_key, call_host, release_key,
}
use google_cloud_platform_nf.Node.Publish.{
  after_check, not_mount_point, mount_volume, mount_unless_mounted, node_publish_volume,
}
use google_cloud_platform_nf.Node.LockLaws.{node_publish_volume-RestoresLocks}
use google_cloud_platform_nf.Node.MountLaws.{checked_host}
use google_cloud_platform_nf.Node.Finish.{Finishes, Sticks, mount_volume_done, Finishes-mounted}
use google_cloud_platform_nf.Node.Progress.{
  IsMountable, IsComplete, node_publish_volume_free, released_state,
}

module _ (host : Host) (sets : StringSet) where
  after_check_mounts :
      (source t : Bytes) (p : PublishParams) (w : World host sets) (c : MountCheck)
      → host.is_likely_not_mount_point w.host_state t ≡ c
      → Sticks host t source (collect_mount_options p.mount_options)
      → IsMountable host sets w.host_state source t p
      → host.is_likely_not_mount_point
          (continue
            (after_check host sets t (file_mode p.mount_permissions) c w)
            (λ fresh. if fresh then mount_volume host sets source t p else pure tt)).0.host_state
          t
        ≡ is_mounted
  unfolding after_check call_host
  after_check_mounts source t p w is_mounted e sticks can = e
  after_check_mounts source t p w not_mounted e sticks can =
      let f : Finishes host t source p w.host_state = rw (e, checked_host) at can.finishes in
      rw (mount_volume_done host sets t source p w f)
        (Finishes-mounted host t source p w.host_state sticks f)
  after_check_mounts source t p w is_absent e sticks can =
      let v : World host sets = record w {
        host_state = (host.mkdir_all w.host_state t (file_mode p.mount_permissions)).0;
      } in
      let f : Finishes host t source p v.host_state = rw (e, checked_host) at can.finishes in
      rw (can.made, mount_volume_done host sets t source p v f)
        (Finishes-mounted host t source p v.host_state sticks f)
  after_check_mounts source t p w check_failed e sticks can = absurd (can.checked e)

  mount_unless_mounted_mounts :
      (source t : Bytes) (p : PublishParams) (w : World host sets)
      → Sticks host t source (collect_mount_options p.mount_options)
      → IsMountable host sets w.host_state source t p
      → host.is_likely_not_mount_point (mount_unless_mounted host sets source t p w).0.host_state t
        ≡ is_mounted
  mount_unless_mounted_mounts source t p w sticks can =
      unfold mount_unless_mounted not_mount_point in
      (after_check_mounts source t p w (host.is_likely_not_mount_point w.host_state t) refl sticks
        can)

  mount_unless_mounted_again :
      (source t : Bytes) (p : PublishParams) (w : World host sets)
      → host.is_likely_not_mount_point w.host_state t ≡ is_mounted
      → mount_unless_mounted host sets source t p w ≡ (w, done tt)
  unfolding mount_unless_mounted not_mount_point after_check
  mount_unless_mounted_again source t p w e = rw (mount_unless_mounted, not_mount_point, e) refl

module _ (host : Host) (sets : StringSet) (laws : IsStringSet sets) where
  -- A `NodePublishVolume` with a volume id, a target, a capability, the controller's address and
  -- parameters that name a share may be sent again: after the first call the second succeeds and
  -- changes nothing on the host. No call holds the lock, and the calls of the host for the first one
  -- succeed: the check of the target, its making, the mount, and the permissions and the read-ahead
  -- where they are asked for. A mount that succeeds makes the target a mount point, which a change of
  -- its mode and the commands of the shell leave one.
  pub node_publish_volume_twice :
      (d : Driver) (req : NodePublishVolumeRequest) (cap : VolumeCapability) (ip : Bytes)
      (p : PublishParams) (w : World host sets)
      → IsComplete host sets d req cap ip p
      → locked sets w.volume_locks (node_lock_key req.volume_id req.target_path) ≡ false
      → IsMountable host sets w.host_state (mount_source ip p) req.target_path p
      → Sticks host req.target_path (mount_source ip p) (collect_mount_options p.mount_options)
      → ((node_publish_volume host sets d req (node_publish_volume host sets d req w).0).1
          ≡ done tt)
        × ((node_publish_volume host sets d req
              (node_publish_volume host sets d req w).0).0.host_state
            ≡ (node_publish_volume host sets d req w).0.host_state)
  node_publish_volume_twice d req cap ip p w complete free can sticks =
      let key = node_lock_key req.volume_id req.target_path in
      let w' : World host sets = record w {
        volume_locks = (try_acquire sets w.volume_locks key).0;
      } in
      let v : World host sets = (node_publish_volume host sets d req w).0 in
      let first = node_publish_volume_free host sets d req cap ip p complete w free in
      let inner = mount_unless_mounted host sets (mount_source ip p) req.target_path p w' in
      let state : v.host_state ≡ inner.0.host_state =
        ap (λ r. r.0.host_state) first ∙ (released_state host sets key inner).0 in
      let mounted : host.is_likely_not_mount_point v.host_state req.target_path ≡ is_mounted =
        rw state (
          mount_unless_mounted_mounts host sets (mount_source ip p) req.target_path p w' sticks
            can) in
      let free' : locked sets v.volume_locks key ≡ false =
        node_publish_volume-RestoresLocks host sets laws d req w key ∙ free in
      let v' : World host sets = record v {
        volume_locks = (try_acquire sets v.volume_locks key).0;
      } in
      let second =
        node_publish_volume_free host sets d req cap ip p complete v free'
        ∙ ap (λ r. after_return (release_key host sets key) r)
            (mount_unless_mounted_again host sets (mount_source ip p) req.target_path p v'
              mounted) in
      (
        ap (λ r. r.1) second ∙ (released_state host sets key (v', done tt)).1,
        ap (λ r. r.0.host_state) second ∙ (released_state host sets key (v', done tt)).0,
      )
