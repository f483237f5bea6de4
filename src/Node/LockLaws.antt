-- ===== src/Node/LockLaws.antt =====
-- The handlers of pkg/nfs/nodeserver.go and the lock table.
use google_cloud_platform_nf.Prelude.{
  ◌≡◌, refl, Bool, true, false, Option, none, some, not, Bool-cases, inl, inr,
}
use google_cloud_platform_nf.Text.{Bytes, is_empty}
use google_cloud_platform_nf.Locks.{
  StringSet, IsStringSet, try_acquire, release, locked, release-try_acquire, try_acquire-locked,
}
use google_cloud_platform_nf.Rpc.{
  Code, invalid_argument, aborted, internal, Outcome, failed, ◌>>◌, require, after_return,
  VolumeCapability, NodePublishVolumeRequest, NodeUnpublishVolumeRequest,
}
use google_cloud_platform_nf.Driver.{Driver}
use google_cloud_platform_nf.Host.{Host}
use google_cloud_platform_nf.Node.{
  World, node_lock_key, Handler, call_host, acquire, release_key, locking,
}
use google_cloud_platform_nf.Node.Publish.{
  publish_locked, publish_for, node_publish_volume, node_unpublish_volume,
}
use google_cloud_platform_nf.Node.KeepsLocks.{
  KeepsLocks, call_host-KeepsLocks, publish_with-KeepsLocks,
}

module _ (host : Host) (sets : StringSet) where
  pub locking_taken :
      {A : Type 0} (key : Bytes) (body : Handler host sets A) (w : World host sets)
      → locked sets w.volume_locks key ≡ true
      → locking host sets key body w ≡ (w, failed aborted)
  unfolding locking acquire try_acquire
  locking_taken key body w e = rw (e, locking, acquire, try_acquire)

  pub locking_free :
      {A : Type 0} (key : Bytes) (body : Handler host sets A) (w : World host sets)
      → locked sets w.volume_locks key ≡ false
      → locking host sets key body w
        ≡ after_return
            (release_key host sets key)
            (body (record w { volume_locks = (try_acquire sets w.volume_locks key).0 }))
  unfolding locking acquire try_acquire
  locking_free key body w e = rw (e, locking, acquire, try_acquire)

module _ (host : Host) (sets : StringSet) (laws : IsStringSet sets) where
  -- Every key is locked after the handler exactly where it was locked before.
  abbrev RestoresLocks : {A : Type 0} → Handler host sets A → Type 0
  RestoresLocks m =
      (w : World host sets) (j : Bytes)
      → locked sets (m w).0.volume_locks j ≡ locked sets w.volume_locks j

  after_release :
      {A : Type 0} (key : Bytes) (r : World host sets × Outcome A)
      → (after_return (release_key host sets key) r).0.volume_locks
        ≡ release sets r.0.volume_locks key
  unfolding release_key
  after_release key (w, r) = refl

  acquired :
      (key : Bytes) (w : World host sets)
      → locked sets w.volume_locks key ≡ false
      → (try_acquire sets w.volume_locks key).1 ≡ true
  acquired key w free = rw ((try_acquire-locked sets laws w.volume_locks key key).0, free)

  -- A handler that takes its lock and whose body leaves the table alone restores the table.
  locking-RestoresLocks :
      {A : Type 0} (key : Bytes) (body : Handler host sets A)
      → KeepsLocks body
      → RestoresLocks (locking host sets key body)
  locking-RestoresLocks key body keeps w j = elim (Bool-cases (locked sets w.volume_locks key)) [
    | inl taken ↦ rw (locking_taken host sets key body w taken)
    | inr free ↦
        let w' : World host sets = record w {
          volume_locks = (try_acquire sets w.volume_locks key).0;
        } in
        rw (locking_free host sets key body w free, after_release key (body w'), keeps w')
          (release-try_acquire sets laws w.volume_locks key j (acquired key w free))
  ]

  publish_locked-KeepsLocks :
      (d : Driver) (req : NodePublishVolumeRequest) (cap : VolumeCapability)
      → KeepsLocks {host = host} {sets = sets} (publish_locked host sets d req cap)
  unfolding publish_locked
  publish_locked-KeepsLocks d req cap = publish_with-KeepsLocks req _

  require-RestoresLocks :
      {A : Type 0} (b : Bool) (c : Code) (m : Handler host sets A)
      → RestoresLocks m
      → RestoresLocks (require b c >> m)
  require-RestoresLocks true c m h = h
  require-RestoresLocks false c m h = λ w j. refl

  checked-RestoresLocks :
      {A : Type 0} (volume_id target_path : Bytes) (m : Handler host sets A)
      → RestoresLocks m
      → RestoresLocks (do
        require (not (is_empty volume_id)) invalid_argument
        require (not (is_empty target_path)) invalid_argument
        m)
  checked-RestoresLocks volume_id target_path m h =
      require-RestoresLocks (not (is_empty volume_id)) invalid_argument
        (require (not (is_empty target_path)) invalid_argument >> m)
        (require-RestoresLocks (not (is_empty target_path)) invalid_argument m h)

  publish_for-RestoresLocks :
      (d : Driver) (req : NodePublishVolumeRequest) (cap : Option VolumeCapability)
      → RestoresLocks (publish_for host sets d req cap)
  publish_for-RestoresLocks d req none = λ w j. unfold publish_for in refl
  publish_for-RestoresLocks d req (some cap) = λ w j.
      let locks =
        checked-RestoresLocks req.volume_id req.target_path
          (locking host sets (node_lock_key req.volume_id req.target_path)
            (publish_locked host sets d req cap))
          (locking-RestoresLocks (node_lock_key req.volume_id req.target_path)
            (publish_locked host sets d req cap) (publish_locked-KeepsLocks d req cap))
          w j in
      unfold publish_for in locks

  -- On every return of `NodePublishVolume`, errors included, each key is locked as it was before
  -- the call.
  pub node_publish_volume-RestoresLocks :
      (d : Driver) (req : NodePublishVolumeRequest)
      → RestoresLocks (node_publish_volume host sets d req)
  node_publish_volume-RestoresLocks d req w j =
      let locks = publish_for-RestoresLocks d req req.volume_capability w j in
      unfold node_publish_volume in locks

  -- On every return of `NodeUnpublishVolume`, errors included, each key is locked as it was before
  -- the call.
  pub node_unpublish_volume-RestoresLocks :
      (req : NodeUnpublishVolumeRequest) → RestoresLocks (node_unpublish_volume host sets req)
  node_unpublish_volume-RestoresLocks req w j =
      let clean = call_host host sets internal (λ h. host.cleanup_mount h req.target_path) in
      let locks =
        checked-RestoresLocks req.volume_id req.target_path
          (locking host sets (node_lock_key req.volume_id req.target_path) clean)
          (locking-RestoresLocks (node_lock_key req.volume_id req.target_path) clean
            (call_host-KeepsLocks internal (λ h. host.cleanup_mount h req.target_path)))
          w j in
      unfold node_unpublish_volume in locks
