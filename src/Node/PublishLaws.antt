-- ===== src/Node/PublishLaws.antt =====
-- What `NodePublishVolume` of pkg/nfs/nodeserver.go does with the publish context and the mount.
use google_cloud_platform_nf.Prelude.{
  ◌≡◌, refl, Bool, true, false, Option, none, some, not, Bool-cases, ◌⊎◌, inl, inr,
}
use google_cloud_platform_nf.Text.{Bytes, is_empty}
use google_cloud_platform_nf.Maps.{lookup}
use google_cloud_platform_nf.Cluster.{node_annotation}
use google_cloud_platform_nf.Locks.{StringSet, try_acquire, locked}
use google_cloud_platform_nf.Rpc.{
  invalid_argument, aborted, Outcome, failed, ◌>>◌, require, after_return, VolumeCapability,
  NodePublishVolumeRequest,
}
use google_cloud_platform_nf.Driver.{Driver}
use google_cloud_platform_nf.Host.{Host}
use google_cloud_platform_nf.Node.{
  World, PublishParams, node_lock_key, Handler, release_key, locking,
}
use google_cloud_platform_nf.Node.Publish.{
  publish_with, publish_locked, publish_for, node_publish_volume,
}
use google_cloud_platform_nf.Node.LockLaws.{locking_taken, locking_free}

module _ (host : Host) (sets : StringSet) where
  -- The host is left alone, and the answer is one of two errors.
  pub record IsRefused {A : Type 0} (w : World host sets) (r : World host sets × Outcome A)
      : Type 0 where
    pub untouched : r.0.host_state ≡ w.host_state
    pub answer : (r.1 ≡ failed invalid_argument) ⊎ (r.1 ≡ failed aborted)

  abbrev Refuses : {A : Type 0} → Handler host sets A → Type 0
  Refuses m = (w : World host sets) → IsRefused w (m w)

  fail-Refuses :
      {A : Type 0} (w : World host sets) → IsRefused {A = A} w (w, failed invalid_argument)
  fail-Refuses w = record { untouched = refl; answer = inl refl }

  require-Refuses :
      {A : Type 0} (b : Bool) (m : Handler host sets A)
      → Refuses m
      → Refuses (require b invalid_argument >> m)
  require-Refuses true m h = h
  require-Refuses false m h = fail-Refuses

  after_return-IsRefused :
      {A : Type 0} (key : Bytes) (w : World host sets) (r : World host sets × Outcome A)
      → IsRefused w r
      → IsRefused w (after_return (release_key host sets key) r)
  unfolding release_key
  after_return-IsRefused key w (w', r) v = record { untouched = v.untouched; answer = v.answer }

  locking-Refuses :
      {A : Type 0} (key : Bytes) (body : Handler host sets A)
      → Refuses body
      → Refuses (locking host sets key body)
  locking-Refuses key body h w = elim (Bool-cases (locked sets w.volume_locks key)) [
    | inl taken ↦
        rw (locking_taken host sets key body w taken)
          (record { untouched = refl; answer = inr refl })
    | inr free ↦
        let w' : World host sets = record w {
          volume_locks = (try_acquire sets w.volume_locks key).0;
        } in
        rw (locking_free host sets key body w free) (
          after_return-IsRefused key w (body w')
            (record { untouched = (h w').untouched; answer = (h w').answer }))
  ]

  publish_with-Refuses :
      (req : NodePublishVolumeRequest) (p : Option PublishParams)
      → lookup node_annotation req.publish_context ≡ none
      → Refuses (publish_with host sets req p)
  unfolding publish_with
  publish_with-Refuses req none e = fail-Refuses
  publish_with-Refuses req (some p) e = λ w. elim (Bool-cases (is_empty p.base_dir)) [
    | inl f ↦ rw (f, publish_with) (fail-Refuses w)
    | inr f ↦ rw (f, e, publish_with) (fail-Refuses w)
  ]

  publish_for-Refuses :
      (d : Driver) (req : NodePublishVolumeRequest) (cap : Option VolumeCapability)
      → lookup node_annotation req.publish_context ≡ none
      → Refuses (publish_for host sets d req cap)
  publish_for-Refuses d req none e = λ w. unfold publish_for in (fail-Refuses w)
  publish_for-Refuses d req (some cap) e = λ w.
      let body : Refuses (publish_locked host sets d req cap) =
        λ v. unfold publish_locked in (publish_with-Refuses req _ e v) in
      let key = node_lock_key req.volume_id req.target_path in
      let refused =
        require-Refuses (not (is_empty req.volume_id))
          (require (not (is_empty req.target_path)) invalid_argument
            >> locking host sets key (publish_locked host sets d req cap))
          (require-Refuses (not (is_empty req.target_path))
            (locking host sets key (publish_locked host sets d req cap))
            (locking-Refuses key (publish_locked host sets d req cap) body))
          w in
      unfold publish_for in refused

  -- Without the controller's address in its publish context, `NodePublishVolume` calls nothing that
  -- changes the host and answers `InvalidArgument` or, where its lock is taken, `Aborted`.
  pub node_publish_volume-IsRefused :
      (d : Driver) (req : NodePublishVolumeRequest) (w : World host sets)
      → lookup node_annotation req.publish_context ≡ none
      → IsRefused w (node_publish_volume host sets d req w)
  unfolding node_publish_volume
  node_publish_volume-IsRefused d req w e = publish_for-Refuses d req req.volume_capability e w
