-- ===== src/Node/KeepsLocks.antt =====
-- The parts of the handlers of pkg/nfs/nodeserver.go that run between `TryAcquire` and `Release`, and
-- the lock table.
use google_cloud_platform_nf.Prelude.{
  ℕ, ◌≡◌, refl, List, Bool, true, false, Option, none, some, arith, if◌then◌else◌, ◌∙◌, Bool-cases,
  Option-cases, inl, inr,
}
use google_cloud_platform_nf.Text.{Bytes, is_empty}
use google_cloud_platform_nf.Maps.{lookup}
use google_cloud_platform_nf.Cluster.{node_annotation}
use google_cloud_platform_nf.Locks.{StringSet}
use google_cloud_platform_nf.Rpc.{
  Code, Outcome, done, failed, panicked, continue, ◌>>=◌, require, NodePublishVolumeRequest,
}
use google_cloud_platform_nf.Host.{
  Host, MountCheck, is_mounted, not_mounted, is_absent, check_failed,
}
use google_cloud_platform_nf.Node.Options.{ReadAhead, no_flag, bad_flag, read_ahead_kb}
use google_cloud_platform_nf.Node.{World, PublishParams, mount_source, Handler, call_host}
use google_cloud_platform_nf.Node.Publish.{
  chmod_if_permission_mismatch, shell, device_of, update_read_ahead, apply_read_ahead, after_check,
  not_mount_point, mount, mount_volume, mount_unless_mounted, publish_with,
}

module _ {host : Host} {sets : StringSet} where
  -- A part of a handler that does not touch the lock table.
  abbrev pub KeepsLocks : {A : Type 0} → Handler host sets A → Type 0
  KeepsLocks m = (w : World host sets) → (m w).0.volume_locks ≡ w.volume_locks

  continue-keeps :
      {A B : Type 0} (r : World host sets × Outcome A) (f : A → Handler host sets B)
      → ((a : A) → KeepsLocks (f a))
      → (continue r f).0.volume_locks ≡ r.0.volume_locks
  continue-keeps (w, done a) f h = h a w
  continue-keeps (w, failed c) f h = refl
  continue-keeps (w, panicked) f h = refl

  bind-KeepsLocks :
      {A B : Type 0} (m : Handler host sets A) (f : A → Handler host sets B)
      → KeepsLocks m
      → ((a : A) → KeepsLocks (f a))
      → KeepsLocks (m >>= f)
  bind-KeepsLocks m f hm hf w = continue-keeps (m w) f hf ∙ hm w

  if-KeepsLocks :
      {A : Type 0} (b : Bool) (m k : Handler host sets A)
      → KeepsLocks m
      → KeepsLocks k
      → KeepsLocks (if b then m else k)
  if-KeepsLocks true m k hm hk = hm
  if-KeepsLocks false m k hm hk = hk

  require-KeepsLocks : (b : Bool) (c : Code) → KeepsLocks (require b c)
  require-KeepsLocks true c w = refl
  require-KeepsLocks false c w = refl

  pub call_host-KeepsLocks :
      (c : Code) (op : host.State → host.State × Bool) → KeepsLocks (call_host host sets c op)
  unfolding call_host
  call_host-KeepsLocks c op w = refl

  chmod-KeepsLocks :
      (t : Bytes) (mode : ℕ) → KeepsLocks (chmod_if_permission_mismatch host sets t mode)
  unfolding chmod_if_permission_mismatch
  chmod-KeepsLocks t mode w = ground arith

  shell-KeepsLocks : (command : Bytes) → KeepsLocks (shell host sets command)
  unfolding shell
  shell-KeepsLocks command w = refl

  device_of-KeepsLocks : (t : Bytes) → KeepsLocks (device_of host sets t)
  unfolding device_of
  device_of-KeepsLocks t w = ground arith

  mount-KeepsLocks :
      (source t : Bytes) (options : List Bytes) → KeepsLocks (mount host sets source t options)
  unfolding mount
  mount-KeepsLocks source t options w = refl

  after_check-KeepsLocks :
      (t : Bytes) (mode : ℕ) (c : MountCheck) → KeepsLocks (after_check host sets t mode c)
  unfolding after_check
  after_check-KeepsLocks t mode is_mounted w = refl
  after_check-KeepsLocks t mode not_mounted w = refl
  after_check-KeepsLocks t mode is_absent w = ground arith
  after_check-KeepsLocks t mode check_failed w = refl

  read_ahead-KeepsLocks : (t : Bytes) (kb : ℕ) → KeepsLocks (update_read_ahead host sets t kb)
  unfolding update_read_ahead shell device_of
  read_ahead-KeepsLocks t kb w = ground arith

  apply-KeepsLocks : (t : Bytes) (r : ReadAhead) → KeepsLocks (apply_read_ahead host sets t r)
  unfolding apply_read_ahead
  apply-KeepsLocks t no_flag = λ w. refl
  apply-KeepsLocks t bad_flag = λ w. refl
  apply-KeepsLocks t (read_ahead_kb kb) = read_ahead-KeepsLocks t kb

  mount_volume-KeepsLocks :
      (source t : Bytes) (p : PublishParams) → KeepsLocks (mount_volume host sets source t p)
  unfolding mount_volume
  mount_volume-KeepsLocks source t p w = ground arith

  unless_mounted-KeepsLocks :
      (source t : Bytes) (p : PublishParams)
      → KeepsLocks (mount_unless_mounted host sets source t p)
  unfolding mount_unless_mounted not_mount_point
  unless_mounted-KeepsLocks source t p =
      bind-KeepsLocks _ _ (λ w. after_check-KeepsLocks t _ _ w)
        λ fresh. if-KeepsLocks fresh _ _ (mount_volume-KeepsLocks source t p) (λ w. refl)

  pub publish_with-KeepsLocks :
      (req : NodePublishVolumeRequest) (p : Option PublishParams)
      → KeepsLocks (publish_with host sets req p)
  unfolding publish_with
  publish_with-KeepsLocks req none = λ w. refl
  publish_with-KeepsLocks req (some p) = λ w. elim (Bool-cases (is_empty p.base_dir)) [
    | inl e ↦ rw (e, publish_with)
    | inr e ↦ elim (Option-cases (lookup node_annotation req.publish_context)) [
      | inl f ↦ rw (e, f, publish_with)
      | inr (ip, f) ↦
          rw (e, f, publish_with)
            (unless_mounted-KeepsLocks (mount_source ip p) req.target_path p w)
    ]
  ]
