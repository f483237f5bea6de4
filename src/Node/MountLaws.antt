-- ===== src/Node/MountLaws.antt =====
-- What a successful `NodePublishVolume` of pkg/nfs/nodeserver.go has done.
use google_cloud_platform_nf.Prelude.{
  ℕ, ◌≡◌, refl, List, [], Bool, true, false, Option, none, some, arith, if◌then◌else◌, not,
  Bool-cases, Option-cases, ◌⊎◌, inl, inr,
}
use google_cloud_platform_nf.Text.{Bytes, codes, is_empty}
use google_cloud_platform_nf.Maps.{lookup}
use google_cloud_platform_nf.Cluster.{node_annotation}
use google_cloud_platform_nf.Locks.{StringSet, try_acquire, locked}
use google_cloud_platform_nf.Rpc.{
  invalid_argument, Outcome, done, failed, panicked, continue, ◌>>◌, pure, require, after_return,
  VolumeCapability, NodePublishVolumeRequest,
}
use google_cloud_platform_nf.Driver.{Driver}
use google_cloud_platform_nf.Host.{
  Host, MountCheck, is_mounted, not_mounted, is_absent, check_failed,
}
use google_cloud_platform_nf.Node.Options.{collect_mount_options}
use google_cloud_platform_nf.Node.{
  call_host, World, PublishParams, publish_params, mount_source, file_mode, node_lock_key, Handler,
  release_key, locking,
}
use google_cloud_platform_nf.Node.Publish.{
  request_options, after_check, not_mount_point, mount, mount_volume, mount_unless_mounted,
  publish_with, publish_locked, publish_for, node_publish_volume,
}
use google_cloud_platform_nf.Node.LockLaws.{locking_taken, locking_free}

module _ (host : Host) (sets : StringSet) where
  -- The host behind `IsLikelyNotMountPoint` and, for an absent target, `MkdirAll`.
  abbrev pub checked_host : host.State → Bytes → ℕ → host.State
  checked_host h target_path mode = elim (host.is_likely_not_mount_point h target_path) [
    | is_absent ↦ (host.mkdir_all h target_path mode).0
    | _ ↦ h
  ]

  -- The target is a mount point already, or `Mount` of the source with the filtered options
  -- returned no error.
  abbrev IsMounted : host.State → Bytes → Bytes → PublishParams → Type 0
  IsMounted h source target_path p =
      (host.is_likely_not_mount_point h target_path ≡ is_mounted)
      ⊎ ((host.mount (checked_host h target_path (file_mode p.mount_permissions)) source target_path
            (codes "nfs") (collect_mount_options p.mount_options)).1
          ≡ none)

  continue_done :
      {A B : Type 0} (r : World host sets × Outcome A) (f : A → Handler host sets B) (b : B)
      → (continue r f).1 ≡ done b
      → (a : A) × (r.1 ≡ done a)
  continue_done (w, done a) f b h = (a, refl)
  continue_done (w, failed c) f b h = absurd (cc)
  continue_done (w, panicked) f b h = absurd (cc)

  mount_done :
      (source t : Bytes) (options : List Bytes) (w : World host sets) (u : Unit {0})
      → (mount host sets source t options w).1 ≡ done u
      → (host.mount w.host_state source t (codes "nfs") options).1 ≡ none
  unfolding mount
  mount_done source t options w u h = ground arith

  mount_volume_done :
      (source t : Bytes) (p : PublishParams) (w : World host sets) (u : Unit {0})
      → (mount_volume host sets source t p w).1 ≡ done u
      → (host.mount w.host_state source t (codes "nfs") (collect_mount_options p.mount_options)).1
        ≡ none
  unfolding mount_volume
  mount_volume_done source t p w u h =
      let (v, e) =
        continue_done (mount host sets source t (collect_mount_options p.mount_options) w) _ u h in
      mount_done source t (collect_mount_options p.mount_options) w v e

  after_check_done :
      (source t : Bytes) (p : PublishParams) (w : World host sets) (c : MountCheck)
      → host.is_likely_not_mount_point w.host_state t ≡ c
      → (continue
          (after_check host sets t (file_mode p.mount_permissions) c w)
          (λ fresh. if fresh then mount_volume host sets source t p else pure tt)).1
        ≡ done tt
      → IsMounted w.host_state source t p
  unfolding after_check call_host
  after_check_done source t p w is_mounted e h = inl e
  after_check_done source t p w not_mounted e h =
      inr (rw (e, checked_host) (mount_volume_done source t p w tt h))
  after_check_done source t p w is_absent e h =
      elim (Bool-cases (host.mkdir_all w.host_state t (file_mode p.mount_permissions)).1) [
        | inl made ↦ inr (
            rw (e, checked_host)
              (mount_volume_done source t p
                (record w {
                  host_state = (host.mkdir_all w.host_state t (file_mode p.mount_permissions)).0;
                })
                tt (rw made at h)))
        | inr broken ↦ absurd (let bad = rw broken at h in cc)
      ]
  after_check_done source t p w check_failed e h = absurd (cc)

  publish_unless_done :
      (source t : Bytes) (p : PublishParams) (w : World host sets)
      → (mount_unless_mounted host sets source t p w).1 ≡ done tt
      → IsMounted w.host_state source t p
  publish_unless_done source t p w h =
      after_check_done source t p w (host.is_likely_not_mount_point w.host_state t) refl
        (unfold mount_unless_mounted not_mount_point in h)

module _ (host : Host) (sets : StringSet) (d : Driver) (req : NodePublishVolumeRequest) where
  -- The parameters with which the loop over the volume context starts.
  abbrev pub start_params : VolumeCapability → PublishParams
  start_params cap = record {
    base_dir = [];
    sub_dir = [];
    sub_dir_replace_map = [];
    mount_options = request_options cap req.readonly;
    mount_permissions = d.mount_permissions;
  }

  -- What a successful publish rests on.
  pub record IsPublished (h : host.State) : Type 0 where
    pub cap : VolumeCapability
    pub ip : Bytes
    pub params : PublishParams
    pub given : req.volume_capability ≡ some cap
    pub assigned : lookup node_annotation req.publish_context ≡ some ip
    pub parsed : publish_params req.volume_context (some (start_params cap)) ≡ some params
    pub shared : is_empty params.base_dir ≡ false
    pub mounted : IsMounted host sets h (mount_source ip params) req.target_path params

  -- What the part under the lock shows, at the capability that the request gave.
  with_done :
      (cap : VolumeCapability) (w : World host sets) (p : Option PublishParams)
      → req.volume_capability ≡ some cap
      → publish_params req.volume_context (some (start_params cap)) ≡ p
      → (publish_with host sets req p w).1 ≡ done tt
      → IsPublished w.host_state
  unfolding publish_with
  with_done cap w none g e h = absurd (cc)
  with_done cap w (some p) g e h = elim (Bool-cases (is_empty p.base_dir)) [
    | inl no_share ↦ absurd (let bad = rw (no_share, publish_with) at h in cc)
    | inr share ↦ elim (Option-cases (lookup node_annotation req.publish_context)) [
      | inl no_ip ↦ absurd (let bad = rw (share, no_ip, publish_with) at h in cc)
      | inr (ip, found) ↦ record {
        cap = cap;
        ip = ip;
        params = p;
        given = g;
        assigned = found;
        parsed = e;
        shared = share;
        mounted =
            publish_unless_done host sets (mount_source ip p) req.target_path p w
              (rw (share, found, publish_with) at h);
      }
    ]
  ]

  after_return_done :
      (key : Bytes) (r : World host sets × Outcome (Unit {0}))
      → (after_return (release_key host sets key) r).1 ≡ done tt
      → r.1 ≡ done tt
  after_return_done key (w, r) h = h

  require_done :
      (b : Bool) (m : Handler host sets (Unit {0})) (w : World host sets)
      → ((require b invalid_argument >> m) w).1 ≡ done tt
      → (m w).1 ≡ done tt
  require_done true m w h = h
  require_done false m w h = absurd (cc)

  locking_done :
      (key : Bytes) (body : Handler host sets (Unit {0})) (w : World host sets)
      → ((v : World host sets) → (body v).1 ≡ done tt → IsPublished v.host_state)
      → (locking host sets key body w).1 ≡ done tt
      → IsPublished w.host_state
  locking_done key body w shows h = elim (Bool-cases (locked sets w.volume_locks key)) [
    | inl taken ↦ absurd (let bad = rw (locking_taken host sets key body w taken) at h in cc)
    | inr free ↦
        let w' : World host sets = record w {
          volume_locks = (try_acquire sets w.volume_locks key).0;
        } in
        shows w'
          (after_return_done key (body w') (rw (locking_free host sets key body w free) at h))
  ]

  for_done :
      (c : Option VolumeCapability) (w : World host sets)
      → req.volume_capability ≡ c
      → (publish_for host sets d req c w).1 ≡ done tt
      → IsPublished w.host_state
  for_done none w g h = absurd (
      let bad : ◌≡◌ {A = Outcome (Unit {0})} (failed invalid_argument) (done tt) =
        unfold publish_for in h in
      cc)
  for_done (some cap) w g h =
      let key = node_lock_key req.volume_id req.target_path in
      let body = publish_locked host sets d req cap in
      let inner =
        require_done (not (is_empty req.volume_id))
          (require (not (is_empty req.target_path)) invalid_argument >> locking host sets key body)
          w (unfold publish_for in h) in
      let locked_part =
        require_done (not (is_empty req.target_path)) (locking host sets key body) w inner in
      locking_done key body w (λ v e. with_done cap v _ g refl (unfold publish_locked in e))
        locked_part

  -- A successful `NodePublishVolume` had a capability, the controller's address and a share. Its
  -- target was a mount point before, or the mount command was given the controller's address and the
  -- share as its source, and the options without the read-ahead flag, and returned no error.
  pub node_publish_volume-IsPublished :
      (w : World host sets)
      → (node_publish_volume host sets d req w).1 ≡ done tt
      → IsPublished w.host_state
  unfolding node_publish_volume
  node_publish_volume-IsPublished w h = for_done req.volume_capability w refl h
