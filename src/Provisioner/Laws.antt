-- ===== src/Provisioner/Laws.antt =====
-- What the provisioning calls of pkg/nfs/controllerserver.go amount to: `internalMount` sends no
-- publish context, and `NodePublishVolume` refuses every request without the controller's address,
-- or panics on a nil node server.
use google_cloud_platform_nf.Prelude.{
  ℕ, ◌≡◌, refl, [], Bool, true, false, not, arith, Option, none, some, ◌⊎◌, inl, inr, if◌then◌else◌,
}
use google_cloud_platform_nf.Text.{Bytes, is_empty}
use google_cloud_platform_nf.Maps.{Map, lookup}
use google_cloud_platform_nf.Cluster.{node_annotation}
use google_cloud_platform_nf.Locks.{StringSet}
use google_cloud_platform_nf.Rpc.{
  Code, invalid_argument, aborted, not_found, internal, NodePublishVolumeRequest, VolumeCapability,
  ◌>>◌, require, done, failed, panicked, Outcome, continue, recoded,
}
use google_cloud_platform_nf.Driver.{Driver}
use google_cloud_platform_nf.Host.{Host}
use google_cloud_platform_nf.Node.{World, Handler}
use google_cloud_platform_nf.Node.Publish.{node_publish_volume}
use google_cloud_platform_nf.Node.PublishLaws.{IsRefused, node_publish_volume-IsRefused}
use google_cloud_platform_nf.Volumes.{
  NfsVolume, NfsSnapshot, get_nfs_vol_from_id, volume_from_snapshot,
}
use google_cloud_platform_nf.Volumes.Params.{new_nfs_volume, new_nfs_snapshot}
use google_cloud_platform_nf.Provisioner.{
  is_valid_volume_capabilities, first_capability, internal_mount_request, internal_mount,
  publish_on_nil, deref_nil, while_mounted,
}
use google_cloud_platform_nf.Provisioner.Volume.{
  CreateVolumeRequest, validate_params, make_volume, create_from, create_volume,
}
use google_cloud_platform_nf.Provisioner.Snapshot.{
  CreateSnapshotRequest, snapshot_source_of, snapshot_volume, create_snapshot,
}

module _ (host : Host) (sets : StringSet) (d : Driver) where
  no_address :
      (vol : NfsVolume) (context : Map Bytes) (cap : Option VolumeCapability)
      → lookup node_annotation (internal_mount_request host sets d vol context cap).publish_context
        ≡ none
  unfolding internal_mount_request lookup
  no_address vol context c = refl

  -- `NodePublishVolume` of a nil node server refuses a request or panics; the host is left alone.
  publish_on_nil-cases :
      (req : NodePublishVolumeRequest) (w : World host sets)
      → (publish_on_nil host sets d req w ≡ (w, failed invalid_argument))
        ⊎ (publish_on_nil host sets d req w ≡ (w, panicked))
  unfolding publish_on_nil deref_nil
  publish_on_nil-cases req w = ground arith

  -- The host is left alone, and there is an error under one of the codes, or a panic where the
  -- process has no node server.
  pub record FailsBy {A : Type 0} (allowed : Code → Type 0) (w : World host sets)
      (r : World host sets × Outcome A) : Type 0 where
    pub untouched : r.0.host_state ≡ w.host_state
    pub answer :
        ((c : Code) × allowed c × (r.1 ≡ failed c))
        ⊎ ((r.1 ≡ panicked) × (d.run_node_server ≡ false))

  abbrev AnyCode : Code → Type 0
  AnyCode c = Unit {0}

  abbrev OnlyInternal : Code → Type 0
  OnlyInternal c = c ≡ internal

  IsRefused-FailsBy :
      {A : Type 0} (w : World host sets) (r : World host sets × Outcome A)
      → IsRefused host sets w r
      → FailsBy AnyCode w r
  IsRefused-FailsBy w r v = record {
    untouched = v.untouched;
    answer = elim v.answer [ inl e ↦ inl (invalid_argument, tt, e) | inr e ↦ inl (aborted, tt, e) ];
  }

  mount_on-FailsBy :
      (b : Bool) (req : NodePublishVolumeRequest) (w : World host sets)
      → d.run_node_server ≡ b
      → lookup node_annotation req.publish_context ≡ none
      → FailsBy AnyCode w
          ((if b then node_publish_volume host sets d req else publish_on_nil host sets d req) w)
  mount_on-FailsBy true req w here bare =
      IsRefused-FailsBy w (node_publish_volume host sets d req w)
        (node_publish_volume-IsRefused host sets d req w bare)
  mount_on-FailsBy false req w gone bare = elim (publish_on_nil-cases req w) [
    | inl e ↦ rw e (record { untouched = refl; answer = inl (invalid_argument, tt, refl) })
    | inr e ↦ rw e (record { untouched = refl; answer = inr (refl, gone) })
  ]

  -- The internal mount of a volume never succeeds.
  internal_mount-FailsBy :
      (vol : NfsVolume) (context : Map Bytes) (cap : Option VolumeCapability) (w : World host sets)
      → FailsBy AnyCode w (internal_mount host sets d vol context cap w)
  unfolding internal_mount
  internal_mount-FailsBy vol context c w =
      mount_on-FailsBy d.run_node_server (internal_mount_request host sets d vol context c) w refl
        (no_address vol context c)

  recoded-FailsBy :
      {A B : Type 0} (w : World host sets) (r : World host sets × Outcome A)
      (f : A → Handler host sets B)
      → FailsBy AnyCode w r
      → FailsBy OnlyInternal w (continue (recoded internal r) f)
  recoded-FailsBy w (v, done a) f h = absurd (ground (arith, h.answer))
  recoded-FailsBy w (v, panicked) f h = elim h.answer [
    | inl (c, u, e) ↦ absurd (cc)
    | inr (e, gone) ↦ record { untouched = h.untouched; answer = inr (refl, gone) }
  ]
  recoded-FailsBy w (v, failed c) f h = record {
    untouched = h.untouched;
    answer = inl (internal, refl, refl);
  }

  -- A body that needs a share mounted is never run: the call fails with `Internal`, or panics.
  pub while_mounted-FailsBy :
      {A : Type 0} (vol : NfsVolume) (context : Map Bytes) (cap : Option VolumeCapability)
      (body : Handler host sets A) (w : World host sets)
      → FailsBy OnlyInternal w (while_mounted host sets d vol context cap body w)
  unfolding while_mounted
  while_mounted-FailsBy vol context c body w =
      recoded-FailsBy w (internal_mount host sets d vol context c w) _
        (internal_mount-FailsBy vol context c w)

  -- The host is left alone, and the answer is an error, or a panic where the process has no node
  -- server.
  pub record Fails {A : Type 0} (w : World host sets) (r : World host sets × Outcome A)
      : Type 0 where
    pub untouched : r.0.host_state ≡ w.host_state
    pub answer : ((c : Code) × (r.1 ≡ failed c)) ⊎ ((r.1 ≡ panicked) × (d.run_node_server ≡ false))

  pub FailsBy-Fails :
      {A : Type 0} {allowed : Code → Type 0} (w : World host sets) (r : World host sets × Outcome A)
      → FailsBy allowed w r
      → Fails w r
  FailsBy-Fails w r v = record {
    untouched = v.untouched;
    answer = elim v.answer [ inl (c, u, e) ↦ inl (c, e) | inr e ↦ inr e ];
  }

  failed-Fails : {A : Type 0} (c : Code) (w : World host sets) → Fails {A = A} w (w, failed c)
  failed-Fails c w = record { untouched = refl; answer = inl (c, refl) }

  require-Fails :
      {A : Type 0} (b : Bool) (c : Code) (m : Handler host sets A) (w : World host sets)
      → Fails w (m w)
      → Fails w ((require b c >> m) w)
  require-Fails true c m w h = h
  require-Fails false c m w h = failed-Fails c w

  create_from-Fails :
      (req : CreateVolumeRequest) (permissions : Option ℕ) (vol : Option NfsVolume)
      (w : World host sets)
      → Fails w (create_from host sets d req permissions vol w)
  unfolding create_from
  create_from-Fails req none vol w = failed-Fails invalid_argument w
  create_from-Fails req (some permissions) none w = failed-Fails invalid_argument w
  create_from-Fails req (some permissions) (some vol) w = FailsBy-Fails w _ (
      while_mounted-FailsBy vol req.parameters (first_capability req.volume_capabilities)
        (make_volume host sets d req permissions vol) w)

  -- `CreateVolume` makes nothing on the host for any request: it fails, or panics where the process
  -- has no node server.
  pub create_volume-Fails :
      (req : CreateVolumeRequest) (w : World host sets) → Fails w (create_volume host sets d req w)
  unfolding create_volume
  create_volume-Fails req w =
      let inner =
        create_from-Fails req (validate_params req.parameters (some d.mount_permissions))
          (new_nfs_volume req.name req.required_bytes req.parameters d.default_on_delete_policy)
          w in
      require-Fails (not (is_empty req.name)) invalid_argument _ w (
        require-Fails (is_valid_volume_capabilities req.volume_capabilities) invalid_argument _ w
          inner)

  snapshot_source_of-Fails :
      (vol : NfsVolume) (snap : Option NfsSnapshot) (w : World host sets)
      → Fails w (snapshot_source_of host sets d vol snap w)
  unfolding snapshot_source_of
  snapshot_source_of-Fails vol none w = failed-Fails not_found w
  snapshot_source_of-Fails vol (some snap) w =
      FailsBy-Fails w _ (while_mounted-FailsBy (volume_from_snapshot snap) [] none _ w)

  snapshot_volume-Fails :
      (req : CreateSnapshotRequest) (vol : Option NfsVolume) (w : World host sets)
      → Fails w (snapshot_volume host sets d req vol w)
  unfolding snapshot_volume
  snapshot_volume-Fails req none w = failed-Fails not_found w
  snapshot_volume-Fails req (some vol) w =
      snapshot_source_of-Fails vol (new_nfs_snapshot req.name req.parameters vol) w

  -- `CreateSnapshot` makes nothing on the host for any request: it fails, or panics where the process
  -- has no node server.
  pub create_snapshot-Fails :
      (req : CreateSnapshotRequest) (w : World host sets)
      → Fails w (create_snapshot host sets d req w)
  unfolding create_snapshot
  create_snapshot-Fails req w = require-Fails (not (is_empty req.name)) invalid_argument _ w (
      require-Fails (not (is_empty req.source_volume_id)) invalid_argument _ w
        (snapshot_volume-Fails req (get_nfs_vol_from_id req.source_volume_id) w))
