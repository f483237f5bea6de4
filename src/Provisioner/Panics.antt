-- ===== src/Provisioner/Panics.antt =====
-- `CreateVolume` of pkg/nfs/controllerserver.go in a process without `--run-node-server`.
use google_cloud_platform_nf.Prelude.{
  ℕ, ◌≡◌, refl, ap, ◌∙◌, Bool, true, false, not, Option, some, if◌then◌else◌,
}
use google_cloud_platform_nf.Text.{is_empty}
use google_cloud_platform_nf.Maps.{Map}
use google_cloud_platform_nf.Text.{Bytes}
use google_cloud_platform_nf.Locks.{StringSet}
use google_cloud_platform_nf.Rpc.{
  internal, VolumeCapability, panicked, continue, recoded, invalid_argument, require, ◌>>◌,
  deferring, NodePublishVolumeRequest,
}
use google_cloud_platform_nf.Driver.{Driver}
use google_cloud_platform_nf.Host.{Host}
use google_cloud_platform_nf.Node.{World, Handler}
use google_cloud_platform_nf.Volumes.{NfsVolume, get_internal_mount_path}
use google_cloud_platform_nf.Volumes.Params.{new_nfs_volume}
use google_cloud_platform_nf.Volumes.Params.Created.{
  is_empty-id, get_internal_mount_path-new_nfs_volume,
}
use google_cloud_platform_nf.Text.FilePath.{is_empty-join_paths}
use google_cloud_platform_nf.Node.Publish.{node_publish_volume}
use google_cloud_platform_nf.Provisioner.{
  is_valid_volume_capabilities, internal_mount_request, internal_mount, internal_unmount,
  while_mounted, publish_on_nil, deref_nil, first_capability,
}
use google_cloud_platform_nf.Provisioner.Volume.{
  CreateVolumeRequest, validate_params, make_volume, create_from, create_volume,
}

module _ (host : Host) (sets : StringSet) (d : Driver) where
  require_passes :
      {A : Type 0} (b : Bool) (m : Handler host sets A) (w : World host sets)
      → b ≡ false
      → (require (not b) invalid_argument >> m) w ≡ m w
  require_passes true m w e = absurd (cc)
  require_passes false m w e = refl

  mount_on_nil :
      (b : Bool) (req : NodePublishVolumeRequest) (w : World host sets)
      → b ≡ false
      → publish_on_nil host sets d req w ≡ (w, panicked)
      → (if b then node_publish_volume host sets d req else publish_on_nil host sets d req) w
        ≡ (w, panicked)
  mount_on_nil b req w gone e = rw gone e

  publish_on_nil_panics :
      (vol : NfsVolume) (context : Map Bytes) (cap : Option VolumeCapability) (w : World host sets)
      → is_empty vol.id ≡ false
      → is_empty (get_internal_mount_path d.working_mount_dir vol) ≡ false
      → publish_on_nil host sets d (internal_mount_request host sets d vol context cap) w
        ≡ (w, panicked)
  unfolding publish_on_nil internal_mount_request deref_nil
  publish_on_nil_panics vol context c w named placed =
      let target = is_empty (get_internal_mount_path d.working_mount_dir vol) in
      let last = require (not target) invalid_argument >> deref_nil host sets d in
      require_passes (is_empty vol.id) last w named
      ∙ require_passes target (deref_nil host sets d) w placed

  while_mounted_panics :
      {A : Type 0} (vol : NfsVolume) (context : Map Bytes) (cap : Option VolumeCapability)
      (body : Handler host sets A) (w : World host sets)
      → d.run_node_server ≡ false
      → is_empty vol.id ≡ false
      → is_empty (get_internal_mount_path d.working_mount_dir vol) ≡ false
      → while_mounted host sets d vol context cap body w ≡ (w, panicked)
  unfolding while_mounted internal_mount
  while_mounted_panics vol context c body w gone named placed =
      ap
        (λ r.
          continue (recoded internal r) (λ u. deferring (internal_unmount host sets d vol) body))
        (mount_on_nil d.run_node_server (internal_mount_request host sets d vol context c) w gone
          (publish_on_nil_panics vol context c w named placed))

  -- In a process without a node server `CreateVolume` panics for every request that it takes for a
  -- valid one: with a name, at least one capability and none of a block device, and parameters that it
  -- can read and that make a volume.
  pub create_volume_panics :
      (req : CreateVolumeRequest) (permissions : ℕ) (vol : NfsVolume) (w : World host sets)
      → d.run_node_server ≡ false
      → is_empty req.name ≡ false
      → is_valid_volume_capabilities req.volume_capabilities ≡ true
      → validate_params req.parameters (some d.mount_permissions) ≡ some permissions
      → new_nfs_volume req.name req.required_bytes req.parameters d.default_on_delete_policy
        ≡ some vol
      → create_volume host sets d req w ≡ (w, panicked)
  unfolding create_volume create_from
  create_volume_panics req permissions vol w gone named valid read made =
      let identified : is_empty vol.id ≡ false =
        is_empty-id req.name req.required_bytes req.parameters d.default_on_delete_policy vol
          made in
      let placed : is_empty (get_internal_mount_path d.working_mount_dir vol) ≡ false =
        rw
          (get_internal_mount_path-new_nfs_volume d.working_mount_dir req.name req.required_bytes
            req.parameters d.default_on_delete_policy vol made named)
          (is_empty-join_paths d.working_mount_dir req.name named) in
      rw (named, valid, read, made)
        (while_mounted_panics vol req.parameters (first_capability req.volume_capabilities)
          (make_volume host sets d req permissions vol) w gone identified placed)
