-- ===== src/Provisioner.antt =====
-- pkg/nfs/controllerserver.go: creating and deleting volumes and snapshots. Each call mounts the
-- share through the node server of the same driver (`cs.Driver.ns`). It is nil in a process without
-- `--run-node-server`; its methods then run up to `ns.Driver`, where they panic.
pub mod Volume
pub mod Snapshot
pub mod Laws
pub mod Deletions
pub mod Panics
use google_cloud_platform_nf.Prelude.{
  ℕ, ◌≡◌, refl, List, [], ◌∷◌, ◌++◌, Bool, true, false, not, Option, none, some, if◌then◌else◌,
}
use google_cloud_platform_nf.Text.{Bytes, codes, to_lower, eq_bytes, is_empty}
use google_cloud_platform_nf.Text.FilePath.{join_paths}
use google_cloud_platform_nf.Maps.{Map, insert}
use google_cloud_platform_nf.Locks.{StringSet}
use google_cloud_platform_nf.Rpc.{
  invalid_argument, not_found, internal, VolumeCapability, block, mounted_with, no_access_type,
  is_block, NodePublishVolumeRequest, NodeUnpublishVolumeRequest, ◌>>=◌, ◌>>◌, under, deferring,
  fail, require, panicked,
}
use google_cloud_platform_nf.Driver.{Driver}
use google_cloud_platform_nf.Host.{Host}
use google_cloud_platform_nf.Node.{Handler, call_host}
use google_cloud_platform_nf.Node.Publish.{node_publish_volume, node_unpublish_volume}
use google_cloud_platform_nf.Volumes.{
  NfsVolume, NfsSnapshot, slash, archive_name, get_internal_mount_path, get_internal_volume_path,
  get_nfs_vol_from_id, get_nfs_snap_from_id, volume_from_snapshot,
}

-- `req.VolumeContentSource` with its type.
pub data ContentSource : Type 0 where
  from_snapshot from_volume : Bytes → ContentSource
  from_nothing : ContentSource

-- Whether `isValidVolumeCapabilities` returns no error.
unfoldable no_block : List VolumeCapability → Bool
no_block [] = true
no_block (c ∷ cs) = if is_block c then false else no_block cs

unfoldable pub is_valid_volume_capabilities : List VolumeCapability → Bool
unfolding no_block
is_valid_volume_capabilities [] = false
is_valid_volume_capabilities (c ∷ cs) = no_block (c ∷ cs)

-- `req.GetVolumeCapabilities()[0]`, or nil.
abbrev pub first_capability : List VolumeCapability → Option VolumeCapability
first_capability [] = none
first_capability (c ∷ cs) = some c

-- The capability of `DeleteVolume` and `DeleteSnapshot`.
abbrev pub options_capability : Bytes → Option VolumeCapability
options_capability mount_options =
    if is_empty mount_options then none else some (mounted_with (mount_options ∷ []))

unfoldable or_empty_mount : Option VolumeCapability → VolumeCapability
or_empty_mount none = mounted_with []
or_empty_mount (some c) = c

-- The loop of `internalMount`: every entry but the subdirectory is copied.
unfoldable copy_context : Map Bytes → Map Bytes → Map Bytes
unfolding to_lower eq_bytes insert
copy_context [] out = out
copy_context ((k, v) ∷ m) out =
    copy_context m (if eq_bytes (to_lower k) (codes "subdir") then out else insert k v out)

unfoldable mount_context : NfsVolume → Map Bytes → Map Bytes
unfolding copy_context join_paths insert
mount_context vol volume_context =
    copy_context volume_context
      ((codes "server", vol.server) ∷ (codes "share", join_paths (slash ∷ vol.base_dir) []) ∷ [])

abbrev has_capability : Option VolumeCapability → Bool
has_capability none = false
has_capability (some c) = true

module _ (host : Host) (sets : StringSet) (d : Driver) where
  -- The request of `internalMount`. It has no publish context.
  unfoldable pub internal_mount_request :
      NfsVolume → Map Bytes → Option VolumeCapability → NodePublishVolumeRequest
  unfolding mount_context or_empty_mount get_internal_mount_path
  internal_mount_request vol volume_context vol_cap = record {
    volume_id = vol.id;
    target_path = get_internal_mount_path d.working_mount_dir vol;
    volume_capability = some (or_empty_mount vol_cap);
    volume_context = mount_context vol volume_context;
    publish_context = [];
    readonly = false;
  }

  -- `ns.Driver` of a nil node server.
  unfoldable pub deref_nil : Handler host sets (Unit {0})
  deref_nil w = (w, panicked)

  -- `NodePublishVolume` of a nil node server.
  unfoldable pub publish_on_nil : NodePublishVolumeRequest → Handler host sets (Unit {0})
  unfolding deref_nil
  publish_on_nil req = do
    require (has_capability req.volume_capability) invalid_argument
    require (not (is_empty req.volume_id)) invalid_argument
    require (not (is_empty req.target_path)) invalid_argument
    deref_nil

  -- `NodeUnpublishVolume` of a nil node server.
  unfoldable unpublish_on_nil : NodeUnpublishVolumeRequest → Handler host sets (Unit {0})
  unfolding deref_nil
  unpublish_on_nil req = do
    require (not (is_empty req.volume_id)) invalid_argument
    require (not (is_empty req.target_path)) invalid_argument
    deref_nil

  unfoldable pub internal_mount :
      NfsVolume → Map Bytes → Option VolumeCapability → Handler host sets (Unit {0})
  unfolding publish_on_nil
  internal_mount vol volume_context vol_cap =
      let req = internal_mount_request vol volume_context vol_cap in
      if d.run_node_server then node_publish_volume host sets d req else publish_on_nil req

  unfoldable pub internal_unmount : NfsVolume → Handler host sets (Unit {0})
  unfolding node_unpublish_volume unpublish_on_nil get_internal_mount_path
  internal_unmount vol =
      let req : NodeUnpublishVolumeRequest = record {
        volume_id = vol.id;
        target_path = get_internal_mount_path d.working_mount_dir vol;
      } in
      if d.run_node_server then node_unpublish_volume host sets req else unpublish_on_nil req

  -- Mount, and unmount on return: an error of the mount is `Internal`.
  unfoldable pub while_mounted :
      {A : Type 0}
      → NfsVolume
      → Map Bytes
      → Option VolumeCapability
      → Handler host sets A
      → Handler host sets A
  while_mounted vol volume_context vol_cap body = do
    under internal (internal_mount vol volume_context vol_cap)
    deferring (internal_unmount vol) body

  unfoldable extract_snapshot :
      List VolumeCapability → NfsVolume → Option NfsSnapshot → Handler host sets (Unit {0})
  unfolding while_mounted archive_name get_internal_volume_path volume_from_snapshot call_host
  extract_snapshot caps dst_vol none = fail not_found
  extract_snapshot caps dst_vol (some snap) =
      let snap_vol = volume_from_snapshot snap in
      let dir = d.working_mount_dir in
      while_mounted snap_vol [] (first_capability caps) (
        while_mounted dst_vol [] (first_capability caps) (
          call_host host sets internal (λ h.
            host.tar_extract h
              (join_paths (get_internal_volume_path dir snap_vol) (archive_name snap))
              (get_internal_volume_path dir dst_vol))))

  unfoldable copy_from_snapshot :
      List VolumeCapability → Bytes → NfsVolume → Handler host sets (Unit {0})
  unfolding extract_snapshot get_nfs_snap_from_id
  copy_from_snapshot caps snapshot_id dst_vol =
      extract_snapshot caps dst_vol (get_nfs_snap_from_id snapshot_id)

  unfoldable copy_volume_files :
      List VolumeCapability → NfsVolume → Option NfsVolume → Handler host sets (Unit {0})
  unfolding while_mounted get_internal_volume_path call_host
  copy_volume_files caps dst_vol none = fail not_found
  copy_volume_files caps dst_vol (some src_vol) =
      let dir = d.working_mount_dir in
      while_mounted src_vol [] (first_capability caps) (
        while_mounted dst_vol [] (first_capability caps) (
          call_host host sets internal (λ h.
            host.copy_all h (get_internal_volume_path dir src_vol ++ codes "/.")
              (get_internal_volume_path dir dst_vol))))

  unfoldable copy_from_volume :
      List VolumeCapability → Bytes → NfsVolume → Handler host sets (Unit {0})
  unfolding copy_volume_files get_nfs_vol_from_id
  copy_from_volume caps volume_id dst_vol =
      copy_volume_files caps dst_vol (get_nfs_vol_from_id volume_id)

  unfoldable pub copy_volume :
      List VolumeCapability → ContentSource → NfsVolume → Handler host sets (Unit {0})
  unfolding copy_from_snapshot copy_from_volume
  copy_volume caps (from_snapshot id) vol = copy_from_snapshot caps id vol
  copy_volume caps (from_volume id) vol = copy_from_volume caps id vol
  copy_volume caps from_nothing vol = fail invalid_argument
