-- ===== src/Provisioner/Snapshot.antt =====
-- pkg/nfs/controllerserver.go: `CreateSnapshot`, `DeleteSnapshot` and `validateSnapshot`.
use google_cloud_platform_nf.Prelude.{ℕ, List, [], ◌∷◌, not, Option, none, some, if◌then◌else◌}
use google_cloud_platform_nf.Text.{Bytes, eq_bytes, is_empty}
use google_cloud_platform_nf.Text.FilePath.{join_paths}
use google_cloud_platform_nf.Maps.{Map}
use google_cloud_platform_nf.Locks.{StringSet}
use google_cloud_platform_nf.Rpc.{
  invalid_argument, not_found, already_exists, internal, unknown, ◌>>=◌, ◌>>◌, pure, fail, require,
  done, failed, Outcome,
}
use google_cloud_platform_nf.Driver.{Driver}
use google_cloud_platform_nf.Host.{Host, DirEntry}
use google_cloud_platform_nf.Node.{Handler, call_host}
use google_cloud_platform_nf.Volumes.{
  NfsVolume, NfsSnapshot, archive_name, get_internal_volume_path, get_nfs_vol_from_id,
  get_nfs_snap_from_id, volume_from_snapshot,
}
use google_cloud_platform_nf.Volumes.Params.{new_nfs_snapshot, get_mount_options}
use google_cloud_platform_nf.Provisioner.{options_capability, while_mounted}

pub record CreateSnapshotRequest : Type 0 where
  pub name : Bytes
  pub source_volume_id : Bytes
  pub parameters : Map Bytes

-- `csi.Snapshot`; its time of creation is left out, and it is ready to use.
pub record Snapshot : Type 0 where
  pub snapshot_id : Bytes
  pub source_volume_id : Bytes
  pub size_bytes : ℕ

record DeleteSnapshotRequest : Type 0 where
  pub snapshot_id : Bytes
  pub secrets : Map Bytes

-- `validateSnapshot`, over the entries that the walk visits. The error of an entry has no code.
unfoldable validate_snapshot : Bytes → Bytes → List DirEntry → Outcome (Unit {0})
unfolding eq_bytes
validate_snapshot root archive [] = done tt
validate_snapshot root archive (e ∷ es) =
    if eq_bytes e.path root
    then validate_snapshot root archive es
    else if e.has_error
    then failed unknown
    else if eq_bytes e.name archive
    then validate_snapshot root archive es
    else failed already_exists

module _ (host : Host) (sets : StringSet) (d : Driver) where
  abbrev Run : Type 0 → Type 0
  Run A = Handler host sets A

  unfoldable check_snapshot : Bytes → NfsSnapshot → Run (Unit {0})
  unfolding validate_snapshot archive_name
  check_snapshot path snap w =
      (w, validate_snapshot path (archive_name snap) (host.walk_dir w.host_state path))

  -- The size of the archive, 0 where it cannot be read.
  unfoldable archive_size : Bytes → Run ℕ
  archive_size path w =
      (w, done (elim (host.stat_size w.host_state path) [ none ↦ 0 | some n ↦ n ]))

  unfoldable write_archive : NfsVolume → NfsSnapshot → Run Snapshot
  unfolding call_host archive_size archive_name get_internal_volume_path join_paths
      volume_from_snapshot
  write_archive src_vol snap = do
    let src = get_internal_volume_path d.working_mount_dir src_vol
    let dst =
        join_paths (get_internal_volume_path d.working_mount_dir (volume_from_snapshot snap))
          (archive_name snap)
    call_host host sets internal (λ h. host.tar_create h src dst)
    size ← archive_size dst
    pure (record { snapshot_id = snap.id; source_volume_id = src_vol.id; size_bytes = size })

  -- What runs while the share of the snapshot is mounted.
  unfoldable take_snapshot : NfsVolume → NfsSnapshot → Run Snapshot
  unfolding call_host check_snapshot write_archive while_mounted get_internal_volume_path
      volume_from_snapshot
  take_snapshot src_vol snap = do
    let path = get_internal_volume_path d.working_mount_dir (volume_from_snapshot snap)
    call_host host sets internal (λ h. host.mkdir_all h path 0o777)
    check_snapshot path snap
    while_mounted host sets d src_vol [] none (write_archive src_vol snap)

  unfoldable pub snapshot_source_of : NfsVolume → Option NfsSnapshot → Run Snapshot
  unfolding take_snapshot while_mounted volume_from_snapshot
  snapshot_source_of src_vol none = fail not_found
  snapshot_source_of src_vol (some snap) =
      while_mounted host sets d (volume_from_snapshot snap) [] none (take_snapshot src_vol snap)

  unfoldable pub snapshot_volume : CreateSnapshotRequest → Option NfsVolume → Run Snapshot
  unfolding snapshot_source_of new_nfs_snapshot
  snapshot_volume req none = fail not_found
  snapshot_volume req (some src_vol) =
      snapshot_source_of src_vol (new_nfs_snapshot req.name req.parameters src_vol)

  unfoldable pub create_snapshot : CreateSnapshotRequest → Run Snapshot
  unfolding snapshot_volume get_nfs_vol_from_id
  create_snapshot req = do
    require (not (is_empty req.name)) invalid_argument
    require (not (is_empty req.source_volume_id)) invalid_argument
    snapshot_volume req (get_nfs_vol_from_id req.source_volume_id)

  unfoldable delete_parsed_snapshot : Map Bytes → Option NfsSnapshot → Run (Unit {0})
  unfolding while_mounted volume_from_snapshot call_host get_internal_volume_path get_mount_options
  delete_parsed_snapshot secrets none = pure tt
  delete_parsed_snapshot secrets (some snap) =
      let vol = volume_from_snapshot snap in
      while_mounted host sets d vol [] (options_capability (get_mount_options secrets)) (
        call_host host sets internal
          (λ h. host.remove_all h (get_internal_volume_path d.working_mount_dir vol)))

  unfoldable delete_snapshot : DeleteSnapshotRequest → Run (Unit {0})
  unfolding delete_parsed_snapshot get_nfs_snap_from_id
  delete_snapshot req = do
    require (not (is_empty req.snapshot_id)) invalid_argument
    delete_parsed_snapshot req.secrets (get_nfs_snap_from_id req.snapshot_id)
