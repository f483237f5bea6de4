-- ===== src/Node/Publish.antt =====
-- pkg/nfs/nodeserver.go: `NodePublishVolume`, `NodeUnpublishVolume` and what they call.
use google_cloud_platform_nf.Prelude.{
  ℕ, ◌%◌, List, [], ◌∷◌, ◌++◌, Bool, true, false, not, Option, none, some, ltb, if◌then◌else◌, ◌==◌,
}
use google_cloud_platform_nf.Text.{Bytes, codes, is_empty}
use google_cloud_platform_nf.Text.Numerals.{parse_int}
use google_cloud_platform_nf.Text.Search.{contains}
use google_cloud_platform_nf.Maps.{lookup}
use google_cloud_platform_nf.Cluster.{node_annotation}
use google_cloud_platform_nf.Locks.{StringSet}
use google_cloud_platform_nf.Rpc.{
  Code, invalid_argument, permission_denied, internal, done, failed, ◌>>=◌, ◌>>◌, pure, fail,
  require, VolumeCapability, mount_flags, NodePublishVolumeRequest, NodeUnpublishVolumeRequest,
}
use google_cloud_platform_nf.Driver.{Driver}
use google_cloud_platform_nf.Host.{
  Host, MountError, MountCheck, is_mounted, not_mounted, is_absent, check_failed,
}
use google_cloud_platform_nf.Node.Options.{
  collect_mount_options, ReadAhead, no_flag, bad_flag, read_ahead_kb,
  extract_read_ahead_kb_mount_flag,
}
use google_cloud_platform_nf.Node.{
  PublishParams, publish_params, mount_source, file_mode, trim_space, echo_command, cat_command,
  reads_as, node_lock_key, Handler, call_host, locking,
}

-- The code for an error of `Mount`.
unfoldable mount_error_code : MountError → Code
unfolding contains
mount_error_code e =
    if e.is_permission
    then permission_denied
    else if contains e.message (codes "invalid argument")
    then invalid_argument
    else internal

-- The flags of the capability, and "ro" for a volume that is read only.
unfoldable pub request_options : VolumeCapability → Bool → List Bytes
request_options cap readonly =
    if readonly then mount_flags cap ++ codes "ro" ∷ [] else mount_flags cap

module _ (host : Host) (sets : StringSet) where
  abbrev Run : Type 0 → Type 0
  Run A = Handler host sets A

  unfoldable pub chmod_if_permission_mismatch : Bytes → ℕ → Run (Unit {0})
  unfolding call_host
  chmod_if_permission_mismatch target_path mode w =
      elim (host.lstat_mode w.host_state target_path) [
        | none ↦ (w, failed internal)
        | some m ↦
            if m % 512 == mode
            then (w, done tt)
            else call_host host sets internal (λ h. host.chmod h target_path mode) w
      ]

  -- The output of a shell command.
  unfoldable pub shell : Bytes → Run Bytes
  shell command w =
      let (h, output) = host.shell w.host_state command in
      (record w { host_state = h }, elim output [ none ↦ failed internal | some o ↦ done o ])

  unfoldable pub device_of : Bytes → Run Bytes
  unfolding trim_space
  device_of target_path w = elim (host.mountpoint_device w.host_state target_path) [
    | none ↦ (w, failed internal)
    | some output ↦ (w, done (trim_space output))
  ]

  unfoldable pub update_read_ahead : Bytes → ℕ → Run (Unit {0})
  unfolding shell device_of echo_command cat_command reads_as trim_space parse_int
  update_read_ahead target_path kb = do
    device ← device_of target_path
    ignored ← shell (echo_command kb device)
    output ← shell (cat_command device)
    require (reads_as (parse_int (trim_space output)) kb) internal

  unfoldable pub apply_read_ahead : Bytes → ReadAhead → Run (Unit {0})
  unfolding update_read_ahead
  apply_read_ahead target_path no_flag = pure tt
  apply_read_ahead target_path bad_flag = fail invalid_argument
  apply_read_ahead target_path (read_ahead_kb kb) = update_read_ahead target_path kb

  -- The answer of `IsLikelyNotMountPoint`; an absent target is made.
  unfoldable pub after_check : Bytes → ℕ → MountCheck → Run Bool
  unfolding call_host
  after_check target_path mode is_mounted = pure false
  after_check target_path mode not_mounted = pure true
  after_check target_path mode is_absent = do
    call_host host sets internal (λ h. host.mkdir_all h target_path mode)
    pure true
  after_check target_path mode check_failed = fail internal

  unfoldable pub not_mount_point : Bytes → ℕ → Run Bool
  unfolding after_check
  not_mount_point target_path mode w =
      after_check target_path mode (host.is_likely_not_mount_point w.host_state target_path) w

  unfoldable pub mount : Bytes → Bytes → List Bytes → Run (Unit {0})
  unfolding mount_error_code
  mount source target_path options w =
      let (h, e) = host.mount w.host_state source target_path (codes "nfs") options in
      (
        record w { host_state = h },
        elim e [ none ↦ done tt | some err ↦ failed (mount_error_code err) ],
      )

  -- From the mount to the response.
  unfoldable pub mount_volume : Bytes → Bytes → PublishParams → Run (Unit {0})
  unfolding mount chmod_if_permission_mismatch apply_read_ahead collect_mount_options
      extract_read_ahead_kb_mount_flag
  mount_volume source target_path p = do
    mount source target_path (collect_mount_options p.mount_options)
    if ltb 0 p.mount_permissions
        then chmod_if_permission_mismatch target_path (file_mode p.mount_permissions)
        else pure tt
    apply_read_ahead target_path (extract_read_ahead_kb_mount_flag p.mount_options)

  unfoldable pub mount_unless_mounted : Bytes → Bytes → PublishParams → Run (Unit {0})
  unfolding mount_volume not_mount_point
  mount_unless_mounted source target_path p = do
    not_mnt ← not_mount_point target_path (file_mode p.mount_permissions)
    if not_mnt then mount_volume source target_path p else pure tt

  -- From the test of the share on, with the parameters of the volume context.
  unfoldable pub publish_with : NodePublishVolumeRequest → Option PublishParams → Run (Unit {0})
  unfolding mount_unless_mounted mount_source lookup
  publish_with req none = fail invalid_argument
  publish_with req (some p) =
      if is_empty p.base_dir
      then fail invalid_argument
      else elim (lookup node_annotation req.publish_context) [
        | none ↦ fail invalid_argument
        | some ip ↦ mount_unless_mounted (mount_source ip p) req.target_path p
      ]

  -- What runs under the lock.
  unfoldable pub publish_locked :
      Driver → NodePublishVolumeRequest → VolumeCapability → Run (Unit {0})
  unfolding publish_with publish_params request_options
  publish_locked d req cap = publish_with req (
      publish_params req.volume_context (
        some (record {
          base_dir = [];
          sub_dir = [];
          sub_dir_replace_map = [];
          mount_options = request_options cap req.readonly;
          mount_permissions = d.mount_permissions;
        })))

  -- `NodePublishVolume` behind the test of the capability.
  unfoldable pub publish_for :
      Driver → NodePublishVolumeRequest → Option VolumeCapability → Run (Unit {0})
  unfolding publish_locked locking node_lock_key
  publish_for d req none = fail invalid_argument
  publish_for d req (some cap) = do
    require (not (is_empty req.volume_id)) invalid_argument
    require (not (is_empty req.target_path)) invalid_argument
    locking host sets (node_lock_key req.volume_id req.target_path) (publish_locked d req cap)

  unfoldable pub node_publish_volume : Driver → NodePublishVolumeRequest → Run (Unit {0})
  unfolding publish_for
  node_publish_volume d req = publish_for d req req.volume_capability

  -- `CleanupMountPoint`, or `CleanupMountWithForce` where the mounter has it.
  unfoldable pub node_unpublish_volume : NodeUnpublishVolumeRequest → Run (Unit {0})
  unfolding call_host locking node_lock_key
  node_unpublish_volume req = do
    require (not (is_empty req.volume_id)) invalid_argument
    require (not (is_empty req.target_path)) invalid_argument
    locking host sets (node_lock_key req.volume_id req.target_path)
        (call_host host sets internal (λ h. host.cleanup_mount h req.target_path))
