-- ===== src/Provisioner/Volume.antt =====
-- pkg/nfs/controllerserver.go: `CreateVolume` and `DeleteVolume`.
use google_cloud_platform_nf.Prelude.{
  ℕ, List, [], ◌∷◌, ◌++◌, Bool, not, ltb, Option, none, some, if◌then◌else◌,
}
use google_cloud_platform_nf.Text.{Bytes, codes, equal_fold, is_empty}
use google_cloud_platform_nf.Text.FilePath.{join_paths, dir}
use google_cloud_platform_nf.Text.Numerals.{ℤ, parse_uint}
use google_cloud_platform_nf.Maps.{Map}
use google_cloud_platform_nf.Locks.{StringSet}
use google_cloud_platform_nf.Rpc.{
  invalid_argument, internal, VolumeCapability, ◌>>◌, pure, fail, require, done,
}
use google_cloud_platform_nf.Driver.{Driver}
use google_cloud_platform_nf.Host.{Host}
use google_cloud_platform_nf.Node.{Handler, call_host, file_mode}
use google_cloud_platform_nf.Volumes.{
  NfsVolume, retain, archive, slash, has_byte, get_internal_mount_path, get_internal_volume_path,
  get_nfs_vol_from_id,
}
use google_cloud_platform_nf.Volumes.Params.{
  ParamKey, mount_options_field, mount_permissions_field, unknown_key, param_key, new_nfs_volume,
  get_mount_options, set_key_value,
}
use google_cloud_platform_nf.Provisioner.{
  ContentSource, is_valid_volume_capabilities, first_capability, options_capability, while_mounted,
  copy_volume,
}

pub record CreateVolumeRequest : Type 0 where
  pub name : Bytes
  pub volume_capabilities : List VolumeCapability
  pub required_bytes : ℤ
  pub parameters : Map Bytes
  pub content_source : Option ContentSource

-- `csi.Volume`; its capacity is 0.
pub record Volume : Type 0 where
  pub volume_id : Bytes
  pub volume_context : Map Bytes
  pub content_source : Option ContentSource

pub record DeleteVolumeRequest : Type 0 where
  pub volume_id : Bytes
  pub secrets : Map Bytes

-- One round of the validation of the parameters: the permissions, or the error.
unfoldable validate_param : ParamKey → Bytes → ℕ → Option ℕ
unfolding parse_uint
validate_param mount_permissions_field v permissions =
    if is_empty v then some permissions else parse_uint v 8 32
validate_param mount_options_field v permissions = none
validate_param unknown_key v permissions = none
validate_param other v permissions = some permissions

unfoldable pub validate_params : Map Bytes → Option ℕ → Option ℕ
unfolding validate_param param_key
validate_params m none = none
validate_params [] (some permissions) = some permissions
validate_params ((k, v) ∷ m) (some permissions) =
    validate_params m (validate_param (param_key k) v permissions)

module _ (host : Host) (sets : StringSet) (d : Driver) where
  abbrev Run : Type 0 → Type 0
  Run A = Handler host sets A

  -- A call of the host whose error is only logged.
  unfoldable call_quietly : (host.State → host.State × Bool) → Run (Unit {0})
  call_quietly op w = (record w { host_state = (op w.host_state).0 }, done tt)

  unfoldable fill_volume : CreateVolumeRequest → NfsVolume → Option ContentSource → Run (Unit {0})
  unfolding copy_volume
  fill_volume req vol none = pure tt
  fill_volume req vol (some source) = copy_volume host sets d req.volume_capabilities source vol

  -- What runs while the share is mounted.
  unfoldable pub make_volume : CreateVolumeRequest → ℕ → NfsVolume → Run Volume
  unfolding call_host call_quietly fill_volume set_key_value get_internal_volume_path
  make_volume req permissions vol = do
    let path = get_internal_volume_path d.working_mount_dir vol
    call_host host sets internal (λ h. host.mkdir_all h path 0o777)
    if ltb 0 permissions
        then call_quietly (λ h. host.chmod h path (file_mode permissions))
        else pure tt
    fill_volume req vol req.content_source
    pure (record {
      volume_id = vol.id;
      volume_context = set_key_value req.parameters (codes "subdir") vol.sub_dir;
      content_source = req.content_source;
    })

  unfoldable pub create_from : CreateVolumeRequest → Option ℕ → Option NfsVolume → Run Volume
  unfolding make_volume while_mounted
  create_from req none vol = fail invalid_argument
  create_from req (some permissions) none = fail invalid_argument
  create_from req (some permissions) (some vol) =
      while_mounted host sets d vol req.parameters (first_capability req.volume_capabilities)
        (make_volume req permissions vol)

  unfoldable pub create_volume : CreateVolumeRequest → Run Volume
  unfolding create_from validate_params new_nfs_volume is_valid_volume_capabilities
  create_volume req = do
    require (not (is_empty req.name)) invalid_argument
    require (is_valid_volume_capabilities req.volume_capabilities) invalid_argument
    create_from req (validate_params req.parameters (some d.mount_permissions))
        (new_nfs_volume req.name req.required_bytes req.parameters d.default_on_delete_policy)

  -- `archived-` and the subdirectory, under the mount.
  unfoldable archived_path : NfsVolume → Bytes
  unfolding get_internal_mount_path join_paths
  archived_path vol =
      join_paths (get_internal_mount_path d.working_mount_dir vol)
        (codes "archived-" ++ vol.sub_dir)

  unfoldable archive_volume : NfsVolume → Run (Unit {0})
  unfolding call_host archived_path get_internal_volume_path dir has_byte
  archive_volume vol = do
    let from = get_internal_volume_path d.working_mount_dir vol
    let to = archived_path vol
    if has_byte slash vol.sub_dir
        then call_host host sets internal (λ h. host.mkdir_all h (dir to) 0o777)
        else pure tt
    call_host host sets internal (λ h. host.remove_all h to)
    call_host host sets internal (λ h. host.rename h from to)

  unfoldable pub dispose_volume : NfsVolume → Run (Unit {0})
  unfolding call_host archive_volume get_internal_volume_path equal_fold
  dispose_volume vol =
      if equal_fold vol.on_delete archive
      then archive_volume vol
      else call_host host sets internal
          (λ h. host.remove_all h (get_internal_volume_path d.working_mount_dir vol))

  -- The policy of the id, or the driver's.
  unfoldable pub with_policy : NfsVolume → NfsVolume
  with_policy vol = record vol {
    on_delete = if is_empty vol.on_delete then d.default_on_delete_policy else vol.on_delete;
  }

  unfoldable pub delete_parsed : Map Bytes → Option NfsVolume → Run (Unit {0})
  unfolding dispose_volume while_mounted with_policy equal_fold get_mount_options
  delete_parsed secrets none = pure tt
  delete_parsed secrets (some vol) =
      if equal_fold (with_policy vol).on_delete retain
      then pure tt
      else while_mounted host sets d (with_policy vol) []
          (options_capability (get_mount_options secrets)) (dispose_volume (with_policy vol))

  unfoldable pub delete_volume : DeleteVolumeRequest → Run (Unit {0})
  unfolding delete_parsed get_nfs_vol_from_id
  delete_volume req = do
    require (not (is_empty req.volume_id)) invalid_argument
    delete_parsed req.secrets (get_nfs_vol_from_id req.volume_id)
