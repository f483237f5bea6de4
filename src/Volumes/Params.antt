-- ===== src/Volumes/Params.antt =====
-- The parameters of a storage class: pkg/nfs/controllerserver.go, pkg/nfs/nfs.go, pkg/nfs/utils.go.
-- A loop over a Go map is a recursion over the list of its entries, in any order.
pub mod Created
use google_cloud_platform_nf.Prelude.{[], ◌∷◌, Bool, ◌||◌, Option, none, some, if◌then◌else◌}
use google_cloud_platform_nf.Text.{Bytes, codes, to_lower, equal_fold, eq_bytes, is_empty}
use google_cloud_platform_nf.Text.Numerals.{ℤ}
use google_cloud_platform_nf.Text.Search.{replace_all}
use google_cloud_platform_nf.Maps.{Map, insert}
use google_cloud_platform_nf.Volumes.{
  NfsVolume, NfsSnapshot, delete, retain, archive, get_volume_id_from_nfs_vol,
  get_snapshot_id_from_nfs_snapshot,
}

-- The keys that the switches tell apart; the constants are those of pkg/nfs/nfs.go.
pub data ParamKey : Type 0 where
  param_server param_share param_sub_dir param_on_delete : ParamKey
  mount_options_field mount_permissions_field : ParamKey
  pvc_name_key pvc_namespace_key pv_name_key : ParamKey
  unknown_key : ParamKey

abbrev pub pvc_name_metadata : Bytes
pvc_name_metadata = codes "${pvc.metadata.name}"

abbrev pub pvc_namespace_metadata : Bytes
pvc_namespace_metadata = codes "${pvc.metadata.namespace}"

abbrev pub pv_name_metadata : Bytes
pv_name_metadata = codes "${pv.metadata.name}"

abbrev lowered_key : Bytes → ParamKey
lowered_key k =
    if eq_bytes k (codes "server")
    then param_server
    else if eq_bytes k (codes "share")
    then param_share
    else if eq_bytes k (codes "subdir")
    then param_sub_dir
    else if eq_bytes k (codes "ondelete")
    then param_on_delete
    else if eq_bytes k (codes "mountoptions")
    then mount_options_field
    else if eq_bytes k (codes "mountpermissions")
    then mount_permissions_field
    else if eq_bytes k (codes "csi.storage.k8s.io/pvc/name")
    then pvc_name_key
    else if eq_bytes k (codes "csi.storage.k8s.io/pvc/namespace")
    then pvc_namespace_key
    else if eq_bytes k (codes "csi.storage.k8s.io/pv/name")
    then pv_name_key
    else unknown_key

-- `switch strings.ToLower(k)`.
unfoldable pub param_key : Bytes → ParamKey
unfolding to_lower eq_bytes
param_key k = lowered_key (to_lower k)

unfoldable pub replace_with_map : Bytes → Map Bytes → Bytes
unfolding replace_all
replace_with_map str [] = str
replace_with_map str ((k, v) ∷ m) =
    replace_with_map (if is_empty k then str else replace_all str k v) m

-- Whether the value is one of `supportedOnDeleteValues`, whatever its case.
unfoldable validate_on_delete_value : Bytes → Bool
unfolding equal_fold
validate_on_delete_value on_delete =
    equal_fold [] on_delete
    || equal_fold delete on_delete
    || equal_fold retain on_delete
    || equal_fold archive on_delete

-- The variables of the loop of `newNFSVolume`.
record Collected : Type 0 where
  pub server : Bytes
  pub base_dir : Bytes
  pub sub_dir : Bytes
  pub on_delete : Bytes
  pub sub_dir_replace_map : Map Bytes

abbrev none_collected : Collected
none_collected = record {
  server = [];
  base_dir = [];
  sub_dir = [];
  on_delete = [];
  sub_dir_replace_map = [];
}

unfoldable collect_param : ParamKey → Bytes → Collected → Collected
collect_param param_server v c = record c { server = v }
collect_param param_share v c = record c { base_dir = v }
collect_param param_sub_dir v c = record c { sub_dir = v }
collect_param param_on_delete v c = record c { on_delete = v }
collect_param pvc_namespace_key v c = record c {
  sub_dir_replace_map = insert pvc_namespace_metadata v c.sub_dir_replace_map;
}
collect_param pvc_name_key v c = record c {
  sub_dir_replace_map = insert pvc_name_metadata v c.sub_dir_replace_map;
}
collect_param pv_name_key v c = record c {
  sub_dir_replace_map = insert pv_name_metadata v c.sub_dir_replace_map;
}
collect_param other v c = c

unfoldable collect_params : Map Bytes → Collected → Collected
unfolding param_key collect_param insert
collect_params [] c = c
collect_params ((k, v) ∷ m) c = collect_params m (collect_param (param_key k) v c)

-- The volume before its id is made.
unfoldable draft_volume : Bytes → ℤ → Collected → Bytes → NfsVolume
unfolding replace_with_map
draft_volume name size c default_on_delete_policy = record {
  id = [];
  server = c.server;
  base_dir = c.base_dir;
  sub_dir = if is_empty c.sub_dir then name else replace_with_map c.sub_dir c.sub_dir_replace_map;
  size = size;
  uuid = if is_empty c.sub_dir then [] else name;
  on_delete = if is_empty c.on_delete then default_on_delete_policy else c.on_delete;
}

unfoldable volume_of_params : Bytes → ℤ → Collected → Bytes → Option NfsVolume
unfolding draft_volume validate_on_delete_value get_volume_id_from_nfs_vol
volume_of_params name size c default_on_delete_policy =
    let vol = draft_volume name size c default_on_delete_policy in
    if is_empty c.server
    then none
    else if validate_on_delete_value c.on_delete
    then some (record vol { id = get_volume_id_from_nfs_vol vol })
    else none

-- `newNFSVolume`; an error is `none`.
unfoldable pub new_nfs_volume : Bytes → ℤ → Map Bytes → Bytes → Option NfsVolume
unfolding collect_params volume_of_params
new_nfs_volume name size params default_on_delete_policy =
    volume_of_params name size (collect_params params none_collected) default_on_delete_policy

-- The loop of `newNFSSnapshot`: server and base directory, or the error of an unknown parameter.
unfoldable snapshot_param : ParamKey → Bytes → Bytes × Bytes → Option (Bytes × Bytes)
snapshot_param param_server v (server, base_dir) = some (v, base_dir)
snapshot_param param_share v (server, base_dir) = some (server, v)
snapshot_param other v p = none

unfoldable snapshot_params : Map Bytes → Option (Bytes × Bytes) → Option (Bytes × Bytes)
unfolding param_key snapshot_param
snapshot_params m none = none
snapshot_params [] (some p) = some p
snapshot_params ((k, v) ∷ m) (some p) = snapshot_params m (snapshot_param (param_key k) v p)

-- The name of the archive: the uuid of the source, or its subdirectory.
unfoldable snapshot_source : NfsVolume → Bytes
snapshot_source vol = if is_empty vol.uuid then vol.sub_dir else vol.uuid

unfoldable snapshot_of : Bytes → NfsVolume → Option (Bytes × Bytes) → Option NfsSnapshot
unfolding snapshot_source get_snapshot_id_from_nfs_snapshot
snapshot_of name vol none = none
snapshot_of name vol (some (server, base_dir)) =
    let draft : NfsSnapshot = record {
      id = [];
      server = server;
      base_dir = base_dir;
      uuid = name;
      src = snapshot_source vol;
    } in
    if is_empty server
    then none
    else if is_empty (snapshot_source vol)
    then none
    else some (record draft { id = get_snapshot_id_from_nfs_snapshot draft })

-- `newNFSSnapshot`; an error is `none`.
unfoldable pub new_nfs_snapshot : Bytes → Map Bytes → NfsVolume → Option NfsSnapshot
unfolding snapshot_params snapshot_of
new_nfs_snapshot name params vol =
    snapshot_of name vol (snapshot_params params (some (vol.server, vol.base_dir)))

-- `getMountOptions`: the value of the first key that reads "mountoptions".
unfoldable pub get_mount_options : Map Bytes → Bytes
unfolding to_lower eq_bytes
get_mount_options [] = []
get_mount_options ((k, v) ∷ m) =
    if eq_bytes (to_lower k) (codes "mountoptions") then v else get_mount_options m

-- `setKeyValueInMap` on a map that is not nil.
unfoldable pub set_key_value : Map Bytes → Bytes → Bytes → Map Bytes
unfolding equal_fold
set_key_value [] key value = (key, value) ∷ []
set_key_value ((k, v) ∷ m) key value =
    if equal_fold k key then (k, value) ∷ m else (k, v) ∷ set_key_value m key value

unfoldable set_key_value_in_map : Option (Map Bytes) → Bytes → Bytes → Option (Map Bytes)
unfolding set_key_value
set_key_value_in_map none key value = none
set_key_value_in_map (some m) key value = some (set_key_value m key value)
