-- ===== src/Volumes.antt =====
-- pkg/nfs/controllerserver.go: the volumes and snapshots of the provisioner and their CSI ids, and
-- the constants of pkg/nfs/nfs.go and pkg/nfs/utils.go that they are made with.
pub mod RoundTrip
pub mod Params
use google_cloud_platform_nf.Prelude.{
  ℕ, zero, suc, ◌≡◌, refl, List, [], ◌∷◌, ◌++◌, Bool, true, false, ◌||◌, Option, none, some,
  if◌then◌else◌, ◌==◌,
}
use google_cloud_platform_nf.Text.{Bytes, codes, equal_fold, is_empty}
use mathlib.Core.Option
use google_cloud_platform_nf.Text.Numerals.{ℤ, pos}
use google_cloud_platform_nf.Text.Split.{split, join}
use google_cloud_platform_nf.Text.Trim.{trim}
use google_cloud_platform_nf.Text.FilePath.{join_paths}

abbrev pub separator : ℕ
separator = b'#'

abbrev pub slash : ℕ
slash = b'/'

abbrev pub delete : Bytes
delete = codes "delete"

abbrev pub retain : Bytes
retain = codes "retain"

abbrev pub archive : Bytes
archive = codes "archive"

pub record NfsVolume : Type 0 where
  pub id : Bytes
  pub server : Bytes
  pub base_dir : Bytes
  pub sub_dir : Bytes
  pub size : ℤ
  pub uuid : Bytes
  pub on_delete : Bytes

pub record NfsSnapshot : Type 0 where
  pub id : Bytes
  pub server : Bytes
  pub base_dir : Bytes
  pub uuid : Bytes
  pub src : Bytes

unfoldable pub archive_name : NfsSnapshot → Bytes
archive_name snap = snap.src ++ codes ".tar.gz"

-- `strings.EqualFold(onDelete, retain) || strings.EqualFold(onDelete, archive)`.
unfoldable pub keeps_data : Bytes → Bool
unfolding equal_fold
keeps_data on_delete = equal_fold on_delete retain || equal_fold on_delete archive

unfoldable pub get_volume_id_from_nfs_vol : NfsVolume → Bytes
unfolding keeps_data join trim
get_volume_id_from_nfs_vol vol =
    join
      (trim vol.server slash
        ∷ trim vol.base_dir slash
        ∷ trim vol.sub_dir slash
        ∷ vol.uuid
        ∷ (if keeps_data vol.on_delete then vol.on_delete else [])
        ∷ [])
      separator

unfoldable pub get_snapshot_id_from_nfs_snapshot : NfsSnapshot → Bytes
unfolding join trim
get_snapshot_id_from_nfs_snapshot snap =
    join (trim snap.server slash ∷ trim snap.base_dir slash ∷ snap.uuid ∷ snap.uuid ∷ snap.src ∷ [])
      separator

-- `segments[i]`, or the empty string where there are fewer.
abbrev segment : List Bytes → ℕ → Bytes
segment [] i = []
segment (p ∷ ps) zero = p
segment (p ∷ ps) (suc i) = segment ps i

-- The parts up to the last one, and the last one.
unfoldable unsnoc : Bytes → List Bytes → List Bytes × Bytes
unsnoc p [] = ([], p)
unsnoc p (q ∷ ps) = let (front, last) = unsnoc q ps in (p ∷ front, last)

unfoldable pub has_byte : ℕ → Bytes → Bool
has_byte b [] = false
has_byte b (c ∷ s) = c == b || has_byte b s

old_volume : Bytes → Bytes → List Bytes × Bytes → Option NfsVolume
unfolding has_byte join
old_volume id server ([], sub_dir) = none
old_volume id server (p ∷ ps, sub_dir) =
    if is_empty server || is_empty sub_dir || has_byte b'\n' (join (p ∷ ps) slash)
    then none
    else some (record {
      id = id;
      server = server;
      base_dir = join (p ∷ ps) slash;
      sub_dir = sub_dir;
      size = pos 0;
      uuid = [];
      on_delete = [];
    })

-- `^([^/]+)/(.*)/([^/]+)$`: in the parts between the slashes, the first and the last are not empty,
-- there is something between them, and the dot matches no line feed.
match_old_id : Bytes → List Bytes → Option NfsVolume
unfolding old_volume unsnoc
match_old_id id [] = none
match_old_id id (server ∷ []) = none
match_old_id id (server ∷ p ∷ ps) = old_volume id server (unsnoc p ps)

from_segments : Bytes → List Bytes → Option NfsVolume
unfolding match_old_id split
from_segments id (server ∷ base_dir ∷ sub_dir ∷ rest) = some (record {
  id = id;
  server = server;
  base_dir = base_dir;
  sub_dir = sub_dir;
  size = pos 0;
  uuid = segment rest 0;
  on_delete = segment rest 1;
})
from_segments id other = match_old_id id (split id slash)

-- An error is `none`.
unfoldable pub get_nfs_vol_from_id : Bytes → Option NfsVolume
unfolding from_segments split
get_nfs_vol_from_id id = from_segments id (split id separator)

snapshot_from_segments : Bytes → List Bytes → Option NfsSnapshot
snapshot_from_segments id (server ∷ base_dir ∷ uuid ∷ path ∷ name ∷ []) =
    some (record { id = id; server = server; base_dir = base_dir; uuid = uuid; src = name })
snapshot_from_segments id other = none

unfoldable pub get_nfs_snap_from_id : Bytes → Option NfsSnapshot
unfolding snapshot_from_segments split
get_nfs_snap_from_id id = snapshot_from_segments id (split id separator)

-- A snapshot is mounted as the volume of its name.
unfoldable pub volume_from_snapshot : NfsSnapshot → NfsVolume
volume_from_snapshot snap = record {
  id = snap.id;
  server = snap.server;
  base_dir = snap.base_dir;
  sub_dir = snap.uuid;
  size = pos 0;
  uuid = snap.uuid;
  on_delete = [];
}

-- No caller passes a nil volume, so the test for one is left out.
unfoldable pub get_internal_mount_path : Bytes → NfsVolume → Bytes
unfolding join_paths
get_internal_mount_path working_mount_dir vol =
    join_paths working_mount_dir (if is_empty vol.uuid then vol.sub_dir else vol.uuid)

unfoldable pub get_internal_volume_path : Bytes → NfsVolume → Bytes
unfolding get_internal_mount_path join_paths
get_internal_volume_path working_mount_dir vol =
    join_paths (get_internal_mount_path working_mount_dir vol) vol.sub_dir

abbrev fields : NfsVolume → List Bytes
fields v = v.server ∷ v.base_dir ∷ v.sub_dir ∷ v.uuid ∷ v.on_delete ∷ []

-- The sample ids of the source's comments.
new_volume_id :
    Option.map fields (get_nfs_vol_from_id (codes "nfs-server#share#subdir#pvc-4b#retain"))
    ≡ some
        (codes "nfs-server" ∷ codes "share" ∷ codes "subdir" ∷ codes "pvc-4b" ∷ codes "retain" ∷ [])
unfolding get_nfs_vol_from_id
new_volume_id = refl

old_volume_id :
    Option.map fields (get_nfs_vol_from_id (codes "nfs-server/sh/are/pvc-4b"))
    ≡ some (codes "nfs-server" ∷ codes "sh/are" ∷ codes "pvc-4b" ∷ [] ∷ [] ∷ [])
unfolding get_nfs_vol_from_id
old_volume_id = refl

short_volume_id : get_nfs_vol_from_id (codes "nfs-server/pvc-4b") ≡ none
unfolding get_nfs_vol_from_id
short_volume_id = refl
