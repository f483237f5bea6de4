-- ===== src/Examples/Volumes.antt =====
-- A volume of a storage class with a subdirectory: the theorems applied.
use google_cloud_platform_nf.Prelude.{◌≡◌, refl, some, [], ◌∷◌, false, arith}
use google_cloud_platform_nf.Text.{Bytes, codes, to_lower, lower, equal_fold, eq_bytes}
use google_cloud_platform_nf.Text.Numerals.{pos}
use google_cloud_platform_nf.Maps.{Map}
use google_cloud_platform_nf.Volumes.{NfsVolume, get_nfs_vol_from_id}
use google_cloud_platform_nf.Volumes.RoundTrip.{IsPlain, stored}
use google_cloud_platform_nf.Volumes.Params.{new_nfs_volume}
use google_cloud_platform_nf.Volumes.Params.Created.{get_nfs_vol_from_id-new_nfs_volume}

abbrev params : Map Bytes
params =
    (codes "Server", codes "10.0.0.1")
    ∷ (codes "share", codes "/vol1")
    ∷ (codes "subDir", codes "team")
    ∷ []

abbrev made_volume : NfsVolume
made_volume = record {
  id = codes "10.0.0.1#vol1#team#pvc-1#";
  server = codes "10.0.0.1";
  base_dir = codes "/vol1";
  sub_dir = codes "team";
  size = pos 7;
  uuid = codes "pvc-1";
  on_delete = [];
}

volume_made : new_nfs_volume (codes "pvc-1") (pos 7) params [] ≡ some made_volume
unfolding new_nfs_volume
volume_made = refl

made_volume-IsPlain : IsPlain made_volume
made_volume-IsPlain = record {
  server = omega arith;
  base_dir = omega arith;
  sub_dir = omega arith;
  uuid = omega arith;
}

get_nfs_vol_from_id-new_nfs_volume_example :
    get_nfs_vol_from_id (codes "10.0.0.1#vol1#team#pvc-1#") ≡ some (stored made_volume)
get_nfs_vol_from_id-new_nfs_volume_example =
    get_nfs_vol_from_id-new_nfs_volume (codes "pvc-1") (pos 7) params [] made_volume volume_made
      made_volume-IsPlain

other_key : equal_fold (codes "share") (codes "subdir") ≡ false
unfolding equal_fold to_lower lower eq_bytes
other_key = refl
