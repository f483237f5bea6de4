-- ===== src/Volumes/Params/Created.antt =====
-- What `newNFSVolume` of pkg/nfs/controllerserver.go makes of a request, and `setKeyValueInMap` of
-- pkg/nfs/utils.go.
use google_cloud_platform_nf.Prelude.{
  ℕ, ◌++◌, ◌≡◌, refl, [], ◌∷◌, true, false, Option, none, some, arith, if◌then◌else◌, Bool-cases,
  inl, inr,
}
use google_cloud_platform_nf.Text.{
  Bytes, equal_fold, eq_bytes_iff, is_empty, to_lower, eq_bytes_refl,
}
use google_cloud_platform_nf.Text.Numerals.{ℤ}
use google_cloud_platform_nf.Text.FilePath.{join_paths}
use google_cloud_platform_nf.Text.Split.{join}
use google_cloud_platform_nf.Text.Trim.{trim}
use google_cloud_platform_nf.Maps.{Map, lookup}
use google_cloud_platform_nf.Volumes.{
  NfsVolume, get_volume_id_from_nfs_vol, get_nfs_vol_from_id, get_internal_mount_path, slash,
  separator,
}
use google_cloud_platform_nf.Volumes.RoundTrip.{IsPlain, stored, get_nfs_vol_from_id-get_volume_id}
use google_cloud_platform_nf.Volumes.Params.{
  Collected, none_collected, collect_params, draft_volume, volume_of_params, new_nfs_volume,
  set_key_value, validate_on_delete_value,
}

-- The way to a volume: its draft, with the id of that draft.
record IsMade (name : Bytes) (size : ℤ) (c : Collected) (policy : Bytes) (vol : NfsVolume)
    : Type 0 where
  served : is_empty c.server ≡ false
  is_vol : vol ≡ record (draft_volume name size c policy) {
    id = get_volume_id_from_nfs_vol (draft_volume name size c policy);
  }

volume_of_params-IsMade :
    (name : Bytes) (size : ℤ) (c : Collected) (policy : Bytes) (vol : NfsVolume)
    → volume_of_params name size c policy ≡ some vol
    → IsMade name size c policy vol
unfolding volume_of_params
volume_of_params-IsMade name size c policy vol h = elim (Bool-cases (is_empty c.server)) [
  | inl blank ↦ absurd (let bad = rw (blank, volume_of_params) at h in cc)
  | inr served ↦ elim (Bool-cases (validate_on_delete_value c.on_delete)) [
    | inr wrong ↦ absurd (let bad = rw (served, wrong, volume_of_params) at h in cc)
    | inl right ↦
        let e = rw (served, right, volume_of_params) at h in
        record { served = served; is_vol = ground (arith, e) }
  ]
]

made :
    (name : Bytes) (size : ℤ) (params : Map Bytes) (policy : Bytes) (vol : NfsVolume)
    → new_nfs_volume name size params policy ≡ some vol
    → IsMade name size (collect_params params none_collected) policy vol
unfolding new_nfs_volume
made name size params policy vol h =
    volume_of_params-IsMade name size (collect_params params none_collected) policy vol h

id_of_draft :
    (draft : NfsVolume) (id : Bytes)
    → get_volume_id_from_nfs_vol (record draft { id = id }) ≡ get_volume_id_from_nfs_vol draft
unfolding get_volume_id_from_nfs_vol
id_of_draft draft id = refl

own_id :
    (name : Bytes) (size : ℤ) (params : Map Bytes) (policy : Bytes) (vol : NfsVolume)
    → new_nfs_volume name size params policy ≡ some vol
    → vol.id ≡ get_volume_id_from_nfs_vol vol
unfolding get_volume_id_from_nfs_vol
own_id name size params policy vol h =
    let c = collect_params params none_collected in
    rw
      (
        (made name size params policy vol h).is_vol,
        id_of_draft (draft_volume name size c policy)
            (get_volume_id_from_nfs_vol (draft_volume name size c policy)),
      )
      refl

-- The id of a volume that was made for a request is read back as that volume, as an id stores it,
-- where the separator `#` stands in none of its parts, which `newNFSVolume` does not see to.
pub get_nfs_vol_from_id-new_nfs_volume :
    (name : Bytes) (size : ℤ) (params : Map Bytes) (policy : Bytes) (vol : NfsVolume)
    → new_nfs_volume name size params policy ≡ some vol
    → IsPlain vol
    → get_nfs_vol_from_id vol.id ≡ some (stored vol)
unfolding get_volume_id_from_nfs_vol
get_nfs_vol_from_id-new_nfs_volume name size params policy vol h plain =
    rw (own_id name size params policy vol h) (get_nfs_vol_from_id-get_volume_id vol plain)

is_empty-middle : (p : Bytes) (c : ℕ) (t : Bytes) → is_empty (p ++ c ∷ t) ≡ false
is_empty-middle [] c t = refl
is_empty-middle (b ∷ p) c t = refl

pub is_empty-id :
    (name : Bytes) (size : ℤ) (params : Map Bytes) (policy : Bytes) (vol : NfsVolume)
    → new_nfs_volume name size params policy ≡ some vol
    → is_empty vol.id ≡ false
unfolding get_volume_id_from_nfs_vol join
is_empty-id name size params policy vol h =
    rw (own_id name size params policy vol h) (is_empty-middle (trim vol.server slash) separator _)

-- The share of a volume that was made for a request is mounted at the directory of the request's
-- name, whatever subdirectory the parameters give, where the name is not empty.
pub get_internal_mount_path-new_nfs_volume :
    (dir name : Bytes) (size : ℤ) (params : Map Bytes) (policy : Bytes) (vol : NfsVolume)
    → new_nfs_volume name size params policy ≡ some vol
    → is_empty name ≡ false
    → get_internal_mount_path dir vol ≡ join_paths dir name
unfolding get_internal_mount_path draft_volume
get_internal_mount_path-new_nfs_volume dir name size params policy vol h named =
    let c = collect_params params none_collected in
    let is_made = made name size params policy vol h in
    elim (Bool-cases (is_empty c.sub_dir)) [
      | inl blank ↦ rw (is_made.is_vol, blank) refl
      | inr given ↦ rw (is_made.is_vol, given, named) refl
    ]

-- The value of the first key that is the given one but for its case.
unfoldable pub folded_value : Bytes → Map Bytes → Option Bytes
folded_value key [] = none
folded_value key ((k, v) ∷ m) = if equal_fold k key then some v else folded_value key m

equal_fold_refl : (s : Bytes) → equal_fold s s ≡ true
unfolding equal_fold
equal_fold_refl s = eq_bytes_refl (to_lower s)

set_key_value-folded_value :
    (m : Map Bytes) (key value : Bytes) → folded_value key (set_key_value m key value) ≡ some value
unfolding set_key_value folded_value
set_key_value-folded_value [] key value = ground (arith, equal_fold_refl key)
set_key_value-folded_value ((k, v) ∷ m) key value =
    ground (arith, set_key_value-folded_value m key value)

set_key_value-other :
    (m : Map Bytes) (key value j : Bytes)
    → equal_fold j key ≡ false
    → lookup j (set_key_value m key value) ≡ lookup j m
unfolding set_key_value lookup
set_key_value-other [] key value j other = ground (arith, eq_bytes_iff key j, equal_fold_refl key)
set_key_value-other ((k, v) ∷ m) key value j other =
    ground (arith, eq_bytes_iff k j, set_key_value-other m key value j other)

-- `setKeyValueInMap` gives the key its value, in whatever case the map has it first, and leaves a
-- key that is another one in every case as it was.
pub set_key_value-lookup :
    (m : Map Bytes) (key value j : Bytes)
    → equal_fold j key ≡ false
    → (folded_value key (set_key_value m key value) ≡ some value)
      × (lookup j (set_key_value m key value) ≡ lookup j m)
set_key_value-lookup m key value j other =
    (set_key_value-folded_value m key value, set_key_value-other m key value j other)
