-- ===== src/Volumes/RoundTrip.antt =====
-- What reading an id gives back: `getNfsVolFromID` after `getVolumeIDFromNfsVol`, and
-- `getNfsSnapFromID` after `getSnapshotIDFromNfsSnapshot`, of pkg/nfs/controllerserver.go.
use google_cloud_platform_nf.Prelude.{
  ℕ, ◌≡◌, ◌≢◌, refl, [], ◌∷◌, true, some, arith, if◌then◌else◌, Bool-cases, inl, inr,
}
use google_cloud_platform_nf.Text.{Bytes, lower, to_lower, equal_fold, eq_bytes_sound}
use google_cloud_platform_nf.Text.Numerals.{pos}
use google_cloud_platform_nf.Text.Split.{split, join, Lacks, split-join}
use google_cloud_platform_nf.Text.Trim.{trim, trim-Lacks, trim_idem}
use google_cloud_platform_nf.Volumes.{
  NfsVolume, NfsSnapshot, separator, slash, retain, archive, keeps_data, get_volume_id_from_nfs_vol,
  get_snapshot_id_from_nfs_snapshot, get_nfs_vol_from_id, get_nfs_snap_from_id, from_segments,
  snapshot_from_segments,
}

-- The policy as an id holds it.
abbrev stored_policy : Bytes → Bytes
stored_policy on_delete = if keeps_data on_delete then on_delete else []

-- A volume as its id holds it.
abbrev pub stored : NfsVolume → NfsVolume
stored v = record {
  id = get_volume_id_from_nfs_vol v;
  server = trim v.server slash;
  base_dir = trim v.base_dir slash;
  sub_dir = trim v.sub_dir slash;
  size = pos 0;
  uuid = v.uuid;
  on_delete = stored_policy v.on_delete;
}

-- The separator stands in no part of the id.
pub record IsPlain (v : NfsVolume) : Type 0 where
  pub server : Lacks separator v.server
  pub base_dir : Lacks separator v.base_dir
  pub sub_dir : Lacks separator v.sub_dir
  pub uuid : Lacks separator v.uuid

lower-ne : (c : ℕ) → lower c ≢ separator → c ≢ separator
unfolding lower
lower-ne c h = ground arith

Lacks-to_lower : (s : Bytes) → Lacks separator (to_lower s) → Lacks separator s
unfolding to_lower
Lacks-to_lower [] h = tt
Lacks-to_lower (c ∷ s) h = (lower-ne c h.0, Lacks-to_lower s h.1)

equal_fold-Lacks :
    (s t : Bytes) → Lacks separator (to_lower t) → equal_fold s t ≡ true → Lacks separator s
unfolding equal_fold
equal_fold-Lacks s t plain h =
    Lacks-to_lower s (rw (eq_bytes_sound (to_lower s) (to_lower t) h) plain)

keeps_data-Lacks : (s : Bytes) → keeps_data s ≡ true → Lacks separator s
unfolding keeps_data to_lower lower
keeps_data-Lacks s h = elim (Bool-cases (equal_fold s retain)) [
  | inl e ↦ equal_fold-Lacks s retain (omega arith) e
  | inr e ↦ equal_fold-Lacks s archive (omega arith) (ground (arith, h, e))
]

stored_policy-Lacks : (s : Bytes) → Lacks separator (stored_policy s)
stored_policy-Lacks s = elim (Bool-cases (keeps_data s)) [
  | inl e ↦ rw e (keeps_data-Lacks s e)
  | inr e ↦ rw e tt
]

volume_id-join :
    (v : NfsVolume)
    → get_volume_id_from_nfs_vol v
      ≡ join
          (trim v.server slash
            ∷ trim v.base_dir slash
            ∷ trim v.sub_dir slash
            ∷ v.uuid
            ∷ stored_policy v.on_delete
            ∷ [])
          separator
unfolding get_volume_id_from_nfs_vol
volume_id-join v = refl

snapshot_id-join :
    (snap : NfsSnapshot)
    → get_snapshot_id_from_nfs_snapshot snap
      ≡ join
          (trim snap.server slash
            ∷ trim snap.base_dir slash
            ∷ snap.uuid
            ∷ snap.uuid
            ∷ snap.src
            ∷ [])
          separator
unfolding get_snapshot_id_from_nfs_snapshot
snapshot_id-join snap = refl

read_volume : (id : Bytes) → get_nfs_vol_from_id id ≡ from_segments id (split id separator)
unfolding get_nfs_vol_from_id
read_volume id = refl

read_snapshot :
    (id : Bytes) → get_nfs_snap_from_id id ≡ snapshot_from_segments id (split id separator)
unfolding get_nfs_snap_from_id
read_snapshot id = refl

-- The id of a volume is read back as the volume, with the slashes at the ends of the server, the
-- base and the subdirectory trimmed, its size forgotten and any policy but retain and archive
-- forgotten, where none of the server, the base, the subdirectory and the uuid holds a '#'.
pub get_nfs_vol_from_id-get_volume_id :
    (v : NfsVolume)
    → IsPlain v
    → get_nfs_vol_from_id (get_volume_id_from_nfs_vol v) ≡ some (stored v)
get_nfs_vol_from_id-get_volume_id v plain =
    rw (read_volume (get_volume_id_from_nfs_vol v), segments) (unfold from_segments in refl)
  where
    segments :
        split (get_volume_id_from_nfs_vol v) separator
        ≡ trim v.server slash
          ∷ trim v.base_dir slash
          ∷ trim v.sub_dir slash
          ∷ v.uuid
          ∷ stored_policy v.on_delete
          ∷ []
    segments = rw (volume_id-join v) (
        split-join (trim v.server slash)
          (trim v.base_dir slash ∷ trim v.sub_dir slash ∷ v.uuid ∷ stored_policy v.on_delete ∷ [])
          separator
          (
            trim-Lacks v.server slash separator plain.server,
            (
              trim-Lacks v.base_dir slash separator plain.base_dir,
              (
                trim-Lacks v.sub_dir slash separator plain.sub_dir,
                (plain.uuid, (stored_policy-Lacks v.on_delete, tt)),
              ),
            ),
          ))

stored_policy_idem : (s : Bytes) → stored_policy (stored_policy s) ≡ stored_policy s
stored_policy_idem s = ground arith

-- A volume that was read from its id has that id again, for every volume.
pub get_volume_id-stored :
    (v : NfsVolume) → get_volume_id_from_nfs_vol (stored v) ≡ get_volume_id_from_nfs_vol v
get_volume_id-stored v = rw (
  volume_id-join (stored v),
  volume_id-join v,
  trim_idem v.server slash,
  trim_idem v.base_dir slash,
  trim_idem v.sub_dir slash,
  stored_policy_idem v.on_delete,
)

-- The id of a snapshot is read back as the snapshot, with the slashes at the ends of the server and
-- the base trimmed, where none of the server, the base, the name and the source holds a '#'.
pub get_nfs_snap_from_id-get_snapshot_id :
    (snap : NfsSnapshot)
    → Lacks separator snap.server
    → Lacks separator snap.base_dir
    → Lacks separator snap.uuid
    → Lacks separator snap.src
    → get_nfs_snap_from_id (get_snapshot_id_from_nfs_snapshot snap)
      ≡ some (record snap {
        id = get_snapshot_id_from_nfs_snapshot snap;
        server = trim snap.server slash;
        base_dir = trim snap.base_dir slash;
      })
get_nfs_snap_from_id-get_snapshot_id snap server base_dir uuid src =
    rw (read_snapshot (get_snapshot_id_from_nfs_snapshot snap), segments)
      (unfold snapshot_from_segments in refl)
  where
    segments :
        split (get_snapshot_id_from_nfs_snapshot snap) separator
        ≡ trim snap.server slash ∷ trim snap.base_dir slash ∷ snap.uuid ∷ snap.uuid ∷ snap.src ∷ []
    segments = rw (snapshot_id-join snap) (
        split-join (trim snap.server slash)
          (trim snap.base_dir slash ∷ snap.uuid ∷ snap.uuid ∷ snap.src ∷ []) separator
          (
            trim-Lacks snap.server slash separator server,
            (trim-Lacks snap.base_dir slash separator base_dir, (uuid, (uuid, (src, tt)))),
          ))
