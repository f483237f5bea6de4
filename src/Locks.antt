-- ===== src/Locks.antt =====
-- pkg/nfs/utils.go: `VolumeLocks`, one lock for each key of an operation in flight. The mutex makes
-- each method one step. The set of the keys is `sets.String` of k8s.io/apimachinery, a parameter.
pub mod Exclusion
use google_cloud_platform_nf.Prelude.{◌≡◌, refl, Bool, true, false, arith, if◌then◌else◌}
use google_cloud_platform_nf.Text.{Bytes, eq_bytes, eq_bytes_iff}

pub record StringSet : Type 1 where
  pub Set : Type 0
  pub empty : Set
  pub has : Set → Bytes → Bool
  pub insert : Set → Bytes → Set
  pub delete : Set → Bytes → Set

-- What a set of strings promises.
pub record IsStringSet (sets : StringSet) : Type 0 where
  pub has_empty : (k : Bytes) → sets.has sets.empty k ≡ false
  pub has_insert :
      (s : sets.Set) (k j : Bytes)
      → sets.has (sets.insert s k) j ≡ (if eq_bytes k j then true else sets.has s j)
  pub has_delete :
      (s : sets.Set) (k j : Bytes)
      → sets.has (sets.delete s k) j ≡ (if eq_bytes k j then false else sets.has s j)

module _ (sets : StringSet) where
  pub record VolumeLocks : Type 0 where
    pub locks : sets.Set

  unfoldable pub new_volume_locks : VolumeLocks
  new_volume_locks = record { locks = sets.empty }

  unfoldable pub try_acquire : VolumeLocks → Bytes → VolumeLocks × Bool
  try_acquire vl volume_id =
      if sets.has vl.locks volume_id
      then (vl, false)
      else (record { locks = sets.insert vl.locks volume_id }, true)

  unfoldable pub release : VolumeLocks → Bytes → VolumeLocks
  release vl volume_id = record { locks = sets.delete vl.locks volume_id }

  -- The key is locked.
  abbrev pub locked : VolumeLocks → Bytes → Bool
  locked vl k = sets.has vl.locks k

module _ (sets : StringSet) (laws : IsStringSet sets) where
  -- An attempt succeeds exactly when the key is free, then locks that key alone, and otherwise
  -- changes nothing.
  pub try_acquire-locked :
      (vl : VolumeLocks sets) (k j : Bytes)
      → ((try_acquire sets vl k).1 ≡ (if locked sets vl k then false else true))
        × (locked sets (try_acquire sets vl k).0 j
            ≡ (if eq_bytes k j then true else locked sets vl j))
  unfolding try_acquire
  try_acquire-locked vl k j = ground (arith, laws.has_insert vl.locks k j, eq_bytes_iff k j)

  -- Releasing a key that was acquired gives the locks back as they were, key by key.
  pub release-try_acquire :
      (vl : VolumeLocks sets) (k j : Bytes)
      → (try_acquire sets vl k).1 ≡ true
      → locked sets (release sets (try_acquire sets vl k).0 k) j ≡ locked sets vl j
  unfolding try_acquire release
  release-try_acquire vl k j h = ground (
    arith,
    laws.has_insert vl.locks k j,
    laws.has_delete (sets.insert vl.locks k) k j,
    eq_bytes_iff k j,
  )
