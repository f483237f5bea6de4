-- ===== src/Locks/Exclusion.antt =====
-- Requests that run at the same time: pkg/nfs/utils.go, `TryAcquire` and `Release`, as the handlers
-- of pkg/nfs/nodeserver.go and pkg/nfs/controllerserver.go call them, one after the other.
use google_cloud_platform_nf.Prelude.{
  ◌≡◌, List, [], ◌∷◌, Bool, true, false, ◌||◌, arith, if◌then◌else◌,
}
use google_cloud_platform_nf.Text.{Bytes, eq_bytes, eq_bytes_iff}
use google_cloud_platform_nf.Locks.{
  StringSet, IsStringSet, VolumeLocks, new_volume_locks, try_acquire, release, locked,
}

-- The lock table, and the keys of the requests that got past `TryAcquire` and have not returned.
pub record System (sets : StringSet) : Type 0 where
  pub table : VolumeLocks sets
  pub running : List Bytes

unfoldable pub runs : Bytes → List Bytes → Bool
runs k [] = false
runs k (j ∷ js) = eq_bytes j k || runs k js

-- One request of that key returns.
unfoldable pub retire : Bytes → List Bytes → List Bytes
retire k [] = []
retire k (j ∷ js) = if eq_bytes j k then js else j ∷ retire k js

-- No two requests of one key run at once.
abbrev pub AllDistinct : List Bytes → Type 0
AllDistinct [] = Unit {0}
AllDistinct (j ∷ js) = (runs j js ≡ false) × AllDistinct js

pub record IsExclusive (sets : StringSet) (y : System sets) : Type 0 where
  pub agrees : (k : Bytes) → locked sets y.table k ≡ runs k y.running
  pub distinct : AllDistinct y.running

-- A request arrives and takes its lock, or is turned away; a running one returns and releases.
pub data Step (sets : StringSet) (y : System sets) : System sets → Type 0 where
  enter :
      (k : Bytes) (z : System sets)
      → (try_acquire sets y.table k).1 ≡ true
      → z ≡ record { table = (try_acquire sets y.table k).0; running = k ∷ y.running }
      → Step sets y z
  turned_away :
      (k : Bytes) (z : System sets)
      → (try_acquire sets y.table k).1 ≡ false
      → z ≡ record { table = (try_acquire sets y.table k).0; running = y.running }
      → Step sets y z
  leave :
      (k : Bytes) (z : System sets)
      → runs k y.running ≡ true
      → z ≡ record { table = release sets y.table k; running = retire k y.running }
      → Step sets y z

pub data Reach (sets : StringSet) (y : System sets) : System sets → Type 0 where
  here : Reach sets y y
  next : {z w : System sets} → Reach sets y z → Step sets z w → Reach sets y w

unfoldable pub start : (sets : StringSet) → System sets
unfolding new_volume_locks
start sets = record { table = new_volume_locks sets; running = [] }

runs-retire :
    (k j : Bytes) (js : List Bytes)
    → AllDistinct js
    → runs j (retire k js) ≡ (if eq_bytes k j then false else runs j js)
unfolding runs retire
runs-retire k j [] d = ground arith
runs-retire k j (i ∷ js) d =
    ground (arith, eq_bytes_iff i k, eq_bytes_iff i j, eq_bytes_iff k j, runs-retire k j js)

retire-AllDistinct : (k : Bytes) (js : List Bytes) → AllDistinct js → AllDistinct (retire k js)
unfolding retire
retire-AllDistinct k [] d = tt
retire-AllDistinct k (i ∷ js) d =
    ground (arith, retire-AllDistinct k js, runs-retire k i js, eq_bytes_iff k i, eq_bytes_iff i k)

module _ (sets : StringSet) (laws : IsStringSet sets) where
  enter-IsExclusive :
      (y : System sets) (k : Bytes)
      → IsExclusive sets y
      → (try_acquire sets y.table k).1 ≡ true
      → IsExclusive sets
          (record { table = (try_acquire sets y.table k).0; running = k ∷ y.running })
  unfolding try_acquire runs
  enter-IsExclusive y k v h = record {
    agrees = λ j. ground (arith, laws.has_insert y.table.locks k j, v.agrees j, eq_bytes_iff k j);
    distinct = ground (arith, v.agrees k, v.distinct);
  }

  turned_away-IsExclusive :
      (y : System sets) (k : Bytes)
      → IsExclusive sets y
      → (try_acquire sets y.table k).1 ≡ false
      → IsExclusive sets (record { table = (try_acquire sets y.table k).0; running = y.running })
  unfolding try_acquire
  turned_away-IsExclusive y k v h = record {
    agrees = λ j. ground (arith, v.agrees j);
    distinct = v.distinct;
  }

  leave-IsExclusive :
      (y : System sets) (k : Bytes)
      → IsExclusive sets y
      → IsExclusive sets (record { table = release sets y.table k; running = retire k y.running })
  unfolding release
  leave-IsExclusive y k v = record {
    agrees = λ j. ground (
      arith,
      laws.has_delete y.table.locks k j,
      v.agrees j,
      runs-retire k j y.running v.distinct,
    );
    distinct = retire-AllDistinct k y.running v.distinct;
  }

  Step-IsExclusive : {y z : System sets} → Step sets y z → IsExclusive sets y → IsExclusive sets z
  Step-IsExclusive {y} (enter k z got e) v = rw e (enter-IsExclusive y k v got)
  Step-IsExclusive {y} (turned_away k z got e) v = rw e (turned_away-IsExclusive y k v got)
  Step-IsExclusive {y} (leave k z got e) v = rw e (leave-IsExclusive y k v)

  start-IsExclusive : IsExclusive sets (start sets)
  unfolding start runs
  start-IsExclusive = record { agrees = λ k. laws.has_empty k; distinct = tt }

  -- In every interleaving of requests no two of one key run at once, and a key is locked exactly
  -- while a request of it runs.
  pub Reach-IsExclusive : {y : System sets} → Reach sets (start sets) y → IsExclusive sets y
  Reach-IsExclusive here = start-IsExclusive
  Reach-IsExclusive (next r st) = Step-IsExclusive st (Reach-IsExclusive r)
