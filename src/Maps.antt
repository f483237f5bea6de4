-- ===== src/Maps.antt =====
-- Go maps with string keys, as association lists in the order of a `range` loop.
use mathlib.Core.List.{Mem, mem-cons, mem-cons_self, not-mem-nil}
use mathlib.Core.Logic.Or
use mathlib.Core.HLevel.{¬_prop}
use google_cloud_platform_nf.Prelude.{
  ◌≢◌, inl, inr, Bool-cases, ◌≡◌, refl, List, [], ◌∷◌, Option, none, some, arith, if◌then◌else◌,
}
use google_cloud_platform_nf.Text.{Bytes, eq_bytes, eq_bytes_iff, eq_bytes_sound}

abbrev pub Map {ℓ} : Type ℓ → Type ℓ
Map V = List (Bytes × V)

module _ {ℓ} {V : Type ℓ} where
  unfoldable pub lookup : Bytes → Map V → Option V
  lookup k [] = none
  lookup k ((j, v) ∷ m) = if eq_bytes j k then some v else lookup k m

  -- `m[k] = v`.
  unfoldable pub insert : Bytes → V → Map V → Map V
  insert k v [] = (k, v) ∷ []
  insert k v ((j, w) ∷ m) = if eq_bytes j k then (j, v) ∷ m else (j, w) ∷ insert k v m

  -- `delete(m, k)`.
  unfoldable pub remove : Bytes → Map V → Map V
  remove k [] = []
  remove k ((j, w) ∷ m) = if eq_bytes j k then remove k m else (j, w) ∷ remove k m

  unfoldable pub keys : Map V → List Bytes
  keys [] = []
  keys ((j, w) ∷ m) = j ∷ keys m

  pub lookup-insert :
      (k j : Bytes) (v : V) (m : Map V)
      → lookup j (insert k v m) ≡ (if eq_bytes k j then some v else lookup j m)
  unfolding lookup insert
  lookup-insert k j v [] = refl
  lookup-insert k j v ((i, w) ∷ m) =
      ground (arith, eq_bytes_iff k j, eq_bytes_iff i k, eq_bytes_iff i j, lookup-insert k j v m)

  pub lookup-remove :
      (k j : Bytes) (m : Map V)
      → lookup j (remove k m) ≡ (if eq_bytes k j then none else lookup j m)
  unfolding lookup remove
  lookup-remove k j [] = ground arith
  lookup-remove k j ((i, w) ∷ m) =
      ground (arith, eq_bytes_iff k j, eq_bytes_iff i k, eq_bytes_iff i j, lookup-remove k j m)

  pub mem-keys : (k : Bytes) (m : Map V) → lookup k m ≢ none → Mem k (keys m)
  unfolding lookup keys
  mem-keys k [] h = absurd (h refl)
  mem-keys k ((j, w) ∷ m) h = elim (Bool-cases (eq_bytes j k)) [
    | inl same ↦ rw (eq_bytes_sound j k same) mem-cons_self
    | inr other ↦ mem-cons.1 (Or.inr (mem-keys k m (λ e. h (rw other e))))
  ]

  pub lookup_of_mem : (k : Bytes) (m : Map V) → Mem k (keys m) → lookup k m ≢ none
  unfolding lookup keys
  lookup_of_mem k [] h = absurd (not-mem-nil h)
  lookup_of_mem k ((j, w) ∷ m) h = elim (Bool-cases (eq_bytes j k)) [
    | inl same ↦ rw same (λ e. cc)
    | inr other ↦ rw other (
        Or.elim ¬_prop (mem-cons.0 h) (λ e. absurd (ground (arith, eq_bytes_iff j k)))
          (lookup_of_mem k m))
  ]
