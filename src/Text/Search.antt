-- ===== src/Text/Search.antt =====
-- `strings.HasPrefix`, `strings.Contains`, `strings.ReplaceAll`, and `strings.SplitN(s, sep, 2)`.
use google_cloud_platform_nf.Prelude.{
  ℕ, zero, suc, ◌-◌, ◌≡◌, refl, [], ◌∷◌, ◌++◌, Bool, true, false, ◌&&◌, ◌||◌, Option, none, some,
  length, arith, Bool-cases, inl, inr, if◌then◌else◌, ◌==◌,
}
use google_cloud_platform_nf.Text.{Bytes}

unfoldable pub has_prefix : Bytes → Bytes → Bool
has_prefix s [] = true
has_prefix [] (p ∷ ps) = false
has_prefix (c ∷ s) (p ∷ ps) = c == p && has_prefix s ps

unfoldable pub contains : Bytes → Bytes → Bool
unfolding has_prefix
contains [] p = has_prefix [] p
contains (c ∷ s) p = has_prefix (c ∷ s) p || contains s p

-- The first number counts the bytes of a match that are still to be passed over.
unfoldable replace_from : Bytes → Bytes → ℕ → Bytes → Bytes
unfolding has_prefix
replace_from old new skip [] = []
replace_from old new (suc n) (c ∷ s) = replace_from old new n s
replace_from old new zero (c ∷ s) =
    let hit = new ++ replace_from old new (length old - 1) s in
    let miss = c ∷ replace_from old new zero s in if has_prefix (c ∷ s) old then hit else miss

-- `strings.ReplaceAll(s, old, new)` for an `old` that is not empty.
unfoldable pub replace_all : Bytes → Bytes → Bytes → Bytes
unfolding replace_from
replace_all s old new = replace_from old new zero s

abbrev pub drop : ℕ → Bytes → Bytes
drop zero s = s
drop (suc n) [] = []
drop (suc n) (c ∷ s) = drop n s

extend_left : ℕ → Option (Bytes × Bytes) → Option (Bytes × Bytes)
extend_left c none = none
extend_left c (some (l, r)) = some (c ∷ l, r)

-- `strings.SplitN(s, sep, 2)` for a `sep` that is not empty: what stands in front of the first one
-- and what stands behind it, or nothing where there is none.
unfoldable pub split_once : Bytes → Bytes → Option (Bytes × Bytes)
unfolding has_prefix extend_left
split_once [] sep = none
split_once (c ∷ s) sep =
    let rest = extend_left c (split_once s sep) in
    if has_prefix (c ∷ s) sep then some ([], drop (length sep) (c ∷ s)) else rest

has_prefix-drop : (s p : Bytes) → has_prefix s p ≡ true → s ≡ p ++ drop (length p) s
unfolding has_prefix
has_prefix-drop s [] h = refl
has_prefix-drop [] (p ∷ ps) h = absurd (cc)
has_prefix-drop (c ∷ s) (p ∷ ps) h = ground (arith, has_prefix-drop s ps)

extend_left-eq-some :
    (c : ℕ) (parts : Option (Bytes × Bytes)) (l r : Bytes)
    → extend_left c parts ≡ some (l, r)
    → (t : Bytes) × (parts ≡ some (t, r)) × (l ≡ c ∷ t)
unfolding extend_left
extend_left-eq-some c none l r h = absurd (cc)
extend_left-eq-some c (some (t, u)) l r h = (t, ground arith, ground arith)

-- The two parts, with the separator between them, are the text.
pub split_once-eq-some : (s sep l r : Bytes) → split_once s sep ≡ some (l, r) → s ≡ l ++ sep ++ r
unfolding split_once
split_once-eq-some [] sep l r h = absurd (cc)
split_once-eq-some (c ∷ s) sep l r h = elim (Bool-cases (has_prefix (c ∷ s) sep)) [
  | inl hit ↦ ground (arith, has_prefix-drop (c ∷ s) sep hit, rw hit at h)
  | inr miss ↦
      let (t, e, f) = extend_left-eq-some c (split_once s sep) l r (rw miss at h) in
      ground (arith, e, f, split_once-eq-some s sep t r e)
]
