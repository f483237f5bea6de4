-- ===== src/Text/Split.antt =====
-- `strings.Split` and `strings.Join` for a separator of one byte.
use google_cloud_platform_nf.Prelude.{
  ℕ, ◌≡◌, ◌≢◌, refl, List, [], ◌∷◌, ◌++◌, arith, All, if◌then◌else◌, ◌==◌,
}
use google_cloud_platform_nf.Text.{Bytes}

-- A byte in front of the first part.
unfoldable pub extend_first : ℕ → List Bytes → List Bytes
extend_first c [] = (c ∷ []) ∷ []
extend_first c (p ∷ ps) = (c ∷ p) ∷ ps

unfoldable pub split : Bytes → ℕ → List Bytes
unfolding extend_first
split [] sep = [] ∷ []
split (c ∷ s) sep = let parts = split s sep in if c == sep then [] ∷ parts else extend_first c parts

unfoldable pub join : List Bytes → ℕ → Bytes
join [] sep = []
join (p ∷ []) sep = p
join (p ∷ q ∷ ps) sep = p ++ sep ∷ join (q ∷ ps) sep

abbrev pub Lacks : ℕ → Bytes → Type 0
Lacks b = All (λ c. c ≢ b)

split-ne-nil : (s : Bytes) (sep : ℕ) → split s sep ≢ []
unfolding split extend_first
split-ne-nil [] sep = λ e. cc
split-ne-nil (c ∷ s) sep = ground (arith, split-ne-nil s sep)

split-append :
    (p : Bytes) (sep : ℕ) (s : Bytes) → Lacks sep p → split (p ++ sep ∷ s) sep ≡ p ∷ split s sep
unfolding split extend_first
split-append [] sep s h = ground arith
split-append (c ∷ p) sep s h = ground (arith, split-append p sep s)

split_of_Lacks : (p : Bytes) (sep : ℕ) → Lacks sep p → split p sep ≡ p ∷ []
unfolding split extend_first
split_of_Lacks [] sep h = refl
split_of_Lacks (c ∷ p) sep h = ground (arith, split_of_Lacks p sep)

-- Parts that do not hold the separator are read back from their join.
pub split-join :
    (p : Bytes) (ps : List Bytes) (sep : ℕ)
    → All (Lacks sep) (p ∷ ps)
    → split (join (p ∷ ps) sep) sep ≡ p ∷ ps
unfolding join
split-join p [] sep h = split_of_Lacks p sep h.0
split-join p (q ∷ ps) sep h =
    rw (split-append p sep (join (q ∷ ps) sep) h.0, split-join q ps sep h.1)

extend_first-Lacks :
    (c sep : ℕ) (ps : List Bytes)
    → c ≢ sep
    → All (Lacks sep) ps
    → All (Lacks sep) (extend_first c ps)
unfolding extend_first
extend_first-Lacks c sep [] h a = ((h, tt), tt)
extend_first-Lacks c sep (p ∷ ps) h a = ((h, a.0), a.1)

-- No part of a split holds the separator.
split-Lacks : (s : Bytes) (sep : ℕ) → All (Lacks sep) (split s sep)
unfolding split
split-Lacks [] sep = (tt, tt)
split-Lacks (c ∷ s) sep = ground (arith, split-Lacks s sep, extend_first-Lacks c sep (split s sep))

join-extend_first :
    (c sep : ℕ) (ps : List Bytes) → ps ≢ [] → join (extend_first c ps) sep ≡ c ∷ join ps sep
unfolding join extend_first
join-extend_first c sep [] h = absurd (h refl)
join-extend_first c sep (p ∷ []) h = refl
join-extend_first c sep (p ∷ q ∷ ps) h = refl

join-cons_nil : (sep : ℕ) (ps : List Bytes) → ps ≢ [] → join ([] ∷ ps) sep ≡ sep ∷ join ps sep
unfolding join
join-cons_nil sep [] h = absurd (h refl)
join-cons_nil sep (p ∷ ps) h = refl

-- Joining the parts of a split gives the text back.
join-split : (s : Bytes) (sep : ℕ) → join (split s sep) sep ≡ s
unfolding split
join-split [] sep = unfold join in refl
join-split (c ∷ s) sep = ground (
  arith,
  join-split s sep,
  split-ne-nil s sep,
  join-extend_first c sep (split s sep),
  join-cons_nil sep (split s sep),
)
