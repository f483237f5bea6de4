-- ===== src/Text/Trim.antt =====
-- `strings.Trim` and `strings.TrimRight` for a cutset of one byte.
use google_cloud_platform_nf.Prelude.{ℕ, ◌≡◌, refl, [], ◌∷◌, ◌&&◌, arith, if◌then◌else◌, ◌==◌}
use google_cloud_platform_nf.Text.{Bytes, is_empty}
use google_cloud_platform_nf.Text.Split.{Lacks}

unfoldable trim_left : Bytes → ℕ → Bytes
trim_left [] b = []
trim_left (c ∷ s) b = if c == b then trim_left s b else c ∷ s

unfoldable pub trim_right : Bytes → ℕ → Bytes
trim_right [] b = []
trim_right (c ∷ s) b = let rest = trim_right s b in if c == b && is_empty rest then [] else c ∷ rest

unfoldable pub trim : Bytes → ℕ → Bytes
unfolding trim_left trim_right
trim s b = trim_right (trim_left s b) b

trim_left-Lacks : (s : Bytes) (b sep : ℕ) → Lacks sep s → Lacks sep (trim_left s b)
unfolding trim_left
trim_left-Lacks [] b sep h = tt
trim_left-Lacks (c ∷ s) b sep h = ground (arith, trim_left-Lacks s b sep)

trim_right-Lacks : (s : Bytes) (b sep : ℕ) → Lacks sep s → Lacks sep (trim_right s b)
unfolding trim_right
trim_right-Lacks [] b sep h = tt
trim_right-Lacks (c ∷ s) b sep h = ground (arith, trim_right-Lacks s b sep)

pub trim-Lacks : (s : Bytes) (b sep : ℕ) → Lacks sep s → Lacks sep (trim s b)
unfolding trim
trim-Lacks s b sep h = trim_right-Lacks (trim_left s b) b sep (trim_left-Lacks s b sep h)

trim_right_idem : (s : Bytes) (b : ℕ) → trim_right (trim_right s b) b ≡ trim_right s b
unfolding trim_right
trim_right_idem [] b = refl
trim_right_idem (c ∷ s) b = ground (arith, trim_right_idem s b)

trim_left-trim_right :
    (s : Bytes) (b : ℕ) → trim_left (trim_right (trim_left s b) b) b ≡ trim_right (trim_left s b) b
unfolding trim_left trim_right
trim_left-trim_right [] b = refl
trim_left-trim_right (c ∷ s) b = ground (arith, trim_left-trim_right s b)

-- Trimming twice is trimming once.
pub trim_idem : (s : Bytes) (b : ℕ) → trim (trim s b) b ≡ trim s b
unfolding trim
trim_idem s b = rw (trim_left-trim_right s b) (trim_right_idem (trim_left s b) b)
