-- ===== src/Text/Numerals.antt =====
-- `strconv.ParseUint` and `strconv.ParseInt` as the driver calls them; an error is `none`.
use google_cloud_platform_nf.Prelude.{
  ℕ, zero, suc, ◌+◌, ◌-◌, ◌*◌, ◌^◌, ◌≡◌, refl, [], ◌∷◌, ◌&&◌, Option, none, some, ltb, leb,
  if◌then◌else◌, ◌==◌,
}
use google_cloud_platform_nf.Text.{Bytes, codes}

-- The digits behind `n`, with no bound.
unfoldable pub value_from : ℕ → ℕ → Bytes → Option ℕ
value_from base n [] = some n
value_from base n (c ∷ s) =
    let rest = value_from base (n * base + (c - b'0')) s in
    if leb b'0' c && ltb c (b'0' + base) then rest else none

-- `strconv.ParseUint(s, base, bits)` for a base from 2 to 10.
unfoldable pub parse_uint : Bytes → ℕ → ℕ → Option ℕ
unfolding value_from
parse_uint [] base bits = none
parse_uint (c ∷ s) base bits = elim (value_from base 0 (c ∷ s)) [
  | none ↦ none
  | some n ↦ if ltb n (2 ^ bits) then some n else none
]

-- An `int64`: `negsuc n` is -(n + 1).
pub data ℤ : Type 0 where
  pos : ℕ → ℤ
  negsuc : ℕ → ℤ

negate : ℕ → ℤ
negate zero = pos 0
negate (suc n) = negsuc n

unfoldable pub below_cutoff : Option ℕ → Option ℤ
below_cutoff none = none
below_cutoff (some n) = if ltb n (2 ^ 63) then some (pos n) else none

up_to_cutoff : Option ℕ → Option ℤ
unfolding negate
up_to_cutoff none = none
up_to_cutoff (some n) = if leb n (2 ^ 63) then some (negate n) else none

-- `strconv.ParseInt(s, 10, 0)` on a 64-bit machine.
unfoldable pub parse_int : Bytes → Option ℤ
unfolding below_cutoff up_to_cutoff parse_uint
parse_int [] = none
parse_int (c ∷ s) =
    if c == b'-'
    then up_to_cutoff (parse_uint s 10 64)
    else if c == b'+'
    then below_cutoff (parse_uint s 10 64)
    else below_cutoff (parse_uint (c ∷ s) 10 64)

octal_mode : parse_uint (codes "0750") 8 32 ≡ some 488
unfolding parse_uint
octal_mode = refl

octal_overflow : parse_uint (codes "40000000000") 8 32 ≡ none
unfolding parse_uint
octal_overflow = refl

negative_numeral : parse_int (codes "-12") ≡ some (negsuc 11)
unfolding parse_int
negative_numeral = refl
