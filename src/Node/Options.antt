-- ===== src/Node/Options.antt =====
-- Mount options: `collectMountOptions` and `extractReadAheadKBMountFlag` of pkg/nfs/nodeserver.go.
use google_cloud_platform_nf.Prelude.{
  ℕ, ◌≡◌, refl, List, [], ◌∷◌, Option, none, some, length, arith, All, if◌then◌else◌, Option-cases,
  inl, inr,
}
use google_cloud_platform_nf.Text.{Bytes, codes, is_empty}
use google_cloud_platform_nf.Text.Search.{has_prefix, drop}
use google_cloud_platform_nf.Text.Numerals.{ℤ, pos, negsuc, parse_int}
use google_cloud_platform_nf.Volumes.{has_byte}

-- What `^read_ahead_kb=(.+)$` captures; the dot matches no line feed.
unfoldable pub read_ahead_flag : Bytes → Option Bytes
unfolding has_prefix has_byte
read_ahead_flag opt =
    let captured = drop (length (codes "read_ahead_kb=")) opt in
    if has_prefix opt (codes "read_ahead_kb=")
    then if is_empty captured then none else if has_byte b'\n' captured then none else some captured
    else none

unfoldable pub collect_mount_options : List Bytes → List Bytes
collect_mount_options [] = []
collect_mount_options (opt ∷ mnt_flags) =
    let rest = collect_mount_options mnt_flags in
    elim (read_ahead_flag opt) [ none ↦ opt ∷ rest | some v ↦ rest ]

-- `(-1, false, nil)`, `(-1, false, err)` and `(n, true, nil)`.
pub data ReadAhead : Type 0 where
  no_flag bad_flag : ReadAhead
  read_ahead_kb : ℕ → ReadAhead

unfoldable read_ahead_of : Option ℤ → ReadAhead
read_ahead_of none = bad_flag
read_ahead_of (some (negsuc n)) = bad_flag
read_ahead_of (some (pos n)) = read_ahead_kb n

unfoldable pub extract_read_ahead_kb_mount_flag : List Bytes → ReadAhead
unfolding read_ahead_of
extract_read_ahead_kb_mount_flag [] = no_flag
extract_read_ahead_kb_mount_flag (flag ∷ mount_flags) =
    let rest = extract_read_ahead_kb_mount_flag mount_flags in
    elim (read_ahead_flag flag) [ none ↦ rest | some v ↦ read_ahead_of (parse_int v) ]

-- No option that is handed to the mount command is a read-ahead flag.
collect_mount_options-All :
    (flags : List Bytes) → All (λ o. read_ahead_flag o ≡ none) (collect_mount_options flags)
unfolding collect_mount_options
collect_mount_options-All [] = tt
collect_mount_options-All (opt ∷ flags) = elim (Option-cases (read_ahead_flag opt)) [
  | inl e ↦ rw (e, collect_mount_options) (e, collect_mount_options-All flags)
  | inr (v, e) ↦ rw (e, collect_mount_options) (collect_mount_options-All flags)
]

-- Where no read-ahead flag is found, none is refused either, and the options are handed over as they
-- are.
pub extract_read_ahead-eq-no_flag :
    (flags : List Bytes)
    → extract_read_ahead_kb_mount_flag flags ≡ no_flag
    → collect_mount_options flags ≡ flags
unfolding extract_read_ahead_kb_mount_flag collect_mount_options read_ahead_of
extract_read_ahead-eq-no_flag [] h = refl
extract_read_ahead-eq-no_flag (opt ∷ flags) h = ground (arith, extract_read_ahead-eq-no_flag flags)

flag_read :
    extract_read_ahead_kb_mount_flag (codes "vers=3" ∷ codes "read_ahead_kb=15360" ∷ [])
    ≡ read_ahead_kb 15360
unfolding extract_read_ahead_kb_mount_flag read_ahead_flag parse_int
flag_read = refl

flag_dropped :
    collect_mount_options (codes "vers=3" ∷ codes "read_ahead_kb=15360" ∷ []) ≡ codes "vers=3" ∷ []
unfolding collect_mount_options read_ahead_flag
flag_dropped = refl
