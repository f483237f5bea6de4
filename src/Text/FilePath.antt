-- ===== src/Text/FilePath.antt =====
-- `filepath.Clean`, `filepath.Join` and `filepath.Dir` on Unix, which work on the text of a path alone.
use google_cloud_platform_nf.Prelude.{
  ℕ, ◌≡◌, refl, List, [], ◌∷◌, ◌++◌, Bool, true, false, if◌then◌else◌, ◌==◌, Bool-cases, inl, inr,
}
use google_cloud_platform_nf.Text.{Bytes, codes, eq_bytes, is_empty}
use google_cloud_platform_nf.Text.Split.{split, join}

abbrev slash : ℕ
slash = b'/'

abbrev is_rooted : Bytes → Bool
is_rooted [] = false
is_rooted (c ∷ s) = c == slash

-- The elements so far, the last one first, after one more ".." .
go_up : Bool → List Bytes → List Bytes
go_up true [] = []
go_up false [] = codes ".." ∷ []
go_up rooted (e ∷ es) = if eq_bytes e (codes "..") then codes ".." ∷ e ∷ es else es

clean_elements : Bool → List Bytes → List Bytes → List Bytes
unfolding go_up
clean_elements rooted stack [] = stack
clean_elements rooted stack (e ∷ es) =
    clean_elements rooted
      (if is_empty e
        then stack
        else if eq_bytes e (codes ".")
        then stack
        else if eq_bytes e (codes "..")
        then go_up rooted stack
        else e ∷ stack)
      es

reverse_onto : List Bytes → List Bytes → List Bytes
reverse_onto [] out = out
reverse_onto (e ∷ es) out = reverse_onto es (e ∷ out)

or_dot : Bytes → Bytes
or_dot [] = codes "."
or_dot (c ∷ s) = c ∷ s

unfoldable pub clean : Bytes → Bytes
unfolding clean_elements reverse_onto or_dot split join eq_bytes
clean s =
    let body = join (reverse_onto (clean_elements (is_rooted s) [] (split s slash)) []) slash in
    if is_rooted s then slash ∷ body else or_dot body

-- `filepath.Join(a, b)`: empty elements are left out.
unfoldable pub join_paths : Bytes → Bytes → Bytes
unfolding clean
join_paths [] [] = []
join_paths [] (d ∷ t) = clean (d ∷ t)
join_paths (c ∷ s) [] = clean (c ∷ s)
join_paths (c ∷ s) (d ∷ t) = clean ((c ∷ s) ++ slash ∷ d ∷ t)

is_empty-or_dot : (s : Bytes) → is_empty (or_dot s) ≡ false
unfolding or_dot
is_empty-or_dot [] = refl
is_empty-or_dot (c ∷ s) = refl

is_empty-clean : (s : Bytes) → is_empty (clean s) ≡ false
unfolding clean
is_empty-clean s = elim (Bool-cases (is_rooted s)) [
  | inl rooted ↦ rw rooted refl
  | inr loose ↦ rw loose (is_empty-or_dot _)
]

pub is_empty-join_paths : (s t : Bytes) → is_empty t ≡ false → is_empty (join_paths s t) ≡ false
unfolding join_paths
is_empty-join_paths s [] h = absurd (cc)
is_empty-join_paths [] (d ∷ t) h = is_empty-clean (d ∷ t)
is_empty-join_paths (c ∷ s) (d ∷ t) h = is_empty-clean ((c ∷ s) ++ slash ∷ d ∷ t)

-- What stands up to the last slash, that slash included.
up_to_slash : Bytes → Bytes
up_to_slash [] = []
up_to_slash (c ∷ s) =
    let rest = up_to_slash s in
    if is_empty rest then (if c == slash then c ∷ [] else []) else c ∷ rest

-- `filepath.Dir`.
unfoldable pub dir : Bytes → Bytes
unfolding up_to_slash clean
dir s = clean (up_to_slash s)

clean_climbs : clean (codes "/tmp//a/./b/../../x/") ≡ codes "/tmp/x"
unfolding clean
clean_climbs = refl

clean_relative : clean (codes "a/../..") ≡ codes ".."
unfolding clean
clean_relative = refl

join_paths_up : join_paths (codes "/tmp/pvc") (codes "../../etc") ≡ codes "/etc"
unfolding join_paths
join_paths_up = refl

dir_of_file : dir (codes "/tmp/a/b") ≡ codes "/tmp/a"
unfolding dir
dir_of_file = refl
