-- ===== src/Node/Helpers.antt =====
-- Helpers that the handlers do not call: `makeDir` of pkg/nfs/nodeserver.go, `IsCorruptedDir` of
-- pkg/nfs/nfs.go and `getServerFromSource` of pkg/nfs/utils.go. `os.MkdirAll`, the tests of
-- k8s.io/mount-utils and `netutil.IsIPv6String` are parameters.
use google_cloud_platform_nf.Prelude.{
  ℕ, [], ◌∷◌, ◌++◌, Bool, false, Option, none, some, if◌then◌else◌,
}
use google_cloud_platform_nf.Text.{Bytes}

-- An error of `os.MkdirAll`: `os.IsExist`, or another.
pub data MkdirError : Type 0 where
  is_exist other_error : MkdirError

abbrev unless_exist : Option MkdirError → Option MkdirError
unless_exist (some other_error) = some other_error
unless_exist other = none

unfoldable make_dir :
    {S : Type 0} → (S → Bytes → ℕ → S × Option MkdirError) → S → Bytes → S × Option MkdirError
make_dir mkdir_all s pathname = let (s', err) = mkdir_all s pathname 0o755 in (s', unless_exist err)

-- `mount.PathExists` gives an error beside its answer.
unfoldable is_corrupted_dir : {E : Type 0} → (Bytes → Bool × Option E) → (E → Bool) → Bytes → Bool
is_corrupted_dir path_exists is_corrupted_mnt dir = elim (path_exists dir).1 [
  | none ↦ false
  | some path_err ↦ is_corrupted_mnt path_err
]

unfoldable get_server_from_source : (Bytes → Bool) → Bytes → Bytes
get_server_from_source is_ipv6_string server =
    if is_ipv6_string server then b'[' ∷ server ++ b']' ∷ [] else server
