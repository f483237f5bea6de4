-- ===== src/Version.antt =====
-- pkg/nfs/version.go: the version of the driver, which `Run` prints. The Go runtime's names and
-- `yaml.Marshal` are parameters.
use google_cloud_platform_nf.Prelude.{◌∷◌, ◌++◌, Option, none, some}
use google_cloud_platform_nf.Text.{Bytes}
use google_cloud_platform_nf.Node.{trim_space}

pub record VersionInfo : Type 0 where
  pub driver_name : Bytes
  pub driver_version : Bytes
  pub git_commit : Bytes
  pub build_date : Bytes
  pub go_version : Bytes
  pub compiler : Bytes
  pub platform : Bytes

-- The variables that are set when the program is built.
pub record Build : Type 0 where
  pub driver_version : Bytes
  pub git_commit : Bytes
  pub build_date : Bytes

-- The package `runtime`.
pub record GoRuntime : Type 0 where
  pub version : Bytes
  pub compiler : Bytes
  pub goos : Bytes
  pub goarch : Bytes

unfoldable pub get_version : Build → GoRuntime → Bytes → VersionInfo
get_version build go driver_name = record {
  driver_name = driver_name;
  driver_version = build.driver_version;
  git_commit = build.git_commit;
  build_date = build.build_date;
  go_version = go.version;
  compiler = go.compiler;
  platform = go.goos ++ b'/' ∷ go.goarch;
}

-- `GetVersionYAML`; an error is `none`.
unfoldable pub get_version_yaml :
    (VersionInfo → Option Bytes) → Build → GoRuntime → Bytes → Option Bytes
unfolding get_version trim_space
get_version_yaml marshal build go driver_name = elim (marshal (get_version build go driver_name)) [
  | none ↦ none
  | some marshalled ↦ some (trim_space marshalled)
]
