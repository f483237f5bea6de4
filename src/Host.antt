-- ===== src/Host.antt =====
-- What the driver calls of the host: k8s.io/mount-utils, the operating system's files and the
-- commands that it runs. None of it is the driver's code: it is the parameter `Host`.
use google_cloud_platform_nf.Prelude.{ℕ, Bool, List, Option}
use google_cloud_platform_nf.Text.{Bytes}

-- `IsLikelyNotMountPoint`: its answer, or an error, `os.IsNotExist` or another.
pub data MountCheck : Type 0 where
  is_mounted not_mounted is_absent check_failed : MountCheck

-- The error of `Mount`, as far as the driver looks into it.
pub record MountError : Type 0 where
  pub is_permission : Bool
  pub message : Bytes

-- An entry of `filepath.WalkDir`.
pub record DirEntry : Type 0 where
  pub path : Bytes
  pub name : Bytes
  pub has_error : Bool

-- A `Bool` beside the state is false where the call returned an error; `none` is an error too.
pub record Host : Type 1 where
  pub State : Type 0
  pub is_likely_not_mount_point : State → Bytes → MountCheck
  pub mount : State → Bytes → Bytes → Bytes → List Bytes → State × Option MountError
  pub cleanup_mount : State → Bytes → State × Bool
  pub mkdir_all : State → Bytes → ℕ → State × Bool
  pub remove_all : State → Bytes → State × Bool
  pub rename : State → Bytes → Bytes → State × Bool
  pub lstat_mode : State → Bytes → Option ℕ
  pub chmod : State → Bytes → ℕ → State × Bool
  pub walk_dir : State → Bytes → List DirEntry
  pub stat_size : State → Bytes → Option ℕ
  pub mountpoint_device : State → Bytes → Option Bytes
  pub shell : State → Bytes → State × Option Bytes
  pub tar_create : State → Bytes → Bytes → State × Bool
  pub tar_extract : State → Bytes → Bytes → State × Bool
  pub copy_all : State → Bytes → Bytes → State × Bool
