-- ===== src/Node.antt =====
-- pkg/nfs/nodeserver.go: the node server. The helpers of pkg/nfs/utils.go that it calls are here too.
-- `World` is the state that its handlers share with those of the controller server.
pub mod Options
pub mod Publish
pub mod Stats
pub mod KeepsLocks
pub mod LockLaws
pub mod PublishLaws
pub mod MountLaws
pub mod Finish
pub mod Progress
pub mod ReadAheadLaws
pub mod Helpers
pub mod Repeats
use google_cloud_platform_nf.Prelude.{
  ℕ, zero, suc, ◌+◌, ◌-◌, ◌*◌, ◌/◌, ◌%◌, ◌^◌, ◌≡◌, refl, List, [], ◌∷◌, ◌++◌, Bool, true, false,
  not, ◌&&◌, ◌||◌, Option, none, some, ltb, leb, if◌then◌else◌, ◌==◌,
}
use google_cloud_platform_nf.Text.{Bytes, codes, eq_bytes, is_empty}
use google_cloud_platform_nf.Text.Numerals.{ℤ, pos, negsuc, parse_uint, parse_int}
use google_cloud_platform_nf.Text.Search.{contains}
use google_cloud_platform_nf.Text.Trim.{trim_right}
use google_cloud_platform_nf.Maps.{Map, lookup, insert}
use google_cloud_platform_nf.Cluster.{node_annotation}
use google_cloud_platform_nf.Locks.{StringSet, VolumeLocks, try_acquire, release}
use google_cloud_platform_nf.Rpc.{
  Code, invalid_argument, permission_denied, aborted, internal, unimplemented, Outcome, done,
  failed, M, continue, ◌>>=◌, ◌>>◌, pure, fail, require, deferring, mount_flags,
  NodePublishVolumeRequest, NodeUnpublishVolumeRequest,
}
use google_cloud_platform_nf.Driver.{Driver, NodeServiceCapability}
use google_cloud_platform_nf.Host.{
  Host, MountError, MountCheck, is_mounted, not_mounted, is_absent, check_failed,
}
use google_cloud_platform_nf.Volumes.Params.{
  ParamKey, param_share, param_sub_dir, pvc_namespace_key, pvc_name_key, pv_name_key,
  mount_options_field, mount_permissions_field, pvc_namespace_metadata, pvc_name_metadata,
  pv_name_metadata, param_key, replace_with_map,
}
use Options.{
  collect_mount_options, ReadAhead, no_flag, bad_flag, read_ahead_kb,
  extract_read_ahead_kb_mount_flag,
}

pub record World (host : Host) (sets : StringSet) : Type 0 where
  pub host_state : host.State
  pub volume_locks : VolumeLocks sets

-- The variables that the loop over the volume context sets.
pub record PublishParams : Type 0 where
  pub base_dir : Bytes
  pub sub_dir : Bytes
  pub sub_dir_replace_map : Map Bytes
  pub mount_options : List Bytes
  pub mount_permissions : ℕ

-- `strconv.ParseUint(v, 8, 32)`.
unfoldable with_permissions : Option ℕ → PublishParams → Option PublishParams
with_permissions none p = none
with_permissions (some n) p = some (record p { mount_permissions = n })

-- One round of the loop; `none` is the error of bad permissions. The server is read here as well,
-- but the address of the publish context replaces it.
unfoldable publish_param : ParamKey → Bytes → PublishParams → Option PublishParams
unfolding with_permissions insert parse_uint
publish_param param_share v p = some (record p { base_dir = v })
publish_param param_sub_dir v p = some (record p { sub_dir = v })
publish_param pvc_namespace_key v p =
    some (record p { sub_dir_replace_map = insert pvc_namespace_metadata v p.sub_dir_replace_map })
publish_param pvc_name_key v p =
    some (record p { sub_dir_replace_map = insert pvc_name_metadata v p.sub_dir_replace_map })
publish_param pv_name_key v p =
    some (record p { sub_dir_replace_map = insert pv_name_metadata v p.sub_dir_replace_map })
publish_param mount_options_field v p =
    some (if is_empty v then p else record p { mount_options = p.mount_options ++ v ∷ [] })
publish_param mount_permissions_field v p =
    if is_empty v then some p else with_permissions (parse_uint v 8 32) p
publish_param other v p = some p

unfoldable pub publish_params : Map Bytes → Option PublishParams → Option PublishParams
unfolding publish_param param_key
publish_params m none = none
publish_params [] (some p) = some p
publish_params ((k, v) ∷ m) (some p) = publish_params m (publish_param (param_key k) v p)

-- `server:baseDir`, or `server:baseDir/subDir` with one slash between them.
unfoldable pub mount_source : Bytes → PublishParams → Bytes
unfolding replace_with_map trim_right
mount_source ip p =
    let source = ip ++ b':' ∷ p.base_dir in
    if is_empty p.sub_dir
    then source
    else trim_right source b'/' ++ b'/' ∷ replace_with_map p.sub_dir p.sub_dir_replace_map

-- `os.FileMode(n)`, a uint32.
abbrev pub file_mode : ℕ → ℕ
file_mode n = n % 2 ^ 32

-- `fmt`'s %d of an int64 that is not negative; it has nineteen digits at most.
unfoldable pub decimal_digits : ℕ → ℕ → Bytes → Bytes
decimal_digits zero n out = out
decimal_digits (suc fuel) n out =
    let rest = decimal_digits fuel (n / 10) ((b'0' + n % 10) ∷ out) in if n == 0 then out else rest

unfoldable pub decimal : ℕ → Bytes
unfolding decimal_digits
decimal n = if n == 0 then b'0' ∷ [] else decimal_digits 19 n []

abbrev pub is_space : ℕ → Bool
is_space c = c == 32 || leb 9 c && leb c 13

pub trim_space_left : Bytes → Bytes
trim_space_left [] = []
trim_space_left (c ∷ s) = if is_space c then trim_space_left s else c ∷ s

pub trim_space_right : Bytes → Bytes
trim_space_right [] = []
trim_space_right (c ∷ s) =
    let rest = trim_space_right s in if is_space c && is_empty rest then [] else c ∷ rest

-- `strings.TrimSpace`, of ASCII.
unfoldable pub trim_space : Bytes → Bytes
unfolding trim_space_left trim_space_right
trim_space s = trim_space_right (trim_space_left s)

unfoldable pub echo_command : ℕ → Bytes → Bytes
unfolding decimal
echo_command kb device =
    codes "echo " ++ decimal kb ++ codes " > /sys/class/bdi/" ++ device ++ codes "/read_ahead_kb"

unfoldable pub cat_command : Bytes → Bytes
cat_command device = codes "cat /sys/class/bdi/" ++ device ++ codes "/read_ahead_kb"

-- `updatedVal != readAheadKB`, or no number.
unfoldable pub reads_as : Option ℤ → ℕ → Bool
reads_as (some (pos n)) kb = n == kb
reads_as other kb = false

-- `lockKey` of the node server.
unfoldable pub node_lock_key : Bytes → Bytes → Bytes
node_lock_key volume_id target_path = volume_id ++ b'-' ∷ target_path

module _ (host : Host) (sets : StringSet) where
  abbrev pub Handler : Type 0 → Type 0
  Handler A = M (World host sets) A

  -- A call of the host that may fail.
  unfoldable pub call_host : Code → (host.State → host.State × Bool) → Handler (Unit {0})
  call_host code op w =
      let (h, good) = op w.host_state in
      (record w { host_state = h }, if good then done tt else failed code)

  -- `TryAcquire`, or the answer `Aborted`.
  unfoldable pub acquire : Bytes → Handler (Unit {0})
  unfolding try_acquire
  acquire key w =
      let (locks, acquired) = try_acquire sets w.volume_locks key in
      (record w { volume_locks = locks }, if acquired then done tt else failed aborted)

  unfoldable pub release_key : Bytes → Handler (Unit {0})
  unfolding release
  release_key key w = (record w { volume_locks = release sets w.volume_locks key }, done tt)

  -- `defer Release` behind `TryAcquire`.
  unfoldable pub locking : {A : Type 0} → Bytes → Handler A → Handler A
  locking key body = do acquire key; deferring (release_key key) body
