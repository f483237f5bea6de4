-- ===== src/Rpc.antt =====
-- gRPC calls of the driver: a handler passes the state on and returns a response or a status code,
-- or it panics.
-- The text of a status message is not modelled.
use google_cloud_platform_nf.Prelude.{Bool, true, false, List, Option}
use google_cloud_platform_nf.Text.{Bytes}
use google_cloud_platform_nf.Maps.{Map}

-- The codes of google.golang.org/grpc/codes that the driver returns; an error without a code is
-- `Unknown`.
pub data Code : Type 0 where
  invalid_argument not_found already_exists permission_denied aborted unimplemented : Code
  internal unavailable unknown : Code

pub data Outcome {ℓ} (A : Type ℓ) : Type ℓ where
  done : A → Outcome A
  failed : Code → Outcome A
  panicked : Outcome A

abbrev pub M : Type 0 → Type 0 → Type 0
M S A = S → S × Outcome A

abbrev pub continue : {S A B : Type 0} → S × Outcome A → (A → M S B) → S × Outcome B
continue (s, done a) f = f a s
continue (s, failed c) f = (s, failed c)
continue (s, panicked) f = (s, panicked)

infixl 5 ◌>>=◌ ◌>>◌
abbrev pub ◌>>=◌ : {S A B : Type 0} → M S A → (A → M S B) → M S B
◌>>=◌ m f s = continue (m s) f

abbrev pub ◌>>◌ : {S B : Type 0} → M S (Unit {0}) → M S B → M S B
◌>>◌ m k s = continue (m s) (λ _. k)

abbrev pub pure : {S A : Type 0} → A → M S A
pure a s = (s, done a)

abbrev pub fail : {S A : Type 0} → Code → M S A
fail c s = (s, failed c)

-- `if !b { return nil, status.Error(code, …) }`.
abbrev pub require : {S : Type 0} → Bool → Code → M S (Unit {0})
require true c s = (s, done tt)
require false c s = (s, failed c)

-- The error of a call under another code: `status.Errorf(code, …)`.
abbrev pub recoded : {S A : Type 0} → Code → S × Outcome A → S × Outcome A
recoded c (s, done a) = (s, done a)
recoded c (s, failed e) = (s, failed c)
recoded c (s, panicked) = (s, panicked)

abbrev pub under : {S A : Type 0} → Code → M S A → M S A
under c m s = recoded c (m s)

-- `defer`: the clean-up runs on every return, and what it returns is only logged.
abbrev pub after_return : {S A B : Type 0} → M S B → S × Outcome A → S × Outcome A
after_return cleanup (s, r) = ((cleanup s).0, r)

abbrev pub deferring : {S A B : Type 0} → M S B → M S A → M S A
deferring cleanup body s = after_return cleanup (body s)

-- csi.VolumeCapability: the access type is a block device, a mount with its flags, or not set.
pub data VolumeCapability : Type 0 where
  block : VolumeCapability
  mounted_with : List Bytes → VolumeCapability
  no_access_type : VolumeCapability

-- `c.GetBlock() != nil`.
abbrev pub is_block : VolumeCapability → Bool
is_block block = true
is_block other = false

-- `GetMount().GetMountFlags()`.
abbrev pub mount_flags : VolumeCapability → List Bytes
mount_flags (mounted_with flags) = flags
mount_flags other = List.[]

pub record NodePublishVolumeRequest : Type 0 where
  pub volume_id : Bytes
  pub target_path : Bytes
  pub volume_capability : Option VolumeCapability
  pub volume_context : Map Bytes
  pub publish_context : Map Bytes
  pub readonly : Bool

pub record NodeUnpublishVolumeRequest : Type 0 where
  pub volume_id : Bytes
  pub target_path : Bytes
