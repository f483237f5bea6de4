-- ===== src/Server.antt =====
-- pkg/nfs/utils.go and pkg/nfs/server.go: the endpoint that the gRPC server listens on, and the log
-- level of a call.
pub mod Logging
use google_cloud_platform_nf.Prelude.{
  ℕ, ◌≡◌, refl, ◌∷◌, ◌++◌, Bool, true, false, ◌||◌, Option, none, some, arith, if◌then◌else◌,
  Bool-cases, inl, inr,
}
use google_cloud_platform_nf.Text.{Bytes, codes, to_lower, eq_bytes, is_empty}
use google_cloud_platform_nf.Text.Search.{has_prefix, split_once, split_once-eq-some}

unfoldable pub has_scheme : Bytes → Bool
unfolding to_lower has_prefix
has_scheme ep =
    has_prefix (to_lower ep) (codes "unix://") || has_prefix (to_lower ep) (codes "tcp://")

unfoldable split_endpoint : Option (Bytes × Bytes) → Option (Bytes × Bytes)
split_endpoint none = none
split_endpoint (some (proto, addr)) = if is_empty addr then none else some (proto, addr)

-- `ParseEndpoint`; the error of an invalid endpoint is `none`.
unfoldable pub parse_endpoint : Bytes → Option (Bytes × Bytes)
unfolding has_scheme split_endpoint split_once
parse_endpoint ep = if has_scheme ep then split_endpoint (split_once ep (codes "://")) else none

-- The protocol and the address that `serve` listens on: a unix socket's path is made absolute, and
-- a file there is removed first.
unfoldable pub listen_address : Bytes × Bytes → Bytes × Bytes
unfolding eq_bytes
listen_address (proto, addr) =
    if eq_bytes proto (codes "unix") then (proto, b'/' ∷ addr) else (proto, addr)

unfoldable pub get_log_level : Bytes → ℕ
unfolding eq_bytes
get_log_level method =
    if eq_bytes method (codes "/csi.v1.Identity/Probe")
      || eq_bytes method (codes "/csi.v1.Node/NodeGetCapabilities")
      || eq_bytes method (codes "/csi.v1.Node/NodeGetVolumeStats")
    then 8
    else 2

split_endpoint-eq-some :
    (parts : Option (Bytes × Bytes)) (proto addr : Bytes)
    → split_endpoint parts ≡ some (proto, addr)
    → (parts ≡ some (proto, addr)) × (is_empty addr ≡ false)
unfolding split_endpoint
split_endpoint-eq-some none proto addr h = absurd (cc)
split_endpoint-eq-some (some (p, a)) proto addr h = ground arith

-- An endpoint that is accepted has one of the two schemes in any case, and is the protocol and the
-- address, which is not empty, with "://" between them.
pub parse_endpoint-eq-some :
    (ep proto addr : Bytes)
    → parse_endpoint ep ≡ some (proto, addr)
    → (has_scheme ep ≡ true) × (ep ≡ proto ++ codes "://" ++ addr) × (is_empty addr ≡ false)
unfolding parse_endpoint
parse_endpoint-eq-some ep proto addr h = elim (Bool-cases (has_scheme ep)) [
  | inr other ↦ absurd (let bad = rw (other, parse_endpoint) at h in cc)
  | inl scheme ↦
      let (parts, full) =
        split_endpoint-eq-some (split_once ep (codes "://")) proto addr
          (rw (scheme, parse_endpoint) at h) in
      (scheme, split_once-eq-some ep (codes "://") proto addr parts, full)
]

mixed_case :
    parse_endpoint (codes "UNIX://tmp/csi.sock") ≡ some (codes "UNIX", codes "tmp/csi.sock")
unfolding parse_endpoint
mixed_case = refl

no_address : parse_endpoint (codes "tcp://") ≡ none
unfolding parse_endpoint
no_address = refl
