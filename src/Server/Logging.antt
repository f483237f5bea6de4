-- ===== src/Server/Logging.antt =====
-- `logGRPC` of pkg/nfs/utils.go, through which every call of the driver goes.
use google_cloud_platform_nf.Prelude.{ℕ, ◌≡◌, ◌≢◌, refl, List, [], ◌∷◌, length}
use google_cloud_platform_nf.Text.{Bytes}
use google_cloud_platform_nf.Rpc.{M, Outcome, done, failed, panicked}
use google_cloud_platform_nf.Server.{get_log_level}

-- A line of the log, with its level, or an error. The texts are left out.
pub data LogLine : Type 0 where
  grpc_call grpc_request grpc_response : ℕ → LogLine
  grpc_error : LogLine

-- What is logged behind the handler; a panic leaves the function.
unfoldable last_lines : {A : Type 0} → ℕ → Outcome A → List LogLine
last_lines level (done a) = grpc_response level ∷ []
last_lines level (failed c) = grpc_error ∷ []
last_lines level panicked = []

unfoldable pub log_grpc : {S A : Type 0} → Bytes → M S A → S → List LogLine × S × Outcome A
unfolding last_lines get_log_level
log_grpc method handler s =
    let (s', r) = handler s in
    let level = get_log_level method in
    (grpc_call level ∷ grpc_request level ∷ last_lines level r, s', r)

-- The interceptor changes nothing of what the handler does and answers, and logs three lines, if
-- the handler does not panic.
pub log_grpc_transparent :
    {S A : Type 0} (method : Bytes) (handler : M S A) (s : S) (r : Outcome A)
    → (handler s).1 ≡ r
    → r ≢ panicked
    → ((log_grpc method handler s).1 ≡ (handler s).0)
      × ((log_grpc method handler s).2 ≡ r)
      × (length (log_grpc method handler s).0 ≡ 3)
unfolding log_grpc last_lines
log_grpc_transparent method handler s (done a) e calm = (refl, e, rw e refl)
log_grpc_transparent method handler s (failed c) e calm = (refl, e, rw e refl)
log_grpc_transparent method handler s panicked e calm = absurd (calm refl)
