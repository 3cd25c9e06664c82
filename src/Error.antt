-- ===== src/Error.antt =====
-- rs2-core/src/error.rs: the structured error, its codes and its constructors. `extra` carries the
-- fields of the problem body that go beyond the fixed ones.
pub mod Problem
pub mod Bind
mod Tests
use rs2_runtime.Common.{ℕ, Bool, true, false, Option, none, some, ◌++◌, String}
use rs2_runtime.Common.Text.{Text, lit}
use rs2_runtime.Json.{Value, number, pos_int, string, object, end, field}

pub record RsError : Type 0 where
  pub status : ℕ
  pub code : Text
  pub title : Text
  pub detail : Text
  pub retryable : Bool
  pub retry_after_ms : Option ℕ
  pub extra : Option Value

pub data Result {ℓ} (T : Type ℓ) : Type ℓ where
  err : RsError → Result T
  ok : T → Result T

-- The operator `?`: what follows runs on a success only.
module _ {ℓ κ} {T : Type ℓ} {U : Type κ} where
  infixl 5 ◌>>=◌
  abbrev pub ◌>>=◌ : Result T → (T → Result U) → Result U
  err failed >>= next = err failed
  ok value >>= next = next value

module _ {ℓ} {T : Type ℓ} where
  infixl 5 ◌>>◌
  abbrev pub ◌>>◌ : Result (Unit {0}) → Result T → Result T
  checked >> next = checked >>= λ done. next

abbrev pub new : ℕ → String → String → Text → RsError
new status code title detail = record {
  status = status;
  code = lit code;
  title = lit title;
  detail = detail;
  retryable = false;
  retry_after_ms = none;
  extra = none;
}

abbrev pub bad_request : Text → RsError
bad_request = new 400 "bad_request" "Bad Request"

abbrev pub unauthorized : Text → RsError
unauthorized = new 401 "unauthorized" "Unauthorized"

abbrev pub forbidden : Text → RsError
forbidden = new 403 "forbidden" "Forbidden"

abbrev pub not_found : Text → RsError
not_found = new 404 "not_found" "Not Found"

abbrev pub path_unsafe : Text → RsError
path_unsafe = new 400 "path_unsafe" "Unsafe Path"

abbrev pub internal : Text → RsError
internal = new 500 "internal" "Internal Error"

-- A breached limit: the only constructor here whose errors are retryable.
abbrev pub limit_exceeded : Text → ℕ → ℕ → RsError
limit_exceeded limit observed cap =
    let e =
      new 503 "limit_exceeded" "Limit Exceeded" (lit "limit '" ++ (limit ++ lit "' exceeded")) in
    record e {
      retryable = true;
      retry_after_ms = some 2000;
      extra = some (
          object (
            field (lit "limit") (string limit) (
              field (lit "observed") (number (pos_int observed))
                (field (lit "cap") (number (pos_int cap)) end))));
    }

abbrev pub conflict : Text → RsError
conflict = new 409 "conflict" "Conflict"

abbrev pub precondition_failed : Text → RsError
precondition_failed = new 412 "precondition_failed" "Precondition Failed"

abbrev pub payload_too_large : Text → RsError
payload_too_large = new 413 "payload_too_large" "Payload Too Large"

abbrev pub validation_failed : Text → Value → RsError
validation_failed detail errors =
    let e = new 422 "validation_failed" "Validation Failed" detail in
    record e { extra = some (object (field (lit "errors") errors end)) }

abbrev pub idempotency_key_reuse : Text → RsError
idempotency_key_reuse = new 422 "idempotency_key_reuse" "Idempotency Key Reuse"

abbrev pub capability_denied : Text → RsError
capability_denied capability =
    let e =
      new 403 "capability_denied" "Capability Denied"
        (lit "capability '" ++ (capability ++ lit "' is not granted to this service")) in
    record e { extra = some (object (field (lit "capability") (string capability) end)) }

abbrev pub contract_violation : Text → RsError
contract_violation = new 502 "contract_violation" "Contract Violation"

abbrev pub engine_unavailable : Text → RsError
engine_unavailable = new 501 "engine_unavailable" "Engine Unavailable"

abbrev pub provider_unavailable : Text → RsError
provider_unavailable = new 501 "provider_unavailable" "Provider Unavailable"

abbrev pub made_retryable : RsError → RsError
made_retryable e = record e { retryable = true }
