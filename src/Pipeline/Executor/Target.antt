-- ===== src/Pipeline/Executor/Target.antt =====
-- The parts of the request of a call in `run_call` of rs2-core/src/pipeline/executor.rs that are made of its
-- message and its URL alone: the idempotency key, the principal, the body and the target.
use rs2_runtime.Common.{
  ℕ, Bool, true, false, Option, none, some, List, [], ◌∷◌, ◌++◌, any, ◌==◌, if◌then◌else◌,
}
use rs2_runtime.Common.Text.{Text, lit, text_eq, split_once}
use rs2_runtime.Crypto.{to_hex}
use rs2_runtime.Error.{Result, ok, err, RsError, capability_denied}
use rs2_runtime.Error.Problem.{put}
use rs2_runtime.Json.{string, Fields, end, unwrap_or}
use rs2_runtime.Message.{Method, get, head, Principal, Body, Bytes}
use rs2_runtime.Message.Url.{pair_of}
use rs2_runtime.Message.Content.{is_stream}
use rs2_runtime.Retry.{EffectClass, keyed, unsafe}
use rs2_runtime.Outbound.{ExternalDispatch, url_host, authorize}
use rs2_runtime.Pipeline.Executor.Base.{clone_body}

-- `derive_key`.
unfoldable pub derive_key : (Text → Bytes) → (Bytes → Bytes) → Text → Text → Text
unfolding to_hex
derive_key encode sha256 invocation_id path =
    to_hex (sha256 (encode invocation_id ++ 0 ∷ encode path))

-- The principal of a call. The role is the mount's.
abbrev pub no_one : Principal
no_one = record { id = []; roles = []; kind = lit "agent"; extra = end }

abbrev pub with_role : Text → Principal → Principal
with_role role p =
    if any (λ r. text_eq r role) p.roles then p else record p { roles = p.roles ++ role ∷ [] }

abbrev pub elevated : Bool → Option Text → Option Principal → Option Principal
elevated true (some role) principal = some (with_role role (unwrap_or principal no_one))
elevated _ _ principal = principal

abbrev pub needs_key : EffectClass → Bool
needs_key keyed = true
needs_key unsafe = true
needs_key _ = false

abbrev pub has_no_body : Method → Bool
has_no_body get = true
has_no_body head = true
has_no_body _ = false

-- The copy that every attempt sends, and the stream that the first one sends.
abbrev pub Bodies : Type 0
Bodies = Option Body × Option Body

abbrev pub taken : Option Body → Bodies
taken none = (none, none)
taken (some body) = if is_stream body then (none, some body) else (clone_body body, none)

abbrev pub first_of : Option Body → Option Body → Option Body
first_of none later = later
first_of (some body) later = some body

abbrev pub body_for : Bodies → ℕ → Option Body
body_for (cloneable, one_shot) n = first_of cloneable (if n == 1 then one_shot else none)

abbrev pub query_fields : List Text → Fields → Fields
query_fields [] ctx = ctx
query_fields (pair ∷ pairs) ctx =
    let (k, v) = pair_of pair (split_once b'=' pair) in query_fields pairs (put k (string v) ctx)

-- Where a call goes: to the requester, or out by the grant of that index.
pub data CallTarget : Type 0 where
  inside : CallTarget
  outside : ℕ → CallTarget

abbrev pub is_inside : CallTarget → Bool
is_inside inside = true
is_inside (outside g) = false

abbrev pub no_grants : Text → RsError
no_grants url = capability_denied (
    lit "httpOut to '"
    ++ (unwrap_or (url_host url) [] ++ lit "' (this pipeline's mount has no httpOut grants)"))

abbrev pub as_outside : Result ℕ → Result CallTarget
as_outside (err e) = err e
as_outside (ok g) = ok (outside g)

abbrev pub target_of : Option ExternalDispatch → Text → Bool → Result CallTarget
target_of external url false = ok inside
target_of none url true = err (no_grants url)
target_of (some ext) url true = as_outside (authorize ext url)
