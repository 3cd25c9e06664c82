-- ===== src/Pipeline/Executor/Base.antt =====
-- rs2-core/src/pipeline/executor.rs: the limits, what a run is given and gives, and the copies of messages.
--
-- The requests of a run are told apart by the places where they are made: the steps and elements
-- that lead there, and the attempts of the segments around it. The world answers each, by its place,
-- and so stands for every interleaving of concurrent branches; a run lists its requests branch by branch.
use rs2_runtime.Common.{
  ℕ, ◌+◌, ◌*◌, ◌/◌, leb, ◌&&◌, Bool, Option, none, some, List, [], ◌∷◌, ◌++◌, length, if◌then◌else◌,
}
use rs2_runtime.Common.Text.{Text, lit, trim_start_matches}
use rs2_runtime.Common.Text.Decimal.{decimal}
use rs2_runtime.Error.{Result, ok, err, RsError}
use rs2_runtime.Error.Problem.{to_problem_json}
use rs2_runtime.Json.{Value, Fields, unwrap_or}
use rs2_runtime.Message.{
  Message, HeaderApi, Method, Body, bytes, stream, Bytes, response, set_header,
}
use rs2_runtime.Message.MediaTypes.{new}
use rs2_runtime.Message.Materialize.{materialize}
use rs2_runtime.Message.Content.{Codec, from_string, from_json, is_stream}
use rs2_runtime.Retry.{Floats, RetryPolicy}
use rs2_runtime.PathPattern.Select.{UrlView}
use rs2_runtime.PathPattern.Resolve.{Run, out_of_fuel, returned, unterminated, resolve}
use rs2_runtime.Outbound.{ExternalDispatch}
use rs2_runtime.Pipeline.Condition.{Numbers}

-- Without `wall_clock`, which bounds a run from outside.
pub record PipelineLimits : Type 0 where
  pub max_steps : ℕ
  pub max_fanout : ℕ
  pub max_fanout_bytes : ℕ
  pub max_depth : ℕ
  pub default_concurrency : ℕ
  pub materialize_cap : ℕ
  pub snapshot_threshold : ℕ

abbrev pub default_limits : PipelineLimits
default_limits = record {
  max_steps = 1000;
  max_fanout = 1000;
  max_fanout_bytes = 256 * 1024 * 1024;
  max_depth = 16;
  default_concurrency = 12;
  materialize_cap = 100 * 1024 * 1024;
  snapshot_threshold = 1024 * 1024;
}

pub data Hop : Type 0 where
  at_step : ℕ → Hop
  element : Text → Hop
  attempt : ℕ → Hop

-- The innermost hop comes first.
abbrev pub Place : Type 0
Place = List Hop

-- The `key_path` of a place, which has no attempts.
unfoldable pub key_path : Place → Text
key_path [] = []
key_path (at_step i ∷ p) = key_path p ++ b'/' ∷ decimal i
key_path (element name ∷ p) = key_path p ++ (lit "/split[" ++ (name ++ lit "]"))
key_path (attempt n ∷ p) = key_path p

-- What the executor calls: the libraries, the requester (`answer`) and the outbound adapter (`send`), each
-- by the place and the attempt of a call, and the order in which the futures of a fan-out complete,
-- by their indexes, under a concurrency limit.
pub record World : Type 1 where
  pub api : HeaderApi
  pub floats : Floats
  pub codec : Codec
  pub numbers : Numbers
  pub parse_f64 : Text → Option Value
  pub method_of : Text → Option Method
  pub is_name : Text → Bool
  pub iter : api.Map → List (Text × Text)
  pub decode : Text → Text
  pub sha256 : Bytes → Bytes
  pub draw : ℕ → ℕ
  pub retry_after : Text → Option ℕ
  pub jsonata : Text → Text → Fields → Result Value
  pub trace_id : Text
  pub answer : Place → ℕ → Message (api.Map) → Message (api.Map)
  pub send : Place → ℕ → ℕ → Message (api.Map) → Result (Message (api.Map))
  pub completion : ℕ → Place → ℕ → List ℕ

-- Without the report of the steps.
pub record Executor (F : Type 0) : Type 0 where
  pub limits : PipelineLimits
  pub retry : RetryPolicy F
  pub invocation_id : Text
  pub initial_vars : Fields
  pub elevate_role : Option Text
  pub url : UrlView
  pub external : Option ExternalDispatch

pub data Flow (M : Type 0) : Type 0 where
  continue exit abort : M → Flow M

-- A request, with its grant where it leaves the node.
pub record Sent (M : Type 0) : Type 0 where
  pub place : Place
  pub grant : Option ℕ
  pub attempt_number : ℕ
  pub request : M

-- How a run ends: with an error, with a panic or with a value.
pub data Ended {ℓ} (A : Type ℓ) : Type ℓ where
  fails : RsError → Ended A
  panics : Ended A
  gives : A → Ended A

abbrev pub Exec : Type 0 → Type 0 → Type 0
Exec M A = List (Sent M) × Ended A

abbrev pub ended : {A : Type 0} → Result A → Ended A
ended (err e) = fails e
ended (ok a) = gives a

module _ {M A : Type 0} where
  abbrev pub done : A → Exec M A
  done a = ([], gives a)

  abbrev pub lift : Result A → Exec M A
  lift r = ([], ended r)

module _ {M A B : Type 0} where
  abbrev pub chain : List (Sent M) → Ended A → (A → Exec M B) → Exec M B
  chain log (fails e) next = (log, fails e)
  chain log panics next = (log, panics)
  chain log (gives a) next = let (later, out) = next a in (log ++ later, out)

  infixl 5 ◌>>=◌
  abbrev pub ◌>>=◌ : Exec M A → (A → Exec M B) → Exec M B
  (log, out) >>= next = chain log out next

abbrev pub clone_body : Body → Option Body
clone_body body = elim body.payload [
  | bytes b ↦ some (record body { payload = bytes b; size = some (length b) })
  | stream cs ↦ none
]

abbrev pub and_then_body : Option Body → Option Body
and_then_body none = none
and_then_body (some body) = clone_body body

abbrev pub clone_with_body : {H : Type 0} → Message H → Option Body → Message H
clone_with_body msg body = record msg { body = body }

abbrev cloned : {H : Type 0} → Message H → Option Body → Option (Message H)
cloned msg none = none
cloned msg (some body) = some (clone_with_body msg (some body))

abbrev pub try_clone : {H : Type 0} → Message H → Option (Message H)
try_clone msg = elim msg.body [
  | none ↦ some (clone_with_body msg none)
  | some body ↦ cloned msg (clone_body body)
]

abbrev pub put_body : {H : Type 0} → Message H → Body × Result Bytes → Result (Message H)
put_body msg (body, err e) = err e
put_body msg (body, ok raw) = ok (record msg { body = some body })

abbrev pub materialize_body : {H : Type 0} → ℕ → Message H → Option Body → Result (Message H)
materialize_body cap msg none = ok msg
materialize_body cap msg (some body) =
    if is_stream body then put_body msg (materialize cap body) else ok msg

-- `materialize_if_needed`.
unfoldable pub materialize_if_needed : {H : Type 0} → ℕ → Message H → Result (Message H)
unfolding materialize
materialize_if_needed cap msg = materialize_body cap msg msg.body

-- `map(|s| s.as_u16()).unwrap_or(d)` of a status.
abbrev pub status_or : ℕ → Option ℕ → ℕ
status_or d s = unwrap_or s d

-- The name of a captured variable.
abbrev pub captured_name : Text → Text
captured_name capture = trim_start_matches b'$' capture

-- The fuel of a resolution is enough, so that the first case does not occur.
abbrev pub resolved : Text → Run Text → Result Text
resolved pattern out_of_fuel = err (unterminated pattern)
resolved pattern (returned r) = r

module _ (w : World) where
  abbrev pub Msg : Type 0
  Msg = Message (w.api.Map)

  -- `Message::ok_json` and `Message::error_response`.
  abbrev pub ok_json : Msg → Value → Msg
  ok_json template v = response w.api template 200 (some (from_json w.codec v))

  -- `StatusCode::from_u16` with a default.
  abbrev status_code_or_500 : ℕ → ℕ
  status_code_or_500 s = if leb 100 s && leb s 999 then s else 500

  abbrev with_retry_after : Option ℕ → Msg → Msg
  with_retry_after none msg = msg
  with_retry_after (some ms) msg =
      set_header w.api (lit "retry-after") (decimal ((ms + 999) / 1000)) msg

  abbrev pub error_response : Msg → RsError → Msg
  error_response msg e =
      let problem = w.codec.display (to_problem_json e msg.tenant w.trace_id) in
      with_retry_after e.retry_after_ms (
        response w.api msg (status_code_or_500 e.status)
          (some (from_string w.codec.encode problem (new (lit "application/problem+json")))))

  -- `path_pattern::resolve`.
  unfoldable pub resolve_text : UrlView → Fields → Text → Result Text
  unfolding resolve
  resolve_text view scope pattern =
      resolved pattern (resolve w.codec.display w.decode pattern view scope)
