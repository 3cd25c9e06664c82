-- ===== src/Pipeline/Executor/Sample.antt =====
-- A world, an executor and pipelines to run. The requester answers `/down` with 503 and all else with 200.
use rs2_runtime.Common.{ℕ, true, false, Option, none, some, List, [], ◌∷◌, map, if◌then◌else◌}
use rs2_runtime.Common.Text.{Text, lit, texts, text_eq}
use rs2_runtime.Common.Fallible.{passed}
use rs2_runtime.Common.Sort.{insert_by, sort_by}
use rs2_runtime.Common.Arrangement.{in_order}
use rs2_runtime.Crypto.{to_hex}
use rs2_runtime.Error.{ok}
use rs2_runtime.Json.{null, string, array, nil, cons, end, lookup}
use rs2_runtime.Message.{Message, Method, get, post, external}
use rs2_runtime.Message.Headers.{header_list}
use rs2_runtime.Message.Url.{parse, segments, query_param}
use rs2_runtime.Message.Materialize.{materialize}
use rs2_runtime.Message.Content.{Codec, as_json, as_any, as_raw_string}
use rs2_runtime.Retry.{
  Floats, RetryPolicy, keyed, no_jitter, default_for_method, permits_retry, retryable_status,
  attempt_cap, delay, backoff,
}
use rs2_runtime.Retry.Loop.{retry_request}
use rs2_runtime.PathPattern.Resolve.{resolve, resolve_from}
use rs2_runtime.PathPattern.Parse.{split_str}
use rs2_runtime.Outbound.{is_external_url, lower_starts, slice_to}
use rs2_runtime.Pipeline.Spec.{
  CallSpec, serial, stop, StepParts, SpecParts, PipelineSpec, spec, last_step, step, no_sub, sub,
}
use rs2_runtime.Pipeline.Segments.{boundaries, windows, linear, whole, plan}
use rs2_runtime.Pipeline.Executor.Base.{
  World, Executor, Place, Sent, default_limits, key_path, materialize_if_needed, resolve_text,
}
use rs2_runtime.Pipeline.Executor.Target.{derive_key}
use rs2_runtime.Pipeline.Executor.Request.{
  interpolation_context, body_text, resolved_header, resolve_headers, request_for, prepare,
  with_headers,
}
use rs2_runtime.Pipeline.Executor.Call.{sent_from, run_call}
use rs2_runtime.Pipeline.Executor.Step.{step_condition_passes, run_transform, run_step}
use rs2_runtime.Pipeline.Executor.Fanout.{
  parse_u64, name_before, joined_fields, join, run_elements, named_results, run_split,
}
use rs2_runtime.Pipeline.Executor.Parallel.{set_slot, run_branches, merge, run_parallel}
use rs2_runtime.Pipeline.Executor.Serial.{
  run_segment, snapshot_body, run_attempts, run_retried, run_serial,
}
use rs2_runtime.Pipeline.Executor.Run.{run_conditional, run_tee, run_pipeline, run}

abbrev pub floats : Floats
floats = record { F = ℕ; of_u64 = λ n. n; times = λ a b. a; powi = λ a b. a; to_u64 = λ n. n }

abbrev pub codec : Codec
codec = record {
  encode = λ t. t;
  from_utf8 = λ b. some b;
  from_utf8_lossy = λ b. b;
  base64 = λ b. b;
  from_slice = λ b. passed (array (cons (string (lit "x")) (cons (string (lit "y")) nil)));
  display = λ v. elim v [ string s ↦ s | _ ↦ lit "…" ];
}

abbrev pub method_named : Text → Option Method
unfolding text_eq
method_named t =
    if text_eq t (lit "GET") then some get else if text_eq t (lit "POST") then some post else none

abbrev pub Msg : Type 0
Msg = Message (header_list.Map)

abbrev pub request : Text → Msg
request path = record {
  method = get;
  url = record { path = path; query = []; base_path = []; service_path = path };
  headers = [];
  status = none;
  body = none;
  tenant = lit "acme";
  principal = none;
  source = external;
  name = none;
  depth = 0;
}

abbrev pub status_at : Text → ℕ
unfolding text_eq
status_at path = if text_eq path (lit "/down") then 503 else 200

abbrev pub answer : Place → ℕ → Msg → Msg
answer place n req = record req { status = some (status_at req.url.path); body = none }

abbrev pub upwards : ℕ → Place → ℕ → List ℕ
upwards c place n = 0 ∷ 1 ∷ []

abbrev pub world : (ℕ → Place → ℕ → List ℕ) → World
world completion = record {
  api = header_list;
  floats = floats;
  codec = codec;
  numbers = record { is_nonzero = λ n. true; partial_cmp = λ m n. none; number_eq = λ m n. false };
  parse_f64 = λ t. none;
  method_of = method_named;
  is_name = λ t. true;
  iter = λ m. m;
  decode = λ t. t;
  sha256 = λ b. b;
  draw = λ n. 0;
  retry_after = λ t. none;
  jsonata = λ expr input vars. ok null;
  trace_id = [];
  answer = answer;
  send = λ place n g req. ok req;
  completion = completion;
}

abbrev pub policy : RetryPolicy ℕ
policy = record {
  enabled = true;
  max_attempts = 2;
  base_delay_ms = 1;
  max_delay_ms = 1;
  backoff_multiplier = 1;
  jitter = no_jitter;
  retry_statuses = 503 ∷ [];
  retry_on_network_error = true;
  respect_retry_after = false;
}

abbrev pub no_retries : RetryPolicy ℕ
no_retries = record policy { enabled = false }

abbrev pub executor : Executor ℕ
executor = record {
  limits = default_limits;
  retry = policy;
  invocation_id = lit "run";
  initial_vars = end;
  elevate_role = none;
  url = record {
    path_segments = [];
    base_segments = [];
    view_name = none;
    query = [];
    remainder = [];
  };
  external = none;
}

abbrev pub call_to : Text → Text → StepParts ℕ
call_to method url = record {
  condition = none;
  call = some (record { method = method; url = url; effect = none; headers = none });
  transform = none;
  split = none;
  try_mode = false;
  elevate = false;
  capture = none;
  name = none;
  retry = some no_retries;
}

abbrev pub bare : StepParts ℕ
bare = let s = call_to [] [] in record s { call = none }

abbrev pub serial_parts : SpecParts
serial_parts = record {
  mode = serial;
  on_fail = some stop;
  on_succeed = none;
  concurrency = none;
  joiner = none;
}

abbrev pub ordered : PipelineSpec ℕ
ordered = spec serial_parts (step (call_to (lit "POST") (lit "/orders")) no_sub last_step)

-- A nested pipeline with a call that may not be repeated, and a call that fails.
abbrev pub nesting : PipelineSpec ℕ
nesting =
    spec serial_parts
      (step bare (sub ordered) (step (call_to (lit "GET") (lit "/down")) no_sub last_step))

unfoldable pub all_of : Unit {0}
unfolding texts text_eq parse segments query_param materialize as_json as_any as_raw_string
    default_for_method permits_retry retryable_status attempt_cap delay backoff retry_request
    resolve resolve_from split_str is_external_url lower_starts slice_to boundaries windows linear
    whole plan key_path materialize_if_needed resolve_text derive_key interpolation_context
    body_text resolved_header resolve_headers request_for prepare with_headers sent_from run_call
    step_condition_passes run_transform run_step parse_u64 name_before joined_fields join
    run_elements named_results run_split set_slot run_branches merge run_parallel run_segment
    snapshot_body run_attempts run_retried run_serial run_conditional run_tee run_pipeline run
    in_order insert_by sort_by to_hex lookup
all_of = tt

abbrev pub paths : List (Sent Msg) → List Text
paths log = map (λ s. s.request.url.path) log

abbrev pub calls_of : PipelineSpec ℕ → Option ℕ → Msg → List Text
calls_of p to_step msg = paths ((run (world upwards) executor p msg to_step).0)

-- An elevated step, and a mount with a role; a call that is repeated under a key.
abbrev pub with_role_ops : Executor ℕ
with_role_ops = record executor { elevate_role = some (lit "ops") }

abbrev pub elevating : StepParts ℕ
elevating = let s = call_to (lit "POST") (lit "/down") in record s { elevate = true }

abbrev pub repeating : StepParts ℕ
repeating = let s = call_to (lit "POST") (lit "/down") in record s { retry = some policy }

abbrev pub down_call : CallSpec
down_call = record { method = lit "POST"; url = lit "/down"; effect = some keyed; headers = none }
