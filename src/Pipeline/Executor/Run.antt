-- ===== src/Pipeline/Executor/Run.antt =====
-- `run_conditional`, `run_tee`, `run_pipeline` and `run` of rs2-core/src/pipeline/executor.rs. A pipeline runs
-- the ones nested in it at one level less of what `max_depth` leaves, so that the recursion ends where
-- the source refuses the depth.
use rs2_runtime.Common.{
  ℕ, zero, suc, ◌+◌, Option, none, some, List, [], ◌∷◌, not, is_some, keep, ltb, if◌then◌else◌,
}
use rs2_runtime.Common.Text.{Text, lit, split, split_once, is_empty}
use rs2_runtime.Error.{Result, ok, err, RsError, internal, limit_exceeded}
use rs2_runtime.Error.Problem.{put, put_all}
use rs2_runtime.Json.{string, array, object, Items, nil, cons, Fields, end, lookup}
use rs2_runtime.Message.{Principal, MsgUrl}
use rs2_runtime.Message.Url.{pair_of, query_param, service_segments}
use rs2_runtime.Pipeline.Spec.{
  Mode, serial, parallel, conditional, tee_wait, SpecParts, PipelineSpec, spec, Steps, last_step,
  step, Sub, no_sub, sub,
}
use rs2_runtime.Pipeline.Segments.{plan}
use rs2_runtime.Pipeline.Executor.Base.{
  World, Executor, Place, at_step, Flow, continue, exit, abort, gives, Exec, done, lift, ◌>>=◌,
  try_clone, materialize_if_needed, Msg,
}
use rs2_runtime.Pipeline.Executor.Step.{Runner, step_condition_passes, run_step}
use rs2_runtime.Pipeline.Executor.Fanout.{message_of}
use rs2_runtime.Pipeline.Executor.Parallel.{run_parallel}
use rs2_runtime.Pipeline.Executor.Serial.{Ran, run_serial}

abbrev mutual
  pub count_steps : {F : Type 0} → PipelineSpec F → ℕ
  count_steps (spec parts steps) = count_all steps

  pub count_all : {F : Type 0} → Steps F → ℕ
  count_all last_step = 0
  count_all (step s inner rest) = suc (count_sub inner) + count_all rest

  pub count_sub : {F : Type 0} → Sub F → ℕ
  count_sub no_sub = 0
  count_sub (sub p) = count_steps p

abbrev items_of : List Text → Items
items_of [] = nil
items_of (t ∷ ts) = cons (string t) (items_of ts)

-- The caller, as the variables `_user` and `principal`.
abbrev pub user_fields : Principal → Fields
user_fields p =
    put_all p.extra
      (put (lit "roles") (array (items_of p.roles)) (put (lit "email") (string p.id) end))

abbrev pub bind_user : Option Principal → Fields → Fields
bind_user none vars = vars
bind_user (some p) vars =
    put (lit "principal") (object (user_fields p)) (put (lit "_user") (object (user_fields p)) vars)

-- `entry(k).or_insert(v)`.
abbrev pub or_insert : Text → Option Text → Fields → Fields
or_insert k none fs = fs
or_insert k (some v) fs = if is_some (lookup k fs) then fs else put k (string v) fs

abbrev pub query_vars : (Text → Text) → MsgUrl → List Text → Fields → Fields
query_vars decode url [] fs = fs
query_vars decode url (pair ∷ pairs) fs =
    let k = (pair_of pair (split_once b'=' pair)).0 in
    query_vars decode url pairs (or_insert k (query_param decode url k) fs)

-- The URL that triggered the run, as the variable `_url`.
abbrev pub bind_url : (Text → Text) → MsgUrl → Fields → Fields
bind_url decode url vars =
    let pairs = keep (λ p. not (is_empty p)) (split b'&' url.query) in
    let path = array (items_of (service_segments url)) in
    put (lit "_url")
      (object
        (put (lit "query") (object (query_vars decode url pairs end)) (put (lit "path") path end)))
      vars

module _ (w : World) (x : Executor (w.floats.F)) where
  -- What the chosen step gives ends the pipeline.
  abbrev pub ending : Fields × Flow (Msg w) → Ran w x
  ending (vars, continue m) = done (vars, exit m)
  ending (vars, exit m) = done (vars, exit m)
  ending (vars, abort m) = done (vars, abort m)

  unfoldable pub run_conditional :
      Runner w → ℕ → Steps (w.floats.F) → Place → Msg w → Fields → Ran w x
  unfolding step_condition_passes run_step
  run_conditional nested i last_step place msg vars = done (vars, continue msg)
  run_conditional nested i (step s inner rest) place msg vars =
      let later = run_conditional nested (suc i) rest place in
      lift (step_condition_passes w x s msg vars) >>= λ passes.
      if passes
      then (run_step w x nested (record s { condition = none }) inner (at_step i ∷ place) msg vars
          >>= ending)
      else later msg vars

  abbrev no_copy : RsError
  no_copy = internal (lit "tee branch over unmaterialized stream")

  abbrev pub copy_of : Msg w → Result (Msg w)
  copy_of msg = elim (try_clone msg) [ none ↦ err no_copy | some m ↦ ok m ]

  -- The branch of `tee` is not waited for: it has no variables, and its end is dropped. Its requests
  -- stand where it is started.
  abbrev pub tee_branch :
      Mode → Runner w → PipelineSpec (w.floats.F) → Place → Msg w → Msg w → Fields → Ran w x
  tee_branch tee_wait nested branch place m msg vars =
      nested branch place m vars >>= λ r. done (vars, continue msg)
  tee_branch _ nested branch place m msg vars =
      ((nested branch place m end).0, gives (vars, continue msg))

  unfoldable pub run_tee :
      Runner w → SpecParts → Steps (w.floats.F) → Place → Msg w → Fields → Ran w x
  unfolding materialize_if_needed
  run_tee nested parts steps place msg vars =
      lift (materialize_if_needed x.limits.materialize_cap msg) >>= λ m.
      lift (copy_of m) >>= λ branch_msg.
      tee_branch parts.mode nested (spec (record parts { mode = serial }) steps) place branch_msg m
        vars

  abbrev pub by_mode :
      Mode → Runner w → SpecParts → Option ℕ → Steps (w.floats.F) → Place → Msg w → Fields → Ran w x
  by_mode serial nested parts to_step steps place msg vars =
      run_serial w x nested parts to_step place steps
        ((plan w.method_of (spec parts steps)).segments) msg vars
  by_mode parallel nested parts to_step steps place msg vars =
      run_parallel w x nested parts steps place msg vars
  by_mode conditional nested parts to_step steps place msg vars =
      run_conditional nested 0 steps place msg vars
  by_mode _ nested parts to_step steps place msg vars = run_tee nested parts steps place msg vars

  -- `run_pipeline` at the depth `max_depth + 1 - left`.
  unfoldable pub run_pipeline : ℕ → Option ℕ → Runner w
  run_pipeline zero to_step p place msg vars =
      let depth = suc x.limits.max_depth in
      lift (err (limit_exceeded (lit "pipeline_depth") depth x.limits.max_depth))
  run_pipeline (suc left) to_step (spec parts steps) place msg vars =
      by_mode parts.mode (run_pipeline left none) parts to_step steps place msg vars

  abbrev run_bound : PipelineSpec (w.floats.F) → Option ℕ → Msg w → Exec (Msg w) (Msg w)
  run_bound p to_step msg =
      let vars = bind_url w.decode msg.url (bind_user msg.principal x.initial_vars) in
      run_pipeline (suc x.limits.max_depth) to_step p [] msg vars >>= λ r. done (message_of r.1)

  unfoldable pub run : PipelineSpec (w.floats.F) → Msg w → Option ℕ → Exec (Msg w) (Msg w)
  run p msg to_step =
      if ltb x.limits.max_steps (count_steps p)
      then lift (err (limit_exceeded (lit "pipeline_steps") (count_steps p) x.limits.max_steps))
      else run_bound p to_step msg
