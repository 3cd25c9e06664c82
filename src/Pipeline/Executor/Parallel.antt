-- ===== src/Pipeline/Executor/Parallel.antt =====
-- `run_parallel` of rs2-core/src/pipeline/executor.rs: every step on a copy of the message, and the join.
use rs2_runtime.Common.{
  ℕ, zero, suc, ◌*◌, ◌-◌, ◌^◌, min, Bool, true, false, Option, none, some, List, [], ◌∷◌, ltb, not,
  is_some, ◌&&◌, if◌then◌else◌,
}
use rs2_runtime.Common.Text.{Text, lit}
use rs2_runtime.Common.Text.Decimal.{decimal}
use rs2_runtime.Common.Arrangement.{in_order}
use rs2_runtime.Error.{Result, ok, err, RsError, internal, limit_exceeded}
use rs2_runtime.Error.Problem.{put_all}
use rs2_runtime.Json.{Fields, unwrap_or}
use rs2_runtime.Message.{Body, is_ok}
use rs2_runtime.Pipeline.Spec.{Action, stop, SpecParts, Steps, last_step, step, fail_action}
use rs2_runtime.Pipeline.Segments.{count}
use rs2_runtime.Pipeline.Executor.Base.{
  World, Executor, Place, at_step, Flow, continue, exit, abort, Ended, fails, panics, gives, Exec,
  lift, ◌>>=◌, try_clone, clone_with_body, materialize_if_needed, Msg,
}
use rs2_runtime.Pipeline.Executor.Call.{Step}
use rs2_runtime.Pipeline.Executor.Step.{Runner, run_step}
use rs2_runtime.Pipeline.Executor.Fanout.{Finished, collected, join, concurrency_of}

abbrev pub is_stop : Action → Bool
is_stop stop = true
is_stop _ = false

abbrev pub first_name : Option Text → Option Text → Text → Text
first_name (some a) b c = a
first_name none (some b) c = b
first_name none none c = c

-- `results[i] = Some(entry)`.
unfoldable pub set_slot : {A : Type 0} → ℕ → A → List (Option A) → List (Option A)
set_slot i a [] = []
set_slot zero a (s ∷ ss) = some a ∷ ss
set_slot (suc i) a (s ∷ ss) = s ∷ set_slot i a ss

abbrev pub filled : {A : Type 0} → List (Option A) → List A
filled [] = []
filled (none ∷ ss) = filled ss
filled (some a ∷ ss) = a ∷ filled ss

abbrev pub empty_slots : {A : Type 0} → ℕ → List (Option A)
empty_slots zero = []
empty_slots (suc n) = none ∷ empty_slots n

module _ (w : World) (x : Executor (w.floats.F)) where
  -- A branch and its step.
  abbrev pub Branch : Type 0
  Branch = Step w x × Finished w

  abbrev no_copy : RsError
  no_copy = internal (lit "parallel branch over unmaterialized stream")

  abbrev pub finished : List Branch → List (Finished w)
  finished [] = []
  finished ((s, f) ∷ bs) = f ∷ finished bs

  unfoldable pub run_branches :
      Runner w → ℕ → Steps (w.floats.F) → Place → Msg w → Fields → List Branch
  unfolding run_step
  run_branches nested i last_step place msg vars = []
  run_branches nested i (step s inner rest) place msg vars =
      (
        s,
        record {
          index = i;
          finished_name = [];
          outcome = elim (try_clone msg) [
            | none ↦ lift (err no_copy)
            | some m ↦ run_step w x nested s inner (at_step i ∷ place) m vars
          ];
        },
      )
      ∷ run_branches nested (suc i) rest place msg vars

  -- What is made of the branches: the variables, and the slots of the results or the message of an abort.
  pub data Merged : Type 0 where
    aborted : Fields → Msg w → Merged
    merged : Fields → List (Option (Text × Msg w)) → Merged

  abbrev pub stops : SpecParts → Step w x → Msg w → Bool
  stops parts s out = not (is_ok out) && (is_stop (fail_action parts) && not (is_some s.capture))

  abbrev pub with_result :
      SpecParts
      → Step w x
      → ℕ
      → Fields
      → Msg w
      → Fields
      → List (Option (Text × Msg w))
      → (Fields → List (Option (Text × Msg w)) → Ended Merged)
      → Ended Merged
  with_result parts s i branch_vars out vars slots later =
      if stops parts s out
      then gives (aborted vars out)
      else later (put_all branch_vars vars)
          (set_slot i (first_name s.name out.name (decimal i), out) slots)

  abbrev pub merge_one :
      SpecParts
      → Step w x
      → ℕ
      → Ended (Fields × Flow (Msg w))
      → Fields
      → List (Option (Text × Msg w))
      → (Fields → List (Option (Text × Msg w)) → Ended Merged)
      → Ended Merged
  merge_one parts s i (fails e) vars slots later = fails e
  merge_one parts s i panics vars slots later = panics
  merge_one parts s i (gives (bv, continue m)) vars slots later =
      with_result parts s i bv m vars slots later
  merge_one parts s i (gives (bv, exit m)) vars slots later =
      with_result parts s i bv m vars slots later
  merge_one parts s i (gives (bv, abort m)) vars slots later = gives (aborted vars m)

  -- The branches in the order of completion.
  unfoldable pub merge :
      SpecParts → List Branch → Fields → List (Option (Text × Msg w)) → Ended Merged
  merge parts [] vars slots = gives (merged vars slots)
  merge parts ((s, f) ∷ bs) vars slots =
      merge_one parts s f.index f.outcome.1 vars slots (merge parts bs)

  abbrev continues : Fields → Ended (Msg w) → Ended (Fields × Flow (Msg w))
  continues vars (fails e) = fails e
  continues vars panics = panics
  continues vars (gives m) = gives (vars, continue m)

  abbrev pub merged_join : Msg w → Ended Merged → Ended (Fields × Flow (Msg w))
  merged_join template (fails e) = fails e
  merged_join template panics = panics
  merged_join template (gives (aborted vars m)) = gives (vars, abort m)
  merged_join template (gives (merged vars slots)) =
      continues vars (join w x (filled slots) template)

  -- `check_fanout_budget`, whose product stops at the greatest u64.
  abbrev pub check_fanout_budget : ℕ → ℕ → Result (Unit {0})
  check_fanout_budget n body_size =
      let total = min (n * body_size) (2 ^ 64 - 1) in
      if ltb x.limits.max_fanout_bytes total
      then err (limit_exceeded (lit "pipeline_fanout_bytes") total x.limits.max_fanout_bytes)
      else ok tt

  abbrev pub size_of : Option Body → ℕ
  size_of none = 0
  size_of (some body) = unwrap_or body.size 0

  abbrev pub fan_out :
      Runner w
      → SpecParts
      → Steps (w.floats.F)
      → Place
      → Msg w
      → Fields
      → Exec (Msg w) (Fields × Flow (Msg w))
  fan_out nested parts steps place msg vars =
      let branches = run_branches nested 0 steps place msg vars in
      let order = w.completion (concurrency_of w x parts) place (count steps) in
      collected (finished branches) (
        merged_join (clone_with_body msg none)
          (merge parts (in_order order branches) vars (empty_slots (count steps))))

  unfoldable pub run_parallel :
      Runner w
      → SpecParts
      → Steps (w.floats.F)
      → Place
      → Msg w
      → Fields
      → Exec (Msg w) (Fields × Flow (Msg w))
  unfolding materialize_if_needed
  run_parallel nested parts steps place msg vars =
      lift (materialize_if_needed x.limits.materialize_cap msg) >>= λ m.
      lift (check_fanout_budget (count steps) (size_of m.body)) >>= λ checked.
      fan_out nested parts steps place m vars
