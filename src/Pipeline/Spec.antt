-- ===== src/Pipeline/Spec.antt =====
-- rs2-core/src/pipeline/spec.rs: the pipeline spec. The `http` crate's reading of a method is a
-- parameter. A step is its fields and its nested pipeline, which may be missing.
use rs2_runtime.Common.{ℕ, Bool, Option, none, some, List}
use rs2_runtime.Common.Text.{Text}
use rs2_runtime.Json.{Value}
use rs2_runtime.Message.{Method}
use rs2_runtime.Retry.{EffectClass, unsafe, default_for_method, RetryPolicy}

pub data Mode : Type 0 where
  serial parallel conditional tee tee_wait : Mode

pub data Action : Type 0 where
  stop next finish : Action

pub data Joiner : Type 0 where
  json_object : Joiner

pub data Splitter : Type 0 where
  json_split : Splitter

-- The headers are in the order in which the `HashMap` gives them.
pub record CallSpec : Type 0 where
  pub method : Text
  pub url : Text
  pub effect : Option EffectClass
  pub headers : Option (List (Text × Text))

-- The fields of a `Step` but `pipeline`.
pub record StepParts (F : Type 0) : Type 0 where
  pub condition : Option Text
  pub call : Option CallSpec
  pub transform : Option Value
  pub split : Option Splitter
  pub try_mode : Bool
  pub elevate : Bool
  pub capture : Option Text
  pub name : Option Text
  pub retry : Option (RetryPolicy F)

-- The fields of a `PipelineSpec` but `steps`.
pub record SpecParts : Type 0 where
  pub mode : Mode
  pub on_fail : Option Action
  pub on_succeed : Option Action
  pub concurrency : Option ℕ
  pub joiner : Option Joiner

mutual
  pub data PipelineSpec (F : Type 0) : Type 0 where
    spec : SpecParts → Steps F → PipelineSpec F

  pub data Steps (F : Type 0) : Type 0 where
    last_step : Steps F
    step : StepParts F → Sub F → Steps F → Steps F

  pub data Sub (F : Type 0) : Type 0 where
    no_sub : Sub F
    sub : PipelineSpec F → Sub F

-- The method of a call that is no method at all makes the call unsafe.
abbrev method_effect : Option Method → EffectClass
method_effect none = unsafe
method_effect (some m) = default_for_method m

abbrev declared : Option EffectClass → EffectClass → EffectClass
declared none inferred = inferred
declared (some e) inferred = e

module _ (from_bytes : Text → Option Method) where
  abbrev pub call_effect : CallSpec → EffectClass
  unfolding default_for_method
  call_effect c = declared c.effect (method_effect (from_bytes c.method))

  abbrev pub effect_class : {F : Type 0} → StepParts F → Option EffectClass
  effect_class s = elim s.call [ none ↦ none | some c ↦ some (call_effect c) ]

abbrev default_fail : Mode → Action
default_fail parallel = stop
default_fail _ = next

abbrev configured : Option Action → Action → Action
configured none d = d
configured (some a) d = a

abbrev pub fail_action : SpecParts → Action
fail_action p = configured p.on_fail (default_fail p.mode)

abbrev default_succeed : Mode → Action
default_succeed conditional = finish
default_succeed _ = next

abbrev pub succeed_action : SpecParts → Action
succeed_action p = configured p.on_succeed (default_succeed p.mode)
