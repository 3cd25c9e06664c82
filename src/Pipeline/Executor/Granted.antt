-- ===== src/Pipeline/Executor/Granted.antt =====
-- The requests of a run that leave the node.
use rs2_runtime.Common.{Bool, ℕ, ◌≡◌, Option, none, some, List, [], ◌∷◌, All}
use rs2_runtime.Common.Text.{Text}
use rs2_runtime.Message.{Principal}
use rs2_runtime.Message.Url.{parse}
use rs2_runtime.Pipeline.Spec.{PipelineSpec}
use rs2_runtime.Pipeline.Executor.Base.{World, Executor, Sent, Msg}
use rs2_runtime.Pipeline.Executor.Call.{Step}
use rs2_runtime.Pipeline.Executor.Call.Requests.{Carries, Leads, IsContained, run_call-IsContained}
use rs2_runtime.Pipeline.Executor.Every.{run-All}
use rs2_runtime.Pipeline.Executor.Run.{run}

-- A request that leaves the node carries no principal.
abbrev pub IsNobodyOutside : Option ℕ → Option Principal → Type 0
IsNobodyOutside none principal = Unit
IsNobodyOutside (some g) principal = principal ≡ none

module _ (w : World) (x : Executor (w.floats.F)) where
  abbrev pub IsGranted : Sent (Msg w) → Type 0
  IsGranted s =
      ((url : Text) × (s.request.url ≡ parse url) × Leads x.external s.grant url)
      × IsNobodyOutside s.grant s.request.principal

  Carries-IsNobodyOutside :
      (elevate : Bool) (role : Option Text) (before : Option Principal) (grant : Option ℕ)
      (after : Option Principal)
      → Carries elevate role before grant after
      → IsNobodyOutside grant after
  Carries-IsNobodyOutside elevate role before none after h = tt
  Carries-IsNobodyOutside elevate role before (some g) after h = h

  IsContained-IsGranted :
      (step : Step w x) (msg : Msg w) (ss : List (Sent (Msg w)))
      → All (IsContained w x step msg) ss
      → All IsGranted ss
  IsContained-IsGranted step msg [] h = tt
  IsContained-IsGranted step msg (s ∷ ss) (h, hs) = (
    (
      h.leads,
      Carries-IsNobodyOutside step.elevate x.elevate_role msg.principal s.grant s.request.principal
          h.of_caller,
    ),
    IsContained-IsGranted step msg ss hs,
  )

-- Every request of a run of a pipeline, in each of its modes and at every depth, for all answers
-- to its requests and all orders in which its branches complete, either has a URL that leads
-- inside the node, or leaves it by a grant that the dispatch of the mount authorizes for that
-- URL; a request that leaves carries no principal.
pub run-IsGranted :
    (w : World) (x : Executor (w.floats.F)) (p : PipelineSpec (w.floats.F)) (msg : Msg w)
    (to_step : Option ℕ)
    → All (IsGranted w x) ((run w x p msg to_step).0)
run-IsGranted w x p msg to_step =
    run-All w x (IsGranted w x)
      (λ place step call m vars.
        IsContained-IsGranted w x step m _ (run_call-IsContained w x place step call m vars))
      p msg to_step
