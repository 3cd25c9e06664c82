-- ===== src/Wrapper/Limiter/Tests.antt =====
-- A tenant at its cap, and the theorem at it.
use rs2_runtime.Common.{ℕ, ◌≡◌, ◌≤◌, ◌<◌, ◌↔◌, refl, arith}
use rs2_runtime.Common.Text.{Text, lit, texts}
use rs2_runtime.Error.{err}
use rs2_runtime.Wrapper.Limiter.{Limiter, new, at_cap, admit, release}
use rs2_runtime.Wrapper.Limiter.Reachable.{
  IsReachable, start, admitted, released, admit_refuses_iff,
}

abbrev acme : Text
acme = lit "acme"

abbrev cap : Text → ℕ
cap t = 1

abbrev full : Limiter
full = (admit acme 1 (release acme (admit acme 1 new).0)).0

one_held : 0 < (admit acme 1 new).0.held acme
unfolding texts admit
one_held = omega arith

full-IsReachable : IsReachable cap full
full-IsReachable = admitted acme _ (released acme _ one_held (admitted acme new start))

is_full : full.held acme ≡ 1
unfolding texts admit release
is_full = refl

admit_refuses_iff_example :
    (full.held acme ≤ 1) × (((admit acme 1 full).1 ≡ err (at_cap 1)) ↔ (full.held acme ≡ 1))
admit_refuses_iff_example = admit_refuses_iff cap full acme full-IsReachable
