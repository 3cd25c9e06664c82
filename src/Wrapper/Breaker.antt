-- ===== src/Wrapper/Breaker.antt =====
-- `TenantBreaker` of rs2-core/src/wrapper/mod.rs. Instants are nanoseconds on the monotonic clock;
-- the queue of breaches has its front at the head of the list.
pub mod Window
pub mod Trips
mod Tests
use rs2_runtime.Common.{
  ℕ, ◌+◌, ◌-◌, ◌/◌, ◌%◌, ◌^◌, Bool, true, false, Option, none, some, List, [], ◌∷◌, ◌++◌, ltb, leb,
  length, if◌then◌else◌,
}
use rs2_runtime.Common.Dict.{Dict, insert}
use rs2_runtime.Common.Text.{Text, lit}
use rs2_runtime.Error.{RsError, Result, ok, err, limit_exceeded}
use rs2_runtime.Wrapper.{LimitTable}

pub record BreakerState : Type 0 where
  pub recent_breaches : List ℕ
  pub open_until : Option ℕ

-- `BreakerState::default`.
abbrev pub fresh : BreakerState
fresh = record { recent_breaches = []; open_until = none }

abbrev pub States : Type 0
States = Dict BreakerState

abbrev pub breaker_error : Text → ℕ → RsError
breaker_error tenant left =
    let e = limit_exceeded (lit "tenant_breaker") 1 0 in
    record e {
      detail =
          lit "tenant '"
          ++ (tenant ++ lit "' tripped the limit-breach circuit breaker; retry later");
      retry_after_ms = some (left / 1_000_000);
    }

abbrev pub opened : Option BreakerState → Option ℕ
opened none = none
opened (some state) = state.open_until

-- An open breaker refuses until its instant has come; then it is cleared and lets the call through.
abbrev pub check_limit : Text → ℕ → Option ℕ → States → States × Result (Unit {0})
check_limit tenant now none states = (states, ok tt)
check_limit tenant now (some limit) states =
    if ltb now limit
    then (states, err (breaker_error tenant (limit - now)))
    else (insert tenant fresh states, ok tt)

unfoldable pub check : Text → ℕ → States → States × Result (Unit {0})
check tenant now states = check_limit tenant now (opened (states tenant)) states

-- The loop that pops the breaches which the window has left behind.
unfoldable pub pop_old : ℕ → ℕ → List ℕ → List ℕ
pop_old now window [] = []
pop_old now window (front ∷ queue) =
    let rest = pop_old now window queue in if ltb window (now - front) then rest else front ∷ queue

abbrev pub or_default : Option BreakerState → BreakerState
or_default none = fresh
or_default (some state) = state

unfoldable pub breach : LimitTable → ℕ → BreakerState → BreakerState
breach limits now state =
    let recent = pop_old now limits.breaker_window (state.recent_breaches ++ now ∷ []) in
    if leb limits.breaker_threshold (length recent % 2 ^ 32)
    then (record { recent_breaches = recent; open_until = some (now + limits.breaker_cooldown) })
    else record { recent_breaches = recent; open_until = state.open_until }

unfoldable pub record_breach : Text → LimitTable → ℕ → States → States
record_breach tenant limits now states =
    insert tenant (breach limits now (or_default (states tenant))) states
