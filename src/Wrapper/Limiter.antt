-- ===== src/Wrapper/Limiter.antt =====
-- `TenantLimiter` of rs2-core/src/wrapper/mod.rs. A semaphore is the number of its free permits;
-- `held` counts the permits that invocations of a tenant hold, which the source keeps in the permits
-- themselves: one that is dropped is free again.
pub mod Reachable
mod Tests
use rs2_runtime.Common.{ℕ, zero, suc, ◌-◌, ◌+◌, Option, none, some, if◌then◌else◌}
use rs2_runtime.Common.Dict.{Dict, insert}
use rs2_runtime.Common.Text.{Text, lit, text_eq}
use rs2_runtime.Error.{RsError, Result, ok, err, limit_exceeded}

pub record Limiter : Type 0 where
  pub semaphores : Dict ℕ
  pub held : Text → ℕ

abbrev pub new : Limiter
new = record { semaphores = λ t. none; held = λ t. 0 }

-- The semaphore of a tenant, made at its first admission.
abbrev pub free_permits : Option ℕ → ℕ → ℕ
free_permits none cap = cap
free_permits (some free) cap = free

abbrev pub at_cap : ℕ → RsError
at_cap cap = limit_exceeded (lit "tenant_concurrency") cap cap

abbrev pub set_held : Text → ℕ → (Text → ℕ) → Text → ℕ
set_held tenant n held t = if text_eq tenant t then n else held t

-- `try_acquire_owned`, on the number of free permits.
abbrev pub acquire : Text → ℕ → ℕ → Limiter → Limiter × Result (Unit {0})
acquire tenant cap zero limiter =
    (record limiter { semaphores = insert tenant 0 limiter.semaphores }, err (at_cap cap))
acquire tenant cap (suc free) limiter = (
  record {
    semaphores = insert tenant free limiter.semaphores;
    held = set_held tenant (limiter.held tenant + 1) limiter.held;
  },
  ok tt,
)

unfoldable pub admit : Text → ℕ → Limiter → Limiter × Result (Unit {0})
admit tenant cap limiter = acquire tenant cap (free_permits (limiter.semaphores tenant) cap) limiter

-- A permit of the tenant is dropped.
unfoldable pub release : Text → Limiter → Limiter
release tenant limiter = record {
  semaphores = insert tenant (free_permits (limiter.semaphores tenant) 0 + 1) limiter.semaphores;
  held = set_held tenant (limiter.held tenant - 1) limiter.held;
}
