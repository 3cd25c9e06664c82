-- ===== src/Wrapper.antt =====
-- rs2-core/src/wrapper/mod.rs: what the host does around every call of a mount. The defaults of the
-- limit table that the modelled operations read, and the admission by declared size.
pub mod Breaker
pub mod Access
pub mod Vary
pub mod Cors
pub mod Cache
pub mod Limiter
use rs2_runtime.Common.{ℕ, ◌*◌, Bool, true, false, Option, none, some, ltb, if◌then◌else◌}
use rs2_runtime.Common.Text.{lit}
use rs2_runtime.Error.{Result, ok, err, limit_exceeded}
use rs2_runtime.Message.{Message, Body}

-- `LimitTable`; durations are nanoseconds.
pub record LimitTable : Type 0 where
  pub wall_clock_service : ℕ
  pub wall_clock_pipeline : ℕ
  pub memory_bytes : ℕ
  pub materialized_body_bytes : ℕ
  pub tenant_concurrency : ℕ
  pub outbound_calls : ℕ
  pub max_depth : ℕ
  pub breaker_threshold : ℕ
  pub breaker_window : ℕ
  pub breaker_cooldown : ℕ
  pub ws_message_bytes : ℕ
  pub ws_messages_in_flight : ℕ
  pub ws_messages_per_second : ℕ
  pub ws_sockets_per_tenant : ℕ

abbrev pub seconds : ℕ → ℕ
seconds n = n * 1_000_000_000

abbrev pub default_limits : LimitTable
default_limits = record {
  wall_clock_service = seconds 30;
  wall_clock_pipeline = seconds 120;
  memory_bytes = 128 * 1024 * 1024;
  materialized_body_bytes = 100 * 1024 * 1024;
  tenant_concurrency = 64;
  outbound_calls = 64;
  max_depth = 16;
  breaker_threshold = 8;
  breaker_window = seconds 10;
  breaker_cooldown = seconds 5;
  ws_message_bytes = 1024 * 1024;
  ws_messages_in_flight = 8;
  ws_messages_per_second = 50;
  ws_sockets_per_tenant = 1000;
}

-- The declared sizes beyond any plausible handling.
abbrev pub absolute_cap : ℕ
absolute_cap = 10 * 1024 * 1024 * 1024

abbrev pub check_size : Option ℕ → Result (Unit {0})
check_size none = ok tt
check_size (some size) =
    if ltb absolute_cap size
    then err (limit_exceeded (lit "request_body_bytes") size absolute_cap)
    else ok tt

abbrev pub declared_size : Option Body → Option ℕ
declared_size none = none
declared_size (some body) = body.size

-- The limit table plays no part.
unfoldable pub check_declared_body_size : {H : Type 0} → Message H → LimitTable → Result (Unit {0})
check_declared_body_size msg limits = check_size (declared_size msg.body)
