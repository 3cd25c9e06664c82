-- ===== src/Scheduler.antt =====
-- rs2-core/src/scheduler.rs: the schedules of mounts, the next occurrence of a cron schedule and the
-- in-memory claim store. Calendar fields of an instant are the `time` crate's and are a parameter.
pub mod Cron
pub mod Config
pub mod Claims
mod Tests
use rs2_runtime.Common.{
  ℕ, ◌+◌, ◌-◌, ◌*◌, ◌/◌, ◌^◌, max, Bool, true, false, ◌&&◌, ◌||◌, not, Option, none, some, List, [],
  ◌∷◌, ◌++◌, ltb, leb, ◌==◌, if◌then◌else◌,
}
use rs2_runtime.Common.Text.{Text, lit, text_eq, trim, is_ascii_digit, is_empty}
use rs2_runtime.Error.{Result, ok, err, bad_request, RsError, ◌>>=◌}
use rs2_runtime.Json.{Value, string, opt_str}
use rs2_runtime.Json

-- `u64::from_str` and `u8::from_str`: digits, one at least, after a sign of plus or none, and a value
-- below the bound.
abbrev pub digits_value : ℕ → Text → Option ℕ
digits_value acc [] = some acc
digits_value acc (c ∷ s) =
    let rest = digits_value (10 * acc + (c - b'0')) s in if is_ascii_digit c then rest else none

abbrev below : ℕ → Option ℕ → Option ℕ
below bound none = none
below bound (some n) = if ltb n bound then some n else none

abbrev pub no_digits : Text → Option ℕ
no_digits [] = none
no_digits (c ∷ s) = digits_value 0 (c ∷ s)

unfoldable pub parse_unsigned : ℕ → Text → Option ℕ
parse_unsigned bound [] = none
parse_unsigned bound (c ∷ s) =
    below bound (if c == b'+' then no_digits s else digits_value 0 (c ∷ s))

-- The digits at the front, and what follows.
unfoldable pub span_digits : Text → Text × Text
span_digits [] = ([], [])
span_digits (c ∷ s) =
    let (num, unit) = span_digits s in if is_ascii_digit c then (c ∷ num, unit) else ([], c ∷ s)

unfoldable pub unit_ms : Text → Option ℕ
unit_ms unit =
    if text_eq unit (lit "ms")
    then some 1
    else if text_eq unit (lit "s")
    then some 1000
    else if text_eq unit (lit "m")
    then some 60_000
    else if text_eq unit (lit "h")
    then some 3_600_000
    else none

abbrev pub checked_mul : ℕ → Option ℕ → Option ℕ
checked_mul n none = none
checked_mul n (some m) = if ltb (n * m) (2 ^ 64) then some (n * m) else none

abbrev pub times_unit : Option ℕ → Text → Option ℕ
times_unit none unit = none
times_unit (some n) unit = if n == 0 then none else checked_mul n (unit_ms unit)

abbrev pub bad_interval : Text → RsError
bad_interval s =
    bad_request (lit "invalid interval '" ++ (s ++ lit "' (use e.g. 500ms, 30s, 5m, 2h)"))

abbrev pub or_bad : RsError → Option ℕ → Result ℕ
or_bad e none = err e
or_bad e (some n) = ok n

-- `parse_every`, in milliseconds. A text of digits alone has no unit.
unfoldable pub parse_every : Text → Result ℕ
parse_every s =
    let (num, unit) = span_digits (trim s) in
    or_bad (bad_interval s)
      (if is_empty unit then none else times_unit (parse_unsigned (2 ^ 64) num) unit)

-- `interval_bucket_ms` for instants after the epoch, on milliseconds that an i64 holds.
unfoldable pub interval_bucket_ms : ℕ → ℕ → ℕ
interval_bucket_ms now every = let period = max every 1 in now / period * period
