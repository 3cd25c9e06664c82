-- ===== src/Scheduler/Cron.antt =====
-- The cron schedules of rs2-core/src/scheduler.rs. Instants are nanoseconds after the epoch; the
-- calendar fields of a minute come from the `time` crate.
pub mod Next
use rs2_runtime.Common.{
  ℕ, zero, suc, ◌+◌, ◌-◌, ◌*◌, ◌/◌, ◌^◌, min, Bool, true, false, ◌&&◌, ◌||◌, Option, none, some,
  List, [], ◌∷◌, ◌++◌, map, any, ltb, leb, ◌==◌, if◌then◌else◌,
}
use rs2_runtime.Common.Sort.{sort_by}
use rs2_runtime.Common.Text.{Text, lit, text_eq, split, split_once, split_whitespace}
use rs2_runtime.Error.{Result, ok, err, bad_request, RsError, ◌>>=◌}
use rs2_runtime.Scheduler.{parse_unsigned}

pub data CronField : Type 0 where
  any_value : CronField
  set : List ℕ → CronField

abbrev pub has : List ℕ → ℕ → Bool
has s v = any (λ x. x == v) s

abbrev pub field_matches : CronField → ℕ → Bool
field_matches any_value v = true
field_matches (set s) v = has s v

-- The loop that pushes every step-th value, `x` the next one.
unfoldable pub push_range : ℕ → ℕ → ℕ → ℕ → List ℕ
push_range zero x hi step = []
push_range (suc fuel) x hi step =
    let rest = push_range fuel (min 255 (x + step)) hi step in if leb x hi then x ∷ rest else []

abbrev pub drop_repeat : ℕ → List ℕ → List ℕ
drop_repeat x [] = x ∷ []
drop_repeat x (y ∷ ys) = if x == y then y ∷ ys else x ∷ y ∷ ys

-- `sort_unstable` and `dedup`.
unfoldable pub dedup : List ℕ → List ℕ
dedup [] = []
dedup (x ∷ xs) = drop_repeat x (dedup xs)

abbrev pub sorted : List ℕ → List ℕ
sorted s = dedup (sort_by leb s)

abbrev pub bad_field : Text → RsError
bad_field spec = bad_request (lit "invalid cron field '" ++ (spec ++ lit "'"))

abbrev pub number_or : RsError → Option ℕ → Result ℕ
number_or e none = err e
number_or e (some n) = ok n

abbrev pub parse_u8 : RsError → Text → Result ℕ
parse_u8 e s = number_or e (parse_unsigned (2 ^ 8) s)

-- The base of a part and its step.
abbrev pub base_and_step : RsError → Text → Option (Text × Text) → Result (Text × ℕ)
base_and_step e part none = ok (part, 1)
base_and_step e part (some (base, step)) = do let n = parse_u8 e step; n >>= λ k. ok (base, k)

abbrev pub bounds : RsError → Text → Option (Text × Text) → Result (ℕ × ℕ)
bounds e base none = parse_u8 e base >>= λ v. ok (v, v)
bounds e base (some (a, b)) = parse_u8 e a >>= λ lo. parse_u8 e b >>= λ hi. ok (lo, hi)

abbrev pub range_of : RsError → ℕ → ℕ → Text → Result (ℕ × ℕ)
range_of e least most base =
    if text_eq base (lit "*") then ok (least, most) else bounds e base (split_once b'-' base)

-- A range and a step that pass the checks, expanded; 256 rounds are enough for a byte.
unfoldable pub expand : RsError → ℕ → ℕ → ℕ → ℕ × ℕ → Result (List ℕ)
expand e least most step (lo, hi) =
    if ltb lo least || (ltb most hi || ltb hi lo) then err e else ok (push_range 256 lo hi step)

unfoldable pub parse_part : RsError → ℕ → ℕ → Text → Result (List ℕ)
parse_part e least most part = base_and_step e part (split_once b'/' part) >>= λ (base, step).
    if step == 0 then err e else range_of e least most base >>= expand e least most step

abbrev pub parse_parts : RsError → ℕ → ℕ → List Text → Result (List ℕ)
parse_parts e least most [] = ok []
parse_parts e least most (part ∷ parts) = parse_part e least most part >>= λ values.
    parse_parts e least most parts >>= λ rest. ok (values ++ rest)

-- `CronField::parse`.
unfoldable pub parse : Text → ℕ → ℕ → Result CronField
parse spec least most =
    if text_eq spec (lit "*")
    then ok any_value
    else parse_parts (bad_field spec) least most (split b',' spec) >>= λ s. ok (set (sorted s))

abbrev pub sunday : ℕ → ℕ
sunday x = if x == 7 then 0 else x

abbrev pub normal_days : CronField → CronField
normal_days any_value = any_value
normal_days (set v) = set (sorted (map sunday v))

unfoldable pub parse_dow : Text → Result CronField
parse_dow spec = parse spec 0 7 >>= λ f. ok (normal_days f)

pub record CronSchedule : Type 0 where
  pub minute : CronField
  pub hour : CronField
  pub dom : CronField
  pub month : CronField
  pub dow : CronField

abbrev pub of_fields : Text → List Text → Result CronSchedule
of_fields s (a ∷ b ∷ c ∷ d ∷ e ∷ []) = parse a 0 59 >>= λ minute. parse b 0 23 >>= λ hour.
    parse c 1 31 >>= λ dom. parse d 1 12 >>= λ month. parse_dow e >>= λ dow.
    ok (record { minute = minute; hour = hour; dom = dom; month = month; dow = dow })
of_fields s _ = err (
    bad_request (
      lit "cron '"
      ++ (s ++ lit "' must have 5 fields: minute hour day-of-month month day-of-week")))

unfoldable pub parse_cron : Text → Result CronSchedule
parse_cron s = of_fields s (split_whitespace s)

-- The calendar fields of a minute; the day of the week counts from Sunday, 0.
pub record Stamp : Type 0 where
  pub minute : ℕ
  pub hour : ℕ
  pub day : ℕ
  pub month : ℕ
  pub weekday : ℕ

abbrev pub days_match : CronField → CronField → ℕ → ℕ → Bool
days_match any_value any_value dom_v dow_v = true
days_match (set dom) any_value dom_v dow_v = has dom dom_v
days_match any_value (set dow) dom_v dow_v = has dow dow_v
days_match (set dom) (set dow) dom_v dow_v = has dom dom_v || has dow dow_v

unfoldable pub day_matches : CronSchedule → Stamp → Bool
day_matches s dt = days_match s.dom s.dow dt.day dt.weekday

unfoldable pub matches : CronSchedule → Stamp → Bool
matches s dt =
    field_matches s.minute dt.minute
    && (field_matches s.hour dt.hour && (field_matches s.month dt.month && day_matches s dt))

abbrev pub minute_ns : ℕ
minute_ns = 60_000_000_000

-- The bound of the search, and the minutes that it can hold.
abbrev pub year_ns : ℕ
year_ns = 366 * 24 * 60 * minute_ns

abbrev pub rounds : ℕ
rounds = 366 * 24 * 60 + 1

module _ (calendar : ℕ → Stamp) (s : CronSchedule) where
  -- The minute from `t` on, up to the bound, that matches first.
  unfoldable pub scan : ℕ → ℕ → ℕ → Option ℕ
  scan zero t bound = none
  scan (suc fuel) t bound =
      let later = scan fuel (t + 1) bound in
      if leb (t * minute_ns) bound then (if matches s (calendar t) then some t else later) else none

  -- `next_occurrence_after`: the minute, counted from the epoch.
  unfoldable pub next_occurrence_after : ℕ → Option ℕ
  next_occurrence_after after = scan rounds (after / minute_ns + 1) (after + year_ns)
