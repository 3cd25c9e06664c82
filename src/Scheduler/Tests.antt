-- ===== src/Scheduler/Tests.antt =====
-- Schedules on a few texts, and the theorems of the scheduler at them.
use rs2_runtime.Common.{ℕ, ◌≡◌, ◌↔◌, ◌+◌, ◌*◌, ◌/◌, refl, true, false, some, [], ◌∷◌, arith}
use rs2_runtime.Common.Text.{lit, texts}
use rs2_runtime.Common.Sort.{sort_by}
use rs2_runtime.Error.{ok, err}
use rs2_runtime.Scheduler.{parse_unsigned, span_digits, unit_ms, parse_every, bad_interval}
use rs2_runtime.Scheduler.Claims.{claim, claim_all, claim-IsOnce}
use rs2_runtime.Scheduler.Cron.{
  CronSchedule, Stamp, any_value, set, push_range, dedup, expand, parse_part, parse, parse_dow,
  parse_cron, day_matches, matches, scan, minute_ns, year_ns, next_occurrence_after,
}
use rs2_runtime.Scheduler.Cron.Next.{IsFirst, next_occurrence_iff}

every_half_minute : parse_every (lit " 30s ") ≡ ok 30_000
unfolding texts parse_every parse_unsigned span_digits unit_ms
every_half_minute = refl

never : parse_every (lit "0s") ≡ err (bad_interval (lit "0s"))
unfolding texts parse_every parse_unsigned span_digits unit_ms
never = refl

abbrev workdays : CronSchedule
workdays = record {
  minute = set (0 ∷ 20 ∷ 40 ∷ []);
  hour = set (9 ∷ []);
  dom = any_value;
  month = any_value;
  dow = set (0 ∷ 5 ∷ 6 ∷ []);
}

reads_cron : parse_cron (lit "*/20 9 * * 5-7") ≡ ok workdays
unfolding texts parse_unsigned parse_cron parse_dow parse parse_part expand dedup push_range sort_by
reads_cron = refl

-- A calendar that gives the minute alone.
abbrev calendar : ℕ → Stamp
calendar t = record { minute = t; hour = 9; day = 1; month = 1; weekday = 5 }

finds : scan calendar workdays 30 1 (100 * minute_ns) ≡ some 20
unfolding scan matches day_matches
finds = refl

next_occurrence_iff_example :
    (next_occurrence_after calendar workdays 0 ≡ some 20)
    ↔ IsFirst calendar workdays (0 + year_ns) (0 / minute_ns + 1) 20
next_occurrence_iff_example = next_occurrence_iff calendar workdays 0 20

claim-IsOnce_example :
    (claim (lit "a:60") 10 105 (
      claim_all
        ((lit "b:60", 5, 101) ∷ (lit "a:60", 50, 104) ∷ [])
        (claim (lit "a:60") 10 100 []).0)).1
    ≡ false
claim-IsOnce_example =
    claim-IsOnce (lit "a:60") 10 100 105 10 ((lit "b:60", 5, 101) ∷ (lit "a:60", 50, 104) ∷ []) []
      won (omega arith) (omega arith)
  where
    won : (claim (lit "a:60") 10 100 []).1 ≡ true
    won = unfold claim in refl
