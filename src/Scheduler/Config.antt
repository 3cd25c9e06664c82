-- ===== src/Scheduler/Config.antt =====
-- `Schedule` and `tick_message` of rs2-core/src/scheduler.rs.
use rs2_runtime.Common.{ℕ, Option, none, some, [], ◌∷◌}
use rs2_runtime.Common.Text.{Text, lit}
use rs2_runtime.Error.{Result, ok, err, bad_request, ◌>>=◌}
use rs2_runtime.Json.{Value, opt_str}
use rs2_runtime.Json
use rs2_runtime.Message.{Message, HeaderApi, post, system, set_header}
use rs2_runtime.Message.Url
use rs2_runtime.Scheduler.{parse_every}
use rs2_runtime.Scheduler.Cron.{CronSchedule, parse_cron}

pub data Schedule : Type 0 where
  -- A period in milliseconds.
  interval : ℕ → Schedule
  cron : CronSchedule → Schedule

abbrev pub one_of : Option Text → Option Text → Result Schedule
one_of (some e) (some c) =
    err (bad_request (lit "schedule has both 'every' and 'cron' — set exactly one"))
one_of (some e) none = parse_every e >>= λ ms. ok (interval ms)
one_of none (some c) = parse_cron c >>= λ s. ok (cron s)
one_of none none =
    err
      (bad_request (lit "schedule requires 'every' (e.g. \"60s\") or 'cron' (e.g. \"0 9 * * *\")"))

unfoldable pub from_config : Value → Result Schedule
from_config v = one_of (opt_str (Json.get (lit "every") v)) (opt_str (Json.get (lit "cron") v))

abbrev pub or_root : Text → Text
or_root [] = lit "/"
or_root (c ∷ s) = c ∷ s

-- The request that the scheduler fires at a mount.
unfoldable pub tick_message : (api : HeaderApi) → Text → Text → Message (api.Map)
tick_message api tenant base_path = set_header api (lit "x-rs2-trigger") (lit "schedule") (record {
  method = post;
  url = Url.parse (or_root base_path);
  headers = api.empty;
  status = none;
  body = none;
  tenant = tenant;
  principal = none;
  source = system;
  name = none;
  depth = 0;
})
