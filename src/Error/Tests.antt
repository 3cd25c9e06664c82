-- ===== src/Error/Tests.antt =====
-- The body of a limit error, and the theorem at it.
use rs2_runtime.Common.{◌≡◌, refl, some}
use rs2_runtime.Common.Text.{lit, texts}
use rs2_runtime.Json.{Value, number, pos_int, string, lookup}
use rs2_runtime.Json
use rs2_runtime.Error.{RsError, limit_exceeded}
use rs2_runtime.Error.Problem.{to_problem_json}

abbrev full : RsError
full = limit_exceeded (lit "outbound_calls") 65 64

names_the_limit :
    Json.get (lit "limit") (to_problem_json full (lit "acme") (lit "t1"))
    ≡ some (string (lit "outbound_calls"))
unfolding texts to_problem_json Json.get lookup
names_the_limit = refl
