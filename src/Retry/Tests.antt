-- ===== src/Retry/Tests.antt =====
-- Runs of the retry loop, and the theorems at concrete inputs.
use rs2_runtime.Common.{
  ℕ, ◌*◌, ◌^◌, ◌≤◌, ◌≡◌, refl, false, none, some, List, [], ◌∷◌, ltb, if◌then◌else◌, arith,
}
use rs2_runtime.Common.Text.{Text, lit}
use rs2_runtime.Error.{Result, ok}
use rs2_runtime.Message.{Message, external, get}
use rs2_runtime.Message.Headers.{header_list}
use rs2_runtime.Retry.{Floats, RetryPolicy, pure, default_policy, delay, attempt_cap, no_jitter}
use rs2_runtime.Retry.Delay.{delay-le-max}
use rs2_runtime.Retry.Loop.{Run, retry_request}
use rs2_runtime.Retry.Loop.Laws.{IsFirstSettled, retry_request_lem}

-- Whole numbers in place of `f64`.
abbrev whole : Floats
whole = record {
  F = ℕ;
  of_u64 = λ n. n;
  times = λ a b. a * b;
  powi = λ a n. a ^ n;
  to_u64 = λ a. a;
}

abbrev policy : RetryPolicy ℕ
policy = let base = default_policy whole in record base { jitter = no_jitter }

abbrev reply : ℕ → Message (List (Text × Text))
reply status = record {
  method = get;
  url = record { path = lit "/x"; query = []; base_path = []; service_path = lit "/x" };
  headers = [];
  status = some status;
  body = none;
  tenant = lit "t1";
  principal = none;
  source = external;
  name = none;
  depth = 0;
}

-- 503 twice, then 200.
abbrev flaky : ℕ → Result (Message (List (Text × Text)))
flaky n = ok (reply (if ltb n 3 then 503 else 200))

backs_off : delay whole (λ n. n) policy 3 none ≡ 1000
unfolding delay
backs_off = refl

third_attempt :
    retry_request header_list whole (λ n. n) (λ s. none) policy pure false flaky
    ≡ some (record { result = ok (reply 200); attempts = 3; sleeps = 250 ∷ 500 ∷ [] })
unfolding retry_request
third_attempt = refl

delay-le-max_example : delay whole (λ n. n) policy 9 (some 60000) ≤ 5000
delay-le-max_example = delay-le-max whole (λ n. n) policy 9 (some 60000) (λ m. omega arith)

retry_request_lem_example :
    (run : Run (Message (List (Text × Text)))) × (retry_request header_list whole
        (λ n. n)
        (λ s. none)
        policy
        pure
        false
        flaky
      ≡ some run)
    × IsFirstSettled header_list whole
        (λ n. n)
        (λ s. none)
        policy
        flaky
        (attempt_cap policy pure false)
        1
        run
retry_request_lem_example =
    retry_request_lem header_list whole (λ n. n) (λ s. none) policy pure false flaky
