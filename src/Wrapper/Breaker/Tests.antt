-- ===== src/Wrapper/Breaker/Tests.antt =====
-- A breaker that trips at the second breach, and the theorems at it.
use rs2_runtime.Common.{◌≡◌, ◌≢◌, refl, none, some, [], ◌∷◌, arith, keep}
use rs2_runtime.Common.Text.{Text, lit, texts, text_ne}
use rs2_runtime.Error.{ok, err}
use rs2_runtime.Wrapper.{LimitTable, default_limits}
use rs2_runtime.Wrapper.Breaker.{
  fresh, States, check, breaker_error, opened, pop_old, breach, record_breach,
}
use rs2_runtime.Wrapper.Breaker.Window.{record_all, in_window, record_all-window}
use rs2_runtime.Wrapper.Breaker.Trips.{check_half_open, breaches, breaker_trips}

abbrev limits : LimitTable
limits =
    let base = default_limits in
    record base { breaker_threshold = 2; breaker_window = 10; breaker_cooldown = 5 }

abbrev acme : Text
acme = lit "acme"

abbrev nobody : States
nobody t = none

abbrev tripped : States
tripped = breaches acme limits nobody (1 ∷ 7 ∷ [])

tripped_until : opened (tripped acme) ≡ some 12
unfolding texts record_breach breach pop_old
tripped_until = refl

spread_out : opened (breaches acme limits nobody (1 ∷ 20 ∷ []) acme) ≡ none
unfolding texts record_breach breach pop_old
spread_out = refl

acme_ne_beta : acme ≢ lit "beta"
acme_ne_beta = text_ne acme (lit "beta") (unfold texts in refl)

check_half_open_example :
    ((check acme 12 tripped).1 ≡ ok tt) × ((check acme 12 tripped).0 acme ≡ some fresh)
check_half_open_example = check_half_open acme tripped 12 12 tripped_until (omega arith)

record_all-window_example :
    (record_all limits fresh (1 ∷ 7 ∷ 15 ∷ [])).recent_breaches
    ≡ keep (in_window 15 10) (1 ∷ 7 ∷ 15 ∷ [])
record_all-window_example = record_all-window limits (1 ∷ 7 ∷ 15 ∷ []) (omega arith)

breaker_trips_example :
    (check acme 9 (breaches acme limits nobody (1 ∷ 7 ∷ []))).1 ≡ err (breaker_error acme 3)
breaker_trips_example =
    breaker_trips acme limits nobody (1 ∷ []) 7 9 refl (omega arith) (omega arith) (omega arith)
      (omega arith)
