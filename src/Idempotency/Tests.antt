-- ===== src/Idempotency/Tests.antt =====
-- A store with two slots, and the theorems at it.
use rs2_runtime.Common.{
  ℕ, ◌≡◌, ◌≢◌, ◌≤◌, ◌⊎◌, max, refl, ap, Option, none, some, [], ◌∷◌, length, arith, List,
  if◌then◌else◌,
}
use rs2_runtime.Common.Text.{Text, lit, texts, text_ne}
use rs2_runtime.Message.{Method, Message, get, external}
use rs2_runtime.Idempotency.{
  StoredResponse, Slot, Store, fresh, in_flight_already, payload_mismatch, replay, slot_eq, evict,
  sweep, expire, prepare, begin, complete, abandon, with_capacity, mismatch,
}
use rs2_runtime.Idempotency.Runs.{Op, begin_op, complete_op, step, run, begin-IsExclusive}
use rs2_runtime.Idempotency.Replay.{view, begin_spec, entry_spec}
use rs2_runtime.Idempotency.Contract.{begin-refines, begin-replays}
use rs2_runtime.Idempotency.Capacity.{IsBusy, begin-IsBounded}

abbrev order : Slot
order = record { scope = lit "acme|/|POST|/orders"; key = lit "k1" }

abbrev other : Slot
other = record { scope = lit "acme|/|POST|/orders"; key = lit "k2" }

abbrev created : StoredResponse
created = record { status = 201; headers = []; body = none }

abbrev empty : Store
empty = with_capacity 100 2

abbrev hash : Option Text
hash = some (lit "h1")

abbrev between : List (ℕ × Op)
between = (5, begin_op other none) ∷ (6, complete_op other created) ∷ (7, begin_op order none) ∷ []

unfoldable ops : Unit {0}
unfolding texts slot_eq evict sweep expire prepare begin complete abandon step
ops = tt

first_is_fresh : (begin 1 order hash empty).1 ≡ fresh
unfolding ops
first_is_fresh = refl

apart : other ≢ order
apart e = text_ne (lit "k2") (lit "k1") (unfold texts in refl) (ap (λ (s : Slot). s.key) e)

begin-IsExclusive_example :
    (begin 9 order (some (lit "h2")) (run between (begin 1 order hash empty).0)).1
    ≡ (if mismatch hash (some (lit "h2")) then payload_mismatch else in_flight_already)
begin-IsExclusive_example =
    begin-IsExclusive order hash (some (lit "h2")) 1 9 between empty tt first_is_fresh
      (tt, (apart, (tt, tt)))

begin-replays_example :
    (begin 90 order none
      (complete 10 order created (run between (begin 1 order hash (with_capacity 100 3)).0))).1
    ≡ replay created
unfolding ops
begin-replays_example =
    begin-replays order hash none created 1 10 90 between (with_capacity 100 3) tt refl
      (tt, (apart, (tt, tt))) refl (omega arith) (omega arith)

begin-IsBounded_example :
    (length (begin 1 order hash empty).0.entries ≤ max 2 0)
    ⊎ IsBusy (begin 1 order hash empty).0.entries
begin-IsBounded_example = begin-IsBounded 1 order hash empty tt

begin-refines_example :
    ((begin 1 order hash empty).1 ≡ begin_spec hash (view empty 1 order))
    × (view (begin 1 order hash empty).0 1 order ≡ entry_spec hash (view empty 1 order))
    × ((s : Slot) → order ≢ s → view (begin 1 order hash empty).0 1 s ≡ view empty 1 s)
begin-refines_example = begin-refines 1 order hash empty tt (omega arith)

abbrev method_name : Method → Text
method_name get = lit "GET"
method_name m = lit "POST"

abbrev request : Method → Message (Unit {0})
request m = record {
  method = m;
  url = record { path = lit "/a|b"; query = []; base_path = []; service_path = [] };
  headers = tt;
  status = none;
  body = none;
  tenant = lit "acme";
  principal = none;
  source = external;
  name = none;
  depth = 0;
}
