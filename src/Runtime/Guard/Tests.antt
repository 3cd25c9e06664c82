-- ===== src/Runtime/Guard/Tests.antt =====
-- A host that two requests with one key come to.
use rs2_runtime.Common.{◌≡◌, ◌⊎◌, ◌≤◌, refl, inl, Bool, true, none, some, List, [], ◌∷◌, In, arith}
use rs2_runtime.Common.Text.{Text, lit, texts, byte_len}
use rs2_runtime.Error.{err}
use rs2_runtime.Message.{Message, header, external, post, shown, Bytes}
use rs2_runtime.Message.Headers.{header_list}
use rs2_runtime.Idempotency.{Slot, slot_eq, evict, sweep, expire, prepare, begin, complete, abandon}
use rs2_runtime.Idempotency.Http.{into_message, capture_response, scope_for, payload_hash}
use rs2_runtime.Runtime.Guard.{
  answered, still_executing, key_reuse, max_key_len, slot_of, admit_request, settle, Host,
  after_arrival, after_service, Reachable, started, arrives,
}
use rs2_runtime.Runtime.Guard.Exclusive.{Apart, Reachable-Apart, Reachable-refuses}

abbrev request : Message (header_list.Map)
request = record {
  method = post;
  url = record { path = lit "/orders"; query = []; base_path = []; service_path = lit "/orders" };
  headers = header_list.insert (lit "idempotency-key") (lit "k1") header_list.empty;
  status = none;
  body = none;
  tenant = lit "acme";
  principal = none;
  source = external;
  name = none;
  depth = 0;
}

abbrev is_name : Text → Bool
is_name t = true

abbrev digest : Bytes → Bytes
digest b = b

abbrev iter : header_list.Map → List (Text × Text)
iter m = []

unfoldable all_of : Unit {0}
unfolding texts slot_eq evict sweep expire prepare begin complete abandon into_message
    capture_response scope_for payload_hash admit_request settle
all_of = tt

abbrev empty : Host
empty = record {
  store = record { window = 100; max_entries = 8; entries = []; begins = 0 };
  executing = [];
}

abbrev one_executing : Host
one_executing = after_arrival header_list is_name shown digest iter 1 (lit "/") request empty

abbrev slot : Slot
slot = record { scope = lit "acme|/|POST|/orders"; key = lit "k1" }

first_executes : one_executing.executing ≡ slot ∷ []
unfolding all_of
first_executes = refl

second_is_refused :
    (admit_request header_list is_name shown digest 2 (lit "/") request one_executing.store).1
    ≡ answered (err still_executing)
unfolding all_of
second_is_refused = refl

-- After a failure of the service the key is free again.
retry_executes :
    (after_arrival header_list is_name shown digest iter 4 (lit "/") request (
      after_service header_list is_name shown digest iter 3 slot
        (err still_executing)
        one_executing)).executing
    ≡ slot ∷ []
unfolding all_of
retry_executes = refl

one_executing-Reachable : Reachable header_list is_name shown digest iter one_executing
one_executing-Reachable = arrives 1 (lit "/") request (started 100 8)

named : header header_list (lit "idempotency-key") request ≡ some (lit "k1")
unfolding all_of
named = refl

fits : byte_len (lit "k1") ≤ max_key_len
unfolding all_of
fits = omega arith

slot_executes :
    In
      (slot_of header_list is_name shown digest request (lit "/") (lit "k1"))
      one_executing.executing
unfolding all_of
slot_executes = inl refl

Reachable-Apart_example : Apart one_executing.executing
Reachable-Apart_example =
    Reachable-Apart header_list is_name shown digest iter one_executing one_executing-Reachable

Reachable-refuses_example :
    ((admit_request header_list is_name shown digest 2 (lit "/") request one_executing.store).1
      ≡ answered (err still_executing))
    ⊎ ((admit_request header_list is_name shown digest 2 (lit "/") request one_executing.store).1
        ≡ answered (err key_reuse))
Reachable-refuses_example =
    Reachable-refuses header_list is_name shown digest iter one_executing 2 (lit "/") (lit "k1")
      request one_executing-Reachable named fits slot_executes
