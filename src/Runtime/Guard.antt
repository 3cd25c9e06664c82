-- ===== src/Runtime/Guard.antt =====
-- The guard of the idempotency key around the service, in rs2-core/src/runtime.rs. A request is in two
-- parts, before and after its service runs, since other requests arrive in between. The service is
-- a parameter of the second part by what it returns.
pub mod Exclusive
mod Tests
use rs2_runtime.Common.{
  ℕ, ◌*◌, Bool, true, Option, none, some, List, [], ◌∷◌, ◌++◌, ltb, not, keep, In, if◌then◌else◌,
}
use rs2_runtime.Common.Text.{Text, lit, byte_len}
use rs2_runtime.Common.Text.Decimal.{decimal}
use rs2_runtime.Error.{Result, ok, err, RsError, bad_request, conflict, idempotency_key_reuse}
use rs2_runtime.Message.{Method, Message, HeaderApi, header, Bytes}
use rs2_runtime.Idempotency.{
  StoredResponse, Outcome, fresh, in_flight_already, payload_mismatch, replay, Slot, Store, slot_eq,
  begin, complete, abandon, with_capacity,
}
use rs2_runtime.Idempotency.Http.{into_message, capture_response, scope_for, payload_hash}

-- `MAX_KEY_LEN` and `DEFAULT_BODY_CAP` of idempotency.rs.
abbrev pub max_key_len : ℕ
max_key_len = 256

abbrev pub default_body_cap : ℕ
default_body_cap = 1024 * 1024

abbrev pub still_executing : RsError
still_executing =
    let e = conflict (lit "a request with this Idempotency-Key is still executing") in
    record e { retryable = true; retry_after_ms = some 1000 }

abbrev pub key_reuse : RsError
key_reuse =
    idempotency_key_reuse (lit "Idempotency-Key was already used with a different request payload")

abbrev pub key_too_long : RsError
key_too_long =
    bad_request (lit "Idempotency-Key exceeds " ++ (decimal max_key_len ++ lit " characters"))

-- What the guard makes of a request: an answer without the service, or a run of the service, under a
-- slot where the request has a key.
pub data Admission (M : Type 0) : Type 0 where
  answered : Result M → Admission M
  unguarded : Admission M
  executes : Slot → Admission M

module _ (api : HeaderApi) (is_name : Text → Bool) (method_name : Method → Text)
    (sha256 : Bytes → Bytes) where
  abbrev pub on_begin : Slot → Message (api.Map) → Outcome → Admission (Message (api.Map))
  on_begin slot msg (replay stored) = answered (ok (into_message api is_name stored msg))
  on_begin slot msg in_flight_already = answered (err still_executing)
  on_begin slot msg payload_mismatch = answered (err key_reuse)
  on_begin slot msg fresh = executes slot

  abbrev pub slot_of : Message (api.Map) → Text → Text → Slot
  slot_of msg base key = record { scope = scope_for method_name msg base; key = key }

  abbrev pub begun :
      Slot → Message (api.Map) → Store × Outcome → Store × Admission (Message (api.Map))
  begun slot msg (store, outcome) = (store, on_begin slot msg outcome)

  abbrev pub with_key :
      ℕ → Text → Message (api.Map) → Store → Option Text → Store × Admission (Message (api.Map))
  with_key now base msg store none = (store, unguarded)
  with_key now base msg store (some key) =
      if ltb max_key_len (byte_len key)
      then (store, answered (err key_too_long))
      else begun (slot_of msg base key) msg
          (begin now (slot_of msg base key) (payload_hash sha256 msg) store)

  -- Before the service.
  unfoldable pub admit_request :
      ℕ → Text → Message (api.Map) → Store → Store × Admission (Message (api.Map))
  admit_request now base msg store =
      with_key now base msg store (header api (lit "idempotency-key") msg)

abbrev pub record_response : ℕ → Slot → Option StoredResponse → Store → Store
record_response now slot none store = abandon slot store
record_response now slot (some stored) store = complete now slot stored store

-- After the service, with what it returned.
unfoldable pub settle :
    {H : Type 0}
    → (H → List (Text × Text))
    → ℕ
    → Slot
    → Result (Message H)
    → Store
    → Store × Result (Message H)
settle iter now slot (err e) store = (abandon slot store, err e)
settle iter now slot (ok resp) store =
    let (captured, stored) = capture_response iter resp default_body_cap in
    (record_response now slot stored store, ok captured)

-- A host: the store, and the slots whose services are running.
pub record Host : Type 0 where
  pub store : Store
  pub executing : List Slot

abbrev pub noted : {M : Type 0} → Admission M → List Slot → List Slot
noted (executes slot) running = slot ∷ running
noted (answered r) running = running
noted unguarded running = running

abbrev pub without : Slot → List Slot → List Slot
without slot running = keep (λ s. not (slot_eq s slot)) running

module _ (api : HeaderApi) (is_name : Text → Bool) (method_name : Method → Text)
    (sha256 : Bytes → Bytes) (iter : api.Map → List (Text × Text)) where
  abbrev pub after_arrival : ℕ → Text → Message (api.Map) → Host → Host
  after_arrival now base msg host =
      let (store, admission) =
        admit_request api is_name method_name sha256 now base msg host.store in
      record { store = store; executing = noted admission host.executing }

  abbrev pub after_service : ℕ → Slot → Result (Message (api.Map)) → Host → Host
  after_service now slot result host = record {
    store = (settle iter now slot result host.store).0;
    executing = without slot host.executing;
  }

  -- The states that arrivals and returns of services lead to, in any order and at any instants.
  pub data Reachable : Host → Type 0 where
    started :
        (window max_entries : ℕ)
        → Reachable (record { store = with_capacity window max_entries; executing = [] })
    arrives :
        {host : Host} (now : ℕ) (base : Text) (msg : Message (api.Map))
        → Reachable host
        → Reachable (after_arrival now base msg host)
    returns :
        {host : Host} (now : ℕ) (slot : Slot) (result : Result (Message (api.Map)))
        → In slot host.executing
        → Reachable host
        → Reachable (after_service now slot result host)
