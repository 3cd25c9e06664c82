-- ===== src/Runtime/Guard/Exclusive.antt =====
-- No slot is executed twice at a time.
use rs2_runtime.Common.{
  ℕ, ◌≤◌, ◌⊎◌, ◌≡◌, ◌≢◌, refl, sym, ◌∙◌, inl, inr, Bool, true, false, Option, none, some, List, [],
  ◌∷◌, In, All, All-at, ltb, if◌then◌else◌, Bool-cases, arith,
}
use rs2_runtime.Common.Text.{Text, lit, byte_len}
use rs2_runtime.Error.{Result, ok, err}
use rs2_runtime.Message.{Method, Message, HeaderApi, header, Bytes}
use rs2_runtime.Idempotency.{
  StoredResponse, Outcome, fresh, in_flight_already, payload_mismatch, replay, in_flight, Entry,
  Slot, Store, slot_eq, get, begin, mismatch,
}
use rs2_runtime.Idempotency.Slots.{IsMap, slot_eq_iff}
use rs2_runtime.Idempotency.Runs.{
  Op, begin_op, complete_op, abandon_op, step, Leaves, step-IsMap, step-busy, begin-busy,
  begin-fresh,
}
use rs2_runtime.Idempotency.Http.{capture_response, payload_hash}
use rs2_runtime.Runtime.Guard.{
  still_executing, key_reuse, answered, on_begin, with_key, slot_of, admit_request, record_response,
  settle, max_key_len, default_body_cap, Host, noted, without, after_service, Reachable, started,
  arrives, returns,
}

-- The slots are all different.
abbrev pub Apart : List Slot → Type 0
Apart [] = Unit
Apart (s ∷ ss) = (In s ss → ⊥) × Apart ss

-- The store has the slot in flight.
abbrev Busy : Store → Slot → Type 0
Busy store s = (e : Entry) × (get s store.entries ≡ some e) × (e.state ≡ in_flight)

abbrev IsExclusive : Host → Type 0
IsExclusive host =
    IsMap host.store.entries × All (Busy host.store) host.executing × Apart host.executing

step-Busy :
    (now : ℕ) (op : Op) (store : Store) (s : Slot)
    → IsMap store.entries
    → Leaves s op
    → Busy store s
    → Busy (step now op store) s
step-Busy now op store s m l (e, g, b) = (e, step-busy s e b now op store l m g, b)

-- An operation that leaves all the slots alone keeps them in flight.
step-All :
    (now : ℕ) (op : Op) (store : Store) (ss : List Slot)
    → IsMap store.entries
    → ((s : Slot) → In s ss → Leaves s op)
    → All (Busy store) ss
    → All (Busy (step now op store)) ss
step-All now op store [] m l h = tt
step-All now op store (s ∷ ss) m l (b, h) = (
  step-Busy now op store s m (l s (inl refl)) b,
  step-All now op store ss m (λ t k. l t (inr k)) h,
)

module _ (slot : Slot) where
  without-cases :
      (s t : Slot) (ss ts : List Slot)
      → slot_eq t slot ≡ false
      → (In s ts → In s ss × (slot ≢ s))
      → In s (t ∷ ts)
      → In s (t ∷ ss) × (slot ≢ s)
  without-cases s t ss ts differ h (inl e) =
      (inl e, λ q. absurd (ground (arith, slot_eq_iff t slot, sym (q ∙ e))))
  without-cases s t ss ts differ h (inr k) = let (m, ne) = h k in (inr m, ne)

  without-In : (s : Slot) (ss : List Slot) → In s (without slot ss) → In s ss × (slot ≢ s)
  without-In s [] m = elim m [ ]
  without-In s (t ∷ ss) m = elim (Bool-cases (slot_eq t slot)) [
    | inl same ↦ let (k, ne) = without-In s ss (rw same at m) in (inr k, ne)
    | inr differ ↦ without-cases s t ss (without slot ss) differ (without-In s ss) (rw differ at m)
  ]

  without-All : (P : Slot → Type 0) (ss : List Slot) → All P ss → All P (without slot ss)
  without-All P [] h = tt
  without-All P (t ∷ ss) (p, h) = elim (Bool-cases (slot_eq t slot)) [
    | inl same ↦ rw same (without-All P ss h)
    | inr differ ↦ rw differ (p, without-All P ss h)
  ]

  without-Apart : (ss : List Slot) → Apart ss → Apart (without slot ss)
  without-Apart [] h = tt
  without-Apart (t ∷ ss) (a, h) = elim (Bool-cases (slot_eq t slot)) [
    | inl same ↦ rw same (without-Apart ss h)
    | inr differ ↦ rw differ ((λ m. a (without-In t ss m).0), without-Apart ss h)
  ]

begin-IsMap :
    (now : ℕ) (slot : Slot) (hash : Option Text) (host : Host)
    → IsMap host.store.entries
    → IsMap (begin now slot hash host.store).0.entries
unfolding step
begin-IsMap now slot hash host m = step-IsMap now (begin_op slot hash) host.store m

begin_kept :
    (now : ℕ) (slot : Slot) (hash : Option Text) (host : Host)
    → IsMap host.store.entries
    → All (Busy host.store) host.executing
    → All (Busy (begin now slot hash host.store).0) host.executing
unfolding step
begin_kept now slot hash host m busy =
    step-All now (begin_op slot hash) host.store host.executing m (λ s k. tt) busy

not_fresh : (b : Bool) → (if b then payload_mismatch else in_flight_already) ≡ fresh → ⊥
not_fresh true h = absurd (ground arith)
not_fresh false h = absurd (ground arith)

-- A slot that is registered first is not executed.
begin-not_executing :
    (now : ℕ) (slot : Slot) (hash : Option Text) (host : Host)
    → IsExclusive host
    → (begin now slot hash host.store).1 ≡ fresh
    → In slot host.executing
    → ⊥
begin-not_executing now slot hash host (m, busy, apart) f k =
    let (e, g, b) = All-at (Busy host.store) host.executing slot busy k in
    not_fresh (mismatch e.payload_hash hash) (sym (begin-busy slot e b now hash host.store m g) ∙ f)

recorded :
    (now : ℕ) (slot : Slot) (stored : Option StoredResponse) (store : Store)
    → (op : Op) × (record_response now slot stored store ≡ step now op store)
      × ((s : Slot) → slot ≢ s → Leaves s op)
unfolding step
recorded now slot none store = (abandon_op slot, refl, λ s ne. ne)
recorded now slot (some r) store = (complete_op slot r, refl, λ s ne. ne)

module _ (api : HeaderApi) (is_name : Text → Bool) (method_name : Method → Text)
    (sha256 : Bytes → Bytes) (iter : api.Map → List (Text × Text)) where
  begin-IsExclusive_host :
      (now : ℕ) (slot : Slot) (hash : Option Text) (msg : Message (api.Map)) (host : Host)
      (o : Outcome)
      → IsExclusive host
      → (begin now slot hash host.store).1 ≡ o
      → IsExclusive (record {
        store = (begin now slot hash host.store).0;
        executing = noted (on_begin api is_name method_name sha256 slot msg o) host.executing;
      })
  begin-IsExclusive_host now slot hash msg host fresh (m, busy, apart) f = (
    begin-IsMap now slot hash host m,
    ((_, begin-fresh now slot hash host.store f, refl), begin_kept now slot hash host m busy),
    (begin-not_executing now slot hash host (m, busy, apart) f, apart),
  )
  begin-IsExclusive_host now slot hash msg host in_flight_already (m, busy, apart) f =
      (begin-IsMap now slot hash host m, begin_kept now slot hash host m busy, apart)
  begin-IsExclusive_host now slot hash msg host payload_mismatch (m, busy, apart) f =
      (begin-IsMap now slot hash host m, begin_kept now slot hash host m busy, apart)
  begin-IsExclusive_host now slot hash msg host (replay r) (m, busy, apart) f =
      (begin-IsMap now slot hash host m, begin_kept now slot hash host m busy, apart)

  with_key-IsExclusive :
      (now : ℕ) (base : Text) (msg : Message (api.Map)) (host : Host) (key : Option Text)
      → IsExclusive host
      → IsExclusive (record {
        store = (with_key api is_name method_name sha256 now base msg host.store key).0;
        executing =
            noted
              (with_key api is_name method_name sha256 now base msg host.store key).1
              host.executing;
      })
  with_key-IsExclusive now base msg host none h = h
  with_key-IsExclusive now base msg host (some key) h =
      elim (Bool-cases (ltb max_key_len (byte_len key))) [
        | inl long ↦ rw long h
        | inr fits ↦ rw fits (
            begin-IsExclusive_host now (slot_of api is_name method_name sha256 msg base key)
              (payload_hash sha256 msg) msg host _ h refl)
      ]

  settle-store :
      (now : ℕ) (slot : Slot) (result : Result (Message (api.Map))) (store : Store)
      → (op : Op) × ((settle iter now slot result store).0 ≡ step now op store)
        × ((s : Slot) → slot ≢ s → Leaves s op)
  unfolding settle step
  settle-store now slot (err e) store = (abandon_op slot, refl, λ s ne. ne)
  settle-store now slot (ok resp) store =
      recorded now slot ((capture_response iter resp default_body_cap).1) store

  service-IsExclusive :
      (now : ℕ) (slot : Slot) (result : Result (Message (api.Map))) (host : Host)
      → IsExclusive host
      → IsExclusive (after_service api is_name method_name sha256 iter now slot result host)
  service-IsExclusive now slot result host (m, busy, apart) =
      let (op, e, leaves) = settle-store now slot result host.store in
      rw e (
        step-IsMap now op host.store m,
        step-All now op host.store (without slot host.executing) m
            (λ s k. leaves s (without-In slot s host.executing k).1)
            (without-All slot (Busy host.store) host.executing busy),
        without-Apart slot host.executing apart,
      )

  Reachable-IsExclusive :
      (host : Host) → Reachable api is_name method_name sha256 iter host → IsExclusive host
  unfolding admit_request
  Reachable-IsExclusive _ (started window max_entries) = (tt, tt, tt)
  Reachable-IsExclusive _ (arrives {host} now base msg r) =
      with_key-IsExclusive now base msg host (header api (lit "idempotency-key") msg)
        (Reachable-IsExclusive host r)
  Reachable-IsExclusive _ (returns {host} now slot result k r) =
      service-IsExclusive now slot result host (Reachable-IsExclusive host r)

  -- A registration of a slot in flight is refused.
  refused :
      (differs : Bool) (slot : Slot) (msg : Message (api.Map)) (o : Outcome)
      → o ≡ (if differs then payload_mismatch else in_flight_already)
      → (on_begin api is_name method_name sha256 slot msg o ≡ answered (err still_executing))
        ⊎ (on_begin api is_name method_name sha256 slot msg o ≡ answered (err key_reuse))
  refused true slot msg o h = rw h (inr refl)
  refused false slot msg o h = rw h (inl refl)

  executing-refused :
      (host : Host) (now : ℕ) (base key : Text) (msg : Message (api.Map))
      → IsExclusive host
      → header api (lit "idempotency-key") msg ≡ some key
      → byte_len key ≤ max_key_len
      → In (slot_of api is_name method_name sha256 msg base key) host.executing
      → ((admit_request api is_name method_name sha256 now base msg host.store).1
          ≡ answered (err still_executing))
        ⊎ ((admit_request api is_name method_name sha256 now base msg host.store).1
            ≡ answered (err key_reuse))
  unfolding admit_request
  executing-refused host now base key msg (m, busy, apart) named fits k =
      let slot = slot_of api is_name method_name sha256 msg base key in
      let hash = payload_hash sha256 msg in
      let (e, g, b) = All-at (Busy host.store) host.executing slot busy k in
      let short : ltb max_key_len (byte_len key) ≡ false = ground arith in
      rw (named, short)
        (refused (mismatch e.payload_hash hash) slot msg (begin now slot hash host.store).1
          (begin-busy slot e b now hash host.store m g))

-- In every state of a host that arrivals of requests and returns of their services lead to, in
-- any order and at any instants, no slot has two services running.
pub Reachable-Apart :
    (api : HeaderApi) (is_name : Text → Bool) (method_name : Method → Text) (sha256 : Bytes → Bytes)
    (iter : api.Map → List (Text × Text)) (host : Host)
    → Reachable api is_name method_name sha256 iter host
    → Apart host.executing
Reachable-Apart api is_name method_name sha256 iter host r =
    (Reachable-IsExclusive api is_name method_name sha256 iter host r).2

-- In every state of a host that arrivals of requests and returns of their services lead to, a
-- request with a key that is not too long, whose slot has a service running, is answered without
-- the service: with the conflict or with the reuse of its key.
pub Reachable-refuses :
    (api : HeaderApi) (is_name : Text → Bool) (method_name : Method → Text) (sha256 : Bytes → Bytes)
    (iter : api.Map → List (Text × Text)) (host : Host) (now : ℕ) (base key : Text)
    (msg : Message (api.Map))
    → Reachable api is_name method_name sha256 iter host
    → header api (lit "idempotency-key") msg ≡ some key
    → byte_len key ≤ max_key_len
    → In (slot_of api is_name method_name sha256 msg base key) host.executing
    → ((admit_request api is_name method_name sha256 now base msg host.store).1
        ≡ answered (err still_executing))
      ⊎ ((admit_request api is_name method_name sha256 now base msg host.store).1
          ≡ answered (err key_reuse))
Reachable-refuses api is_name method_name sha256 iter host now base key msg r named fits k =
    executing-refused api is_name method_name sha256 iter host now base key msg
      (Reachable-IsExclusive api is_name method_name sha256 iter host r) named fits k
