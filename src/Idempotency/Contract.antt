-- ===== src/Idempotency/Contract.antt =====
-- What a registration does to the view of a store with room for another entry, and that a completed
-- request is replayed.
use rs2_runtime.Common.{
  ℕ, ◌-◌, ◌≤◌, ◌<◌, ◌≡◌, ◌≢◌, refl, ap, ◌∙◌, inl, inr, true, false, Option, none, some, List, leb,
  length, Bool-cases, Option-cases, le→leb,
}
use rs2_runtime.Common.Text.{Text}
use rs2_runtime.Idempotency.{
  StoredResponse, Slot, Entry, fresh, replay, in_flight, done, Entries, Store, get, answer, live,
  mismatch, prepare, begin, complete,
}
use rs2_runtime.Idempotency.Slots.{IsMap, get_insert_self, get_insert_ne, get_set_state_self}
use rs2_runtime.Idempotency.Runs.{
  Op, begin_op, complete_op, step, run_window, run_max_entries, run, AllLeave, begin-fresh,
  run-busy, run-IsMap, step-IsMap,
}
use rs2_runtime.Idempotency.Replay.{covered, view, begin_spec, entry_spec, prepare_self, prepare_ne}

module _ (now : ℕ) (slot : Slot) (hash : Option Text) (store : Store) (m : IsMap store.entries)
    (room : length store.entries < store.max_entries) where
  answer-outcome : (o : Option Entry) (es : Entries) → (answer slot hash o es).1 ≡ begin_spec hash o
  answer-outcome none es = refl
  answer-outcome (some e) es = refl

  answer_self :
      (es : Entries)
      → get slot (answer slot hash (get slot es) es).0 ≡ entry_spec hash (get slot es)
  answer_self es = elim (Option-cases (get slot es)) [
    | inl absent ↦ rw absent (get_insert_self slot _ es)
    | inr (e, f) ↦ rw (f) f
  ]

  answer_ne :
      (other : Slot) (o : Option Entry) (es : Entries)
      → slot ≢ other
      → get other (answer slot hash o es).0 ≡ get other es
  answer_ne other none es h = get_insert_ne slot other _ es h
  answer_ne other (some e) es h = refl

  covered-entry_spec :
      (o : Option Entry)
      → covered store.window now slot (entry_spec hash (covered store.window now slot o))
        ≡ entry_spec hash (covered store.window now slot o)
  covered-entry_spec none = refl
  covered-entry_spec (some e) = elim (Bool-cases (live store.window now (slot, e))) [
    | inl l ↦ rw (l, l) refl
    | inr l ↦ rw l refl
  ]

  -- A store whose slots are all different, with room for another entry, answers a registration as
  -- the view of its slot tells it to, makes of that view what the specification says, and leaves
  -- the view of every other slot as it is.
  pub begin-refines :
      ((begin now slot hash store).1 ≡ begin_spec hash (view store now slot))
      × (view (begin now slot hash store).0 now slot ≡ entry_spec hash (view store now slot))
      × ((other : Slot)
          → slot ≢ other
          → view (begin now slot hash store).0 now other ≡ view store now other)
  unfolding begin
  begin-refines =
      let es = prepare now slot store in
      let self = prepare_self now slot store m room in
      (
        answer-outcome (get slot es) es ∙ ap (begin_spec hash) self,
        ap (covered store.window now slot) (answer_self es ∙ ap (entry_spec hash) self)
            ∙ covered-entry_spec (get slot store.entries),
        λ other h.
            ap (covered store.window now other) (answer_ne other _ es h)
            ∙ prepare_ne now slot store m room other h,
      )

-- A request that was the first of its slot and was then completed is replayed to a registration
-- of the slot while the window covers the completion, if the payload is not known to differ:
-- whatever operations stood between, as long as they neither completed nor abandoned the slot, if
-- the slots of the store were all different and it has room for another entry at the end.
pub begin-replays :
    (slot : Slot) (hash again : Option Text) (response : StoredResponse) (first at later : ℕ)
    (ops : List (ℕ × Op)) (store : Store)
    → IsMap store.entries
    → (begin first slot hash store).1 ≡ fresh
    → AllLeave slot ops
    → mismatch hash again ≡ false
    → later - at ≤ store.window
    → length (complete at slot response (run ops (begin first slot hash store).0)).entries
      < store.max_entries
    → (begin later slot again
        (complete at slot response (run ops (begin first slot hash store).0))).1
      ≡ replay response
unfolding step begin complete
begin-replays slot hash again response first at later ops store m h l same time room =
    let s0 = step first (begin_op slot hash) store in
    let m0 : IsMap s0.entries = step-IsMap first (begin_op slot hash) store m in
    let busy =
      run-busy slot (record { payload_hash = hash; state = in_flight }) refl ops s0 l m0
        (begin-fresh first slot hash store h) in
    let s1 = complete at slot response (run ops s0) in
    let m1 : IsMap s1.entries =
      step-IsMap at (complete_op slot response) (run ops s0) (run-IsMap ops s0 m0) in
    let now_done = get_set_state_self slot (done response at) (run ops s0).entries _ busy in
    let covers : leb (later - at) (run ops s0).window ≡ true =
      rw (run_window ops s0) (le→leb (later - at) store.window time) in
    (begin-refines later slot again s1 m1 (rw (run_max_entries ops s0) room)).0
    ∙ rw (now_done, covers, same) refl
