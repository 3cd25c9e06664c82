-- ===== src/Idempotency/Runs.antt =====
-- Runs of the store: sequences of operations with their instants, and what they keep.
use rs2_runtime.Common.{
  ℕ, ◌%◌, ◌≡◌, ◌≢◌, refl, ◌∙◌, inl, inr, Bool, true, false, ◌||◌, Option, none, some, List, [], ◌∷◌,
  leb, ◌==◌, length, arith, Bool-cases, Option-cases, if◌then◌else◌,
}
use rs2_runtime.Common.Text.{Text}
use rs2_runtime.Idempotency.{
  StoredResponse, Slot, Entry, fresh, in_flight_already, payload_mismatch, in_flight, done,
  EntryState, found, Entries, Store, get, answer, mismatch, prepare, begin, complete, abandon,
  sweep_every,
}
use rs2_runtime.Idempotency.Slots.{
  IsMap, keep-IsMap, insert-IsMap, set_state-IsMap, get_remove_ne, get_insert_self, get_insert_ne,
  get_set_state_ne,
}
use rs2_runtime.Idempotency.Sweep.{sweep-busy, expire-busy, sweep-IsMap, expire-IsMap}

-- An operation of a client of the store.
pub data Op : Type 0 where
  begin_op : Slot → Option Text → Op
  complete_op : Slot → StoredResponse → Op
  abandon_op : Slot → Op

unfoldable pub step : ℕ → Op → Store → Store
unfolding begin complete abandon
step now (begin_op slot hash) store = (begin now slot hash store).0
step now (complete_op slot response) store = complete now slot response store
step now (abandon_op slot) store = abandon slot store

abbrev pub run : List (ℕ × Op) → Store → Store
run [] store = store
run ((now, op) ∷ ops) store = run ops (step now op store)

step_window : (now : ℕ) (op : Op) (store : Store) → (step now op store).window ≡ store.window
unfolding step begin complete abandon
step_window now (begin_op slot hash) store = refl
step_window now (complete_op slot response) store = refl
step_window now (abandon_op slot) store = refl

step_max_entries :
    (now : ℕ) (op : Op) (store : Store) → (step now op store).max_entries ≡ store.max_entries
unfolding step begin complete abandon
step_max_entries now (begin_op slot hash) store = refl
step_max_entries now (complete_op slot response) store = refl
step_max_entries now (abandon_op slot) store = refl

pub run_window : (ops : List (ℕ × Op)) (store : Store) → (run ops store).window ≡ store.window
run_window [] store = refl
run_window ((now, op) ∷ ops) store = run_window ops (step now op store) ∙ step_window now op store

pub run_max_entries :
    (ops : List (ℕ × Op)) (store : Store) → (run ops store).max_entries ≡ store.max_entries
run_max_entries [] store = refl
run_max_entries ((now, op) ∷ ops) store =
    run_max_entries ops (step now op store) ∙ step_max_entries now op store

-- The operation does not end the execution of a slot.
abbrev pub Leaves : Slot → Op → Type 0
Leaves slot (begin_op other hash) = Unit
Leaves slot (complete_op other response) = other ≢ slot
Leaves slot (abandon_op other) = other ≢ slot

abbrev pub AllLeave : Slot → List (ℕ × Op) → Type 0
AllLeave slot [] = Unit
AllLeave slot ((now, op) ∷ ops) = Leaves slot op × AllLeave slot ops

prepare-IsMap :
    (now : ℕ) (slot : Slot) (store : Store) → IsMap store.entries → IsMap (prepare now slot store)
unfolding prepare
prepare-IsMap now slot store m =
    elim (Bool-cases
      ((store.begins % sweep_every == 0) || leb store.max_entries (length store.entries))) [
        | inl swept ↦ rw swept (expire-IsMap _ _ slot _ (sweep-IsMap _ _ now true _ m))
        | inr not_yet ↦ rw not_yet (expire-IsMap _ _ slot _ m)
      ]

answer-IsMap :
    (slot : Slot) (hash : Option Text) (o : Option Entry) (es : Entries)
    → IsMap es
    → IsMap (answer slot hash o es).0
answer-IsMap slot hash none es m =
    insert-IsMap slot (record { payload_hash = hash; state = in_flight }) es m
answer-IsMap slot hash (some e) es m = m

-- Every operation keeps the slots apart.
pub step-IsMap :
    (now : ℕ) (op : Op) (store : Store) → IsMap store.entries → IsMap (step now op store).entries
unfolding step begin complete abandon
step-IsMap now (begin_op slot hash) store m =
    answer-IsMap slot hash _ _ (prepare-IsMap now slot store m)
step-IsMap now (complete_op slot response) store m = set_state-IsMap slot _ _ m
step-IsMap now (abandon_op slot) store m = keep-IsMap _ _ m

pub run-IsMap :
    (ops : List (ℕ × Op)) (store : Store) → IsMap store.entries → IsMap (run ops store).entries
run-IsMap [] store m = m
run-IsMap ((now, op) ∷ ops) store m = run-IsMap ops (step now op store) (step-IsMap now op store m)

module _ (slot : Slot) (e : Entry) (busy : e.state ≡ in_flight) where
  pub prepare-busy :
      (now : ℕ) (other : Slot) (store : Store)
      → IsMap store.entries
      → get slot store.entries ≡ some e
      → get slot (prepare now other store) ≡ some e
  unfolding prepare
  prepare-busy now other store m g =
      elim (Bool-cases
        ((store.begins % sweep_every == 0) || leb store.max_entries (length store.entries))) [
          | inl swept ↦
              rw swept
                (expire-busy slot e busy _ now other _ (sweep-busy slot e busy _ _ now true _ m g))
          | inr not_yet ↦ rw not_yet (expire-busy slot e busy _ now other _ g)
        ]

  answer-busy :
      (other : Slot) (hash : Option Text) (es : Entries)
      → get slot es ≡ some e
      → get slot (answer other hash (get other es) es).0 ≡ some e
  answer-busy other hash es g = elim (Option-cases (get other es)) [
    | inl absent ↦
        rw absent (get_insert_ne other slot _ es (λ q. absurd (ground (arith, g, absent, q))) ∙ g)
    | inr (d, f) ↦ rw f g
  ]

  pub step-busy :
      (now : ℕ) (op : Op) (store : Store)
      → Leaves slot op
      → IsMap store.entries
      → get slot store.entries ≡ some e
      → get slot (step now op store).entries ≡ some e
  unfolding step begin complete abandon
  step-busy now (begin_op other hash) store l m g =
      answer-busy other hash _ (prepare-busy now other store m g)
  step-busy now (complete_op other response) store l m g = get_set_state_ne other slot _ _ l ∙ g
  step-busy now (abandon_op other) store l m g = get_remove_ne other slot _ l ∙ g

  pub run-busy :
      (ops : List (ℕ × Op)) (store : Store)
      → AllLeave slot ops
      → IsMap store.entries
      → get slot store.entries ≡ some e
      → get slot (run ops store).entries ≡ some e
  run-busy [] store l m g = g
  run-busy ((now, op) ∷ ops) store (l, ls) m g =
      run-busy ops (step now op store) ls (step-IsMap now op store m) (step-busy now op store l m g)

  pub begin-busy :
      (now : ℕ) (hash : Option Text) (store : Store)
      → IsMap store.entries
      → get slot store.entries ≡ some e
      → (begin now slot hash store).1
        ≡ (if mismatch e.payload_hash hash then payload_mismatch else in_flight_already)
  unfolding begin
  begin-busy now hash store m g = rw (prepare-busy now slot store m g, busy) refl

answer-not_fresh :
    (differs : Bool) (s : EntryState) → (if differs then payload_mismatch else found s) ≢ fresh
answer-not_fresh true s h = absurd (ground arith)
answer-not_fresh false in_flight h = absurd (ground arith)
answer-not_fresh false (done r at) h = absurd (ground arith)

pub begin-fresh :
    (now : ℕ) (slot : Slot) (hash : Option Text) (store : Store)
    → (begin now slot hash store).1 ≡ fresh
    → get slot (begin now slot hash store).0.entries
      ≡ some (record { payload_hash = hash; state = in_flight })
unfolding begin
begin-fresh now slot hash store h = elim (Option-cases (get slot (prepare now slot store))) [
  | inl absent ↦ rw absent (get_insert_self slot _ _)
  | inr (e, f) ↦ absurd (answer-not_fresh (mismatch e.payload_hash hash) e.state (rw f at h))
]

-- After a registration that was the first of its slot, and any operations that neither complete
-- nor abandon the slot, at any instants, a registration of the slot is told that the first is
-- still in flight, or that its payload differs. The slots of the store are all different at the
-- start.
pub begin-IsExclusive :
    (slot : Slot) (hash again : Option Text) (first later : ℕ) (ops : List (ℕ × Op)) (store : Store)
    → IsMap store.entries
    → (begin first slot hash store).1 ≡ fresh
    → AllLeave slot ops
    → (begin later slot again (run ops (begin first slot hash store).0)).1
      ≡ (if mismatch hash again then payload_mismatch else in_flight_already)
unfolding step begin
begin-IsExclusive slot hash again first later ops store m h l =
    let start = step-IsMap first (begin_op slot hash) store m in
    let e : Entry = record { payload_hash = hash; state = in_flight } in
    begin-busy slot e refl later again (run ops (begin first slot hash store).0)
      (run-IsMap ops _ start)
      (run-busy slot e refl ops _ l start (begin-fresh first slot hash store h))
