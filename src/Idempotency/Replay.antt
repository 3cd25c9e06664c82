-- ===== src/Idempotency/Replay.antt =====
-- The store as its clients see it: the entries that the window still covers. A store with room for
-- another entry does to this view what the specification says, whatever its sweeps drop.
use rs2_runtime.Common.{
  ℕ, ◌%◌, ◌<◌, ◌≡◌, ◌≢◌, refl, ap, ◌∙◌, inl, inr, true, ◌||◌, Option, none, some, leb, ◌==◌, length,
  keep, length-keep, arith, Bool-cases, Option-cases, if◌then◌else◌,
}
use rs2_runtime.Common.Text.{Text}
use rs2_runtime.Idempotency.{
  Slot, Entry, Outcome, fresh, payload_mismatch, in_flight, found, Entries, Store, get, mismatch,
  prepare, sweep, evict, expire, live, sweep_every,
}
use rs2_runtime.Idempotency.Slots.{IsMap, get_remove_ne, get_remove_self, get-keep, keep-none}

abbrev pub covered : ℕ → ℕ → Slot → Option Entry → Option Entry
covered window now slot none = none
covered window now slot (some e) = if live window now (slot, e) then some e else none

-- The entry of a slot that a client sees at an instant.
abbrev pub view : Store → ℕ → Slot → Option Entry
view store now slot = covered store.window now slot (get slot store.entries)

-- The specification: what a registration answers, and what it makes of the view.
abbrev pub begin_spec : Option Text → Option Entry → Outcome
begin_spec hash none = fresh
begin_spec hash (some e) = if mismatch e.payload_hash hash then payload_mismatch else found e.state

abbrev pub entry_spec : Option Text → Option Entry → Option Entry
entry_spec hash none = some (record { payload_hash = hash; state = in_flight })
entry_spec hash (some e) = some e

module _ (window now : ℕ) where
  covered-idempotent :
      (slot : Slot) (o : Option Entry)
      → covered window now slot (covered window now slot o) ≡ covered window now slot o
  covered-idempotent slot none = refl
  covered-idempotent slot (some e) = elim (Bool-cases (live window now (slot, e))) [
    | inl l ↦ rw (l, l) refl
    | inr l ↦ rw l refl
  ]

  get-keep-live :
      (slot : Slot) (es : Entries)
      → IsMap es
      → get slot (keep (live window now) es) ≡ covered window now slot (get slot es)
  get-keep-live slot es m = elim (Option-cases (get slot es)) [
    | inl absent ↦ rw absent (keep-none slot (live window now) es absent)
    | inr (e, f) ↦ elim (Bool-cases (live window now (slot, e))) [
      | inl l ↦ rw (f, l) ((get-keep slot (live window now) es e m).1 (f, l))
      | inr l ↦ elim (Option-cases (get slot (keep (live window now) es))) [
        | inl gone ↦ rw (f, l) gone
        | inr (d, k) ↦
            let both = (get-keep slot (live window now) es d m).0 k in
            let p = both.0 in let q = both.1 in absurd (ground (arith, p, q, f, l))
      ]
    ]
  ]

  expire_self :
      (slot : Slot) (es : Entries)
      → get slot (expire window now slot es) ≡ covered window now slot (get slot es)
  unfolding expire
  expire_self slot es = elim (Option-cases (get slot es)) [
    | inl absent ↦ rw (absent) absent
    | inr (e, f) ↦ elim (Bool-cases (live window now (slot, e))) [
      | inl l ↦ rw (f, l) f
      | inr l ↦ rw (f, l) (get_remove_self slot es)
    ]
  ]

  expire_ne :
      (slot other : Slot) (es : Entries)
      → slot ≢ other
      → get other (expire window now slot es) ≡ get other es
  unfolding expire
  expire_ne slot other es h = elim (Option-cases (get slot es)) [
    | inl absent ↦ rw absent refl
    | inr (e, f) ↦ elim (Bool-cases (live window now (slot, e))) [
      | inl l ↦ rw (f, l) refl
      | inr l ↦ rw (f, l) (get_remove_ne slot other es h)
    ]
  ]

  sweep-room :
      (max_entries : ℕ) (es : Entries)
      → length es < max_entries
      → sweep window max_entries now true es ≡ keep (live window now) es
  unfolding sweep evict
  sweep-room max_entries es h = ground (arith, length-keep (live window now) es)

module _ (now : ℕ) (slot : Slot) (store : Store) (m : IsMap store.entries)
    (room : length store.entries < store.max_entries) where
  pub prepare_self : get slot (prepare now slot store) ≡ view store now slot
  unfolding prepare
  prepare_self =
      elim (Bool-cases
        ((store.begins % sweep_every == 0) || leb store.max_entries (length store.entries))) [
          | inl swept ↦
              rw (swept, sweep-room store.window now store.max_entries store.entries room)
                (expire_self store.window now slot _
                  ∙ (ap (covered store.window now slot)
                        (get-keep-live store.window now slot store.entries m)
                      ∙ covered-idempotent store.window now slot _))
          | inr not_yet ↦ rw not_yet (expire_self store.window now slot store.entries)
        ]

  pub prepare_ne :
      (other : Slot)
      → slot ≢ other
      → covered store.window now other (get other (prepare now slot store)) ≡ view store now other
  unfolding prepare
  prepare_ne other h =
      elim (Bool-cases
        ((store.begins % sweep_every == 0) || leb store.max_entries (length store.entries))) [
          | inl swept ↦
              rw (swept, sweep-room store.window now store.max_entries store.entries room)
                (ap (covered store.window now other) (
                    expire_ne store.window now slot other _ h
                    ∙ get-keep-live store.window now other store.entries m)
                  ∙ covered-idempotent store.window now other _)
          | inr not_yet ↦
              rw not_yet
                (ap (covered store.window now other) (expire_ne store.window now slot other _ h))
        ]
