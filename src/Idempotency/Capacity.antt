-- ===== src/Idempotency/Capacity.antt =====
-- The bound on the number of entries that the store retains.
use rs2_runtime.Common.{
  ℕ, zero, suc, ◌+◌, ◌/◌, ◌%◌, ◌≤◌, ◌<◌, max, ◌≡◌, ◌⊎◌, refl, inl, inr, Bool, true, false, ◌||◌,
  Option, none, some, List, [], ◌∷◌, leb, ◌==◌, length, take, keep, length-keep, In, not, arith,
  Bool-cases, Option-cases, le→leb, leb→le,
}
use rs2_runtime.Common.Text.{Text}
use rs2_runtime.Common.Sort.{sort_by, sort_by-In}
use rs2_runtime.Idempotency.{
  Slot, Entry, EntryState, in_flight, done, Entries, Store, slot_eq, get, remove, live, add_done,
  done_of, older, oldest, remove_all, evict, sweep, expire, answer, prepare, begin, sweep_every,
}
use rs2_runtime.Idempotency.Slots.{IsMap, keep-IsMap}
use rs2_runtime.Idempotency.Sweep.{done_of-IsDone, In-take}

length-remove :
    (slot : Slot) (es : Entries) (e : Entry)
    → get slot es ≡ some e
    → length (remove slot es) < length es
length-remove slot [] e h = absurd (ground arith)
length-remove slot ((k, d) ∷ es) e h = elim (Bool-cases (slot_eq k slot)) [
  | inl same ↦ rw same (omega (arith, length-keep (λ x. not (slot_eq x.0 slot)) es))
  | inr other ↦ rw other (omega (arith, length-remove slot es e (rw other at h)))
]

length-remove_all : (xs : List (Slot × ℕ)) (es : Entries) → length (remove_all xs es) ≤ length es
length-remove_all [] es = omega arith
length-remove_all ((slot, at) ∷ xs) es =
    omega
      (arith, length-remove_all xs (remove slot es), length-keep (λ x. not (slot_eq x.0 slot)) es)

-- A list with a member gives up its first.
take-cons :
    {A : Type 0} (n : ℕ) (xs : List A) (a : A)
    → 0 < n
    → In a xs
    → (x : A) × (rest : List A) × (take n xs ≡ x ∷ rest)
take-cons zero xs a h m = absurd (omega arith)
take-cons (suc n) [] a h m = elim m [ ]
take-cons (suc n) (x ∷ xs) a h m = (x, take n xs, refl)

evict-shrinks :
    (max_entries : ℕ) (es : Entries) (x : Slot × ℕ)
    → IsMap es
    → In x (done_of es)
    → max_entries ≤ length es
    → length (evict max_entries es) < length es
unfolding evict
evict-shrinks max_entries es x m h full =
    let there = (sort_by-In older x (done_of es)).1 h in
    let (y, rest, e) =
      take-cons (max_entries / 8 + 1) (sort_by older (done_of es)) x (omega arith) there in
    let first : In y (sort_by older (done_of es)) =
      In-take (max_entries / 8 + 1) _ y (rw e (inl refl)) in
    let d = done_of-IsDone es y m ((sort_by-In older y (done_of es)).0 first) in
    let one = length-remove y.0 es d.entry d.found in
    rw (le→leb max_entries (length es) full, e)
      (omega (arith, one, length-remove_all rest (remove y.0 es)))

length-expire :
    (window now : ℕ) (slot : Slot) (es : Entries) → length (expire window now slot es) ≤ length es
unfolding expire
length-expire window now slot es = elim (Option-cases (get slot es)) [
  | inl absent ↦ rw absent (omega arith)
  | inr (d, f) ↦ elim (Bool-cases (live window now (slot, d))) [
    | inl stays ↦ rw (f, stays) (omega arith)
    | inr goes ↦ rw (f, goes) (length-keep _ es)
  ]
]

length-answer :
    (slot : Slot) (hash : Option Text) (o : Option Entry) (es : Entries)
    → length (answer slot hash o es).0 ≤ suc (length es)
length-answer slot hash none es = omega (arith, length-keep (λ x. not (slot_eq x.0 slot)) es)
length-answer slot hash (some e) es = omega arith

-- Nothing is done: every entry is in flight.
abbrev pub IsBusy : Entries → Type 0
IsBusy [] = Unit
IsBusy ((slot, e) ∷ es) = (e.state ≡ in_flight) × IsBusy es

keep-IsBusy : (p : Slot × Entry → Bool) (es : Entries) → IsBusy es → IsBusy (keep p es)
keep-IsBusy p [] b = tt
keep-IsBusy p ((k, e) ∷ es) (b, bs) = elim (Bool-cases (p (k, e))) [
  | inl stays ↦ rw stays (b, keep-IsBusy p es bs)
  | inr goes ↦ rw goes (keep-IsBusy p es bs)
]

add_done-busy :
    (slot : Slot) (s : EntryState) (rest : List (Slot × ℕ))
    → ((s ≡ in_flight) × (add_done slot s rest ≡ rest))
      ⊎ ((x : Slot × ℕ) × In x (add_done slot s rest))
add_done-busy slot in_flight rest = inl (refl, refl)
add_done-busy slot (done r at) rest = inr ((slot, at), inl refl)

done_of-cases : (es : Entries) → IsBusy es ⊎ ((x : Slot × ℕ) × In x (done_of es))
done_of-cases [] = inl tt
done_of-cases ((k, e) ∷ es) = elim (add_done-busy k e.state (done_of es)) [
  | inl (b, same) ↦ elim (done_of-cases es) [
    | inl bs ↦ inl (b, bs)
    | inr (x, m) ↦ inr (x, rw same m)
  ]
  | inr some_done ↦ inr some_done
]

remove_all-IsBusy : (xs : List (Slot × ℕ)) (es : Entries) → IsBusy es → IsBusy (remove_all xs es)
remove_all-IsBusy [] es b = b
remove_all-IsBusy ((slot, at) ∷ xs) es b =
    remove_all-IsBusy xs (remove slot es) (keep-IsBusy (λ x. not (slot_eq x.0 slot)) es b)

-- A sweep of a full store makes room, or leaves nothing but entries in flight.
sweep-shrinks :
    (window max_entries now : ℕ) (es : Entries)
    → IsMap es
    → max_entries ≤ length es
    → (length (sweep window max_entries now true es) < length es)
      ⊎ ((length (sweep window max_entries now true es) < max_entries)
          ⊎ IsBusy (sweep window max_entries now true es))
unfolding sweep evict
sweep-shrinks window max_entries now es m full =
    let kept = keep (live window now) es in
    let less = length-keep (live window now) es in
    elim (Bool-cases (leb max_entries (length kept))) [
      | inr room ↦ inr (inl (rw room (ground (arith, room))))
      | inl still ↦ elim (done_of-cases kept) [
        | inl b ↦ inr (inr (rw still (remove_all-IsBusy (oldest max_entries kept) kept b)))
        | inr (x, h) ↦ inl (
            omega (
              arith,
              less,
              evict-shrinks max_entries kept x (keep-IsMap (live window now) es m) h
                  (leb→le _ _ still),
            ))
      ]
    ]

length-sweep :
    (window max_entries now : ℕ) (es : Entries)
    → length (sweep window max_entries now true es) ≤ length es
unfolding sweep evict
length-sweep window max_entries now es =
    let kept = keep (live window now) es in
    let less = length-keep (live window now) es in
    elim (Bool-cases (leb max_entries (length kept))) [
      | inl full ↦ rw full (omega (arith, less, length-remove_all (oldest max_entries kept) kept))
      | inr room ↦ rw room less
    ]

expire-IsBusy :
    (window now : ℕ) (slot : Slot) (es : Entries) → IsBusy es → IsBusy (expire window now slot es)
unfolding expire
expire-IsBusy window now slot es b = elim (Option-cases (get slot es)) [
  | inl absent ↦ rw absent b
  | inr (d, f) ↦ elim (Bool-cases (live window now (slot, d))) [
    | inl stays ↦ rw (f, stays) b
    | inr goes ↦ rw (f, goes) (keep-IsBusy _ es b)
  ]
]

answer-IsBusy :
    (slot : Slot) (hash : Option Text) (o : Option Entry) (es : Entries)
    → IsBusy es
    → IsBusy (answer slot hash o es).0
answer-IsBusy slot hash none es b = (refl, keep-IsBusy _ es b)
answer-IsBusy slot hash (some e) es b = b

prepare-IsBounded :
    (now : ℕ) (slot : Slot) (store : Store)
    → IsMap store.entries
    → (length (prepare now slot store) < max store.max_entries (length store.entries))
      ⊎ IsBusy (prepare now slot store)
unfolding prepare
prepare-IsBounded now slot store m =
    let es = store.entries in
    let swept = sweep store.window store.max_entries now true es in
    let after = length-expire store.window now slot swept in
    elim (Bool-cases ((store.begins % sweep_every == 0) || leb store.max_entries (length es))) [
      | inr not_yet ↦
          let room : leb store.max_entries (length es) ≡ false = ground (arith, not_yet) in
          inl (rw not_yet (ground (arith, room, length-expire store.window now slot es)))
      | inl due ↦ elim (Bool-cases (leb store.max_entries (length es))) [
        | inr room ↦ inl (
            rw due
              (ground (arith, room, after, length-sweep store.window store.max_entries now es)))
        | inl full ↦
            elim (sweep-shrinks store.window store.max_entries now es m (leb→le _ _ full)) [
              | inl less ↦ inl (rw due (omega (arith, less, after)))
              | inr (inl less) ↦ inl (rw due (omega (arith, less, after)))
              | inr (inr b) ↦ inr (rw due (expire-IsBusy store.window now slot swept b))
            ]
      ]
    ]

-- A registration leaves at most as many entries as the cap, or as there were if they were more,
-- unless every entry that it leaves is in flight. The slots of the store are all different.
pub begin-IsBounded :
    (now : ℕ) (slot : Slot) (hash : Option Text) (store : Store)
    → IsMap store.entries
    → (length (begin now slot hash store).0.entries ≤ max store.max_entries (length store.entries))
      ⊎ IsBusy (begin now slot hash store).0.entries
unfolding begin
begin-IsBounded now slot hash store m =
    let es = prepare now slot store in
    elim (prepare-IsBounded now slot store m) [
      | inl room ↦ inl (omega (arith, room, length-answer slot hash (get slot es) es))
      | inr b ↦ inr (answer-IsBusy slot hash (get slot es) es b)
    ]
