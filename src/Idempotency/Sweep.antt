-- ===== src/Idempotency/Sweep.antt =====
-- What a sweep drops: never an entry in flight, and every other entry only once it has expired or
-- where the store is full.
use rs2_runtime.Common.{
  ℕ, zero, suc, ◌⊎◌, ◌≡◌, ◌≢◌, sym, ap, ◌∙◌, inl, inr, Bool, some, List, [], ◌∷◌, leb, length, take,
  keep, In, All, All-In, arith, Bool-cases, Option-cases,
}
use rs2_runtime.Common.Sort.{sort_by-In}
use rs2_runtime.Idempotency.{
  StoredResponse, Slot, Entry, EntryState, in_flight, done, Entries, get, remove, live, live_state,
  add_done, done_of, older, oldest, remove_all, evict, sweep, expire,
}
use rs2_runtime.Idempotency.Slots.{slot_eq_iff, IsMap, keep-IsMap, get-keep, get_remove_ne}

pub In-take : {A : Type 0} (n : ℕ) (xs : List A) (a : A) → In a (take n xs) → In a xs
In-take zero xs a m = elim m [ ]
In-take (suc n) [] a m = elim m [ ]
In-take (suc n) (x ∷ xs) a (inl e) = inl e
In-take (suc n) (x ∷ xs) a (inr m) = inr (In-take n xs a m)

-- A slot is among those that are done only if its entry is.
pub record IsDone (es : Entries) (slot : Slot) (at : ℕ) : Type 0 where
  pub entry : Entry
  pub response : StoredResponse
  pub found : get slot es ≡ some entry
  pub state : entry.state ≡ done response at

add_done-cases :
    (slot : Slot) (s : EntryState) (rest : List (Slot × ℕ)) (x : Slot × ℕ)
    → In x (add_done slot s rest)
    → ((r : StoredResponse) × (s ≡ done r x.1) × (x.0 ≡ slot)) ⊎ In x rest
add_done-cases slot in_flight rest x m = inr m
add_done-cases slot (done r at) rest x (inl e) =
    inl (r, ap (λ (y : Slot × ℕ). done r y.1) (sym e), ap (λ (y : Slot × ℕ). y.0) e)
add_done-cases slot (done r at) rest x (inr m) = inr m

pub done_of-IsDone :
    (es : Entries) (x : Slot × ℕ) → IsMap es → In x (done_of es) → IsDone es x.0 x.1
done_of-IsDone [] x m h = elim h [ ]
done_of-IsDone ((k, e) ∷ es) x (m, ms) h = elim (add_done-cases k e.state (done_of es) x h) [
  | inl (r, s, q) ↦ record {
    entry = e;
    response = r;
    found = ground (arith, q, slot_eq_iff k x.0);
    state = s;
  }
  | inr later ↦
      let d = done_of-IsDone es x ms later in
      record {
        entry = d.entry;
        response = d.response;
        found = ground (arith, d.found, m, slot_eq_iff k x.0);
        state = d.state;
      }
]

module _ (slot : Slot) (e : Entry) (busy : e.state ≡ in_flight) where
  remove_all-busy :
      (xs : List (Slot × ℕ)) (es : Entries)
      → All (λ x. x.0 ≢ slot) xs
      → get slot es ≡ some e
      → get slot (remove_all xs es) ≡ some e
  remove_all-busy [] es h g = g
  remove_all-busy ((k, at) ∷ xs) es (h, hs) g =
      remove_all-busy xs (remove k es) hs (get_remove_ne k slot es h ∙ g)

  oldest-ne :
      (max_entries : ℕ) (es : Entries) (x : Slot × ℕ)
      → IsMap es
      → get slot es ≡ some e
      → In x (oldest max_entries es)
      → x.0 ≢ slot
  oldest-ne max_entries es x m g h q =
      let d = done_of-IsDone es x m ((sort_by-In older x (done_of es)).0 (In-take _ _ x h)) in
      let f = d.found in let s = d.state in absurd (ground (arith, f, s, busy, q))

  evict-busy :
      (max_entries : ℕ) (es : Entries)
      → IsMap es
      → get slot es ≡ some e
      → get slot (evict max_entries es) ≡ some e
  unfolding evict
  evict-busy max_entries es m g = elim (Bool-cases (leb max_entries (length es))) [
    | inl full ↦ rw full (
        remove_all-busy (oldest max_entries es) es
          (All-In (λ x. x.0 ≢ slot) (oldest max_entries es) λ x h. oldest-ne max_entries es x m g h)
          g)
    | inr room ↦ rw room g
  ]

  -- An entry in flight outlives every sweep.
  pub sweep-busy :
      (window max_entries now : ℕ) (force_evict : Bool) (es : Entries)
      → IsMap es
      → get slot es ≡ some e
      → get slot (sweep window max_entries now force_evict es) ≡ some e
  unfolding sweep
  sweep-busy window max_entries now force_evict es m g =
      let kept : get slot (keep (live window now) es) ≡ some e =
        (get-keep slot (live window now) es e m).1 (g, ap (live_state window now) busy) in
      let evicted = evict-busy max_entries _ (keep-IsMap (live window now) es m) kept in
      elim (Bool-cases force_evict) [ inl f ↦ rw f evicted | inr f ↦ rw f kept ]

  pub expire-busy :
      (window now : ℕ) (other : Slot) (es : Entries)
      → get slot es ≡ some e
      → get slot (expire window now other es) ≡ some e
  unfolding expire
  expire-busy window now other es g = elim (Option-cases (get other es)) [
    | inl absent ↦ rw absent g
    | inr (d, f) ↦ elim (Bool-cases (live window now (other, d))) [
      | inl stays ↦ rw (f, stays) g
      | inr goes ↦
          rw (f, goes)
            (get_remove_ne other slot es (λ q. absurd (ground (arith, f, g, q, busy, goes))) ∙ g)
    ]
  ]

remove_all-IsMap : (xs : List (Slot × ℕ)) (es : Entries) → IsMap es → IsMap (remove_all xs es)
remove_all-IsMap [] es m = m
remove_all-IsMap ((slot, at) ∷ xs) es m = remove_all-IsMap xs (remove slot es) (keep-IsMap _ es m)

evict-IsMap : (max_entries : ℕ) (es : Entries) → IsMap es → IsMap (evict max_entries es)
unfolding evict
evict-IsMap max_entries es m = elim (Bool-cases (leb max_entries (length es))) [
  | inl full ↦ rw full (remove_all-IsMap (oldest max_entries es) es m)
  | inr room ↦ rw room m
]

pub sweep-IsMap :
    (window max_entries now : ℕ) (force_evict : Bool) (es : Entries)
    → IsMap es
    → IsMap (sweep window max_entries now force_evict es)
unfolding sweep
sweep-IsMap window max_entries now force_evict es m =
    let kept = keep-IsMap (live window now) es m in
    elim (Bool-cases force_evict) [
      | inl f ↦ rw f (evict-IsMap max_entries _ kept)
      | inr f ↦ rw f kept
    ]

pub expire-IsMap :
    (window now : ℕ) (slot : Slot) (es : Entries) → IsMap es → IsMap (expire window now slot es)
unfolding expire
expire-IsMap window now slot es m = elim (Option-cases (get slot es)) [
  | inl absent ↦ rw absent m
  | inr (d, f) ↦ elim (Bool-cases (live window now (slot, d))) [
    | inl stays ↦ rw (f, stays) m
    | inr goes ↦ rw (f, goes) (keep-IsMap _ es m)
  ]
]
