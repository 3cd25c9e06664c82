-- ===== src/Idempotency/Slots.antt =====
-- The map of slots: lookups after changes, and that no slot has two entries.
use rs2_runtime.Common.{
  ◌≡◌, ◌≢◌, ◌↔◌, refl, sym, ap, ◌∙◌, inl, inr, Bool, true, false, none, some, [], ◌∷◌, keep, arith,
  Bool-cases,
}
use rs2_runtime.Common.Text.{text_eq_iff}
use rs2_runtime.Idempotency.{
  Slot, Entry, EntryState, Entries, slot_eq, get, remove, insert, set_state,
}

pub slot_eq_iff : (a b : Slot) → (slot_eq a b ≡ true) ↔ (a ≡ b)
unfolding slot_eq
slot_eq_iff a b = ground (arith, text_eq_iff a.scope b.scope, text_eq_iff a.key b.key)

-- The keys of a hash map are all different.
abbrev pub IsMap : Entries → Type 0
IsMap [] = Unit
IsMap ((slot, e) ∷ es) = (get slot es ≡ none) × IsMap es

module _ (slot : Slot) (p : Slot × Entry → Bool) where
  pub keep-none : (es : Entries) → get slot es ≡ none → get slot (keep p es) ≡ none
  keep-none [] h = refl
  keep-none ((k, e) ∷ es) h = ground (arith, keep-none es)

  pub get-keep :
      (es : Entries) (e : Entry)
      → IsMap es
      → (get slot (keep p es) ≡ some e) ↔ ((get slot es ≡ some e) × (p (slot, e) ≡ true))
  get-keep [] e m = ground arith
  get-keep ((k, d) ∷ es) e (m, ms) = elim (Bool-cases (slot_eq k slot)) [
    | inl same ↦
        let eq = (slot_eq_iff k slot).0 same in
        let gone = keep-none es (ap (λ j. get j es) (sym eq) ∙ m) in ground (arith, same, eq, gone)
    | inr other ↦ ground (arith, other, get-keep es e ms)
  ]

pub keep-IsMap : (p : Slot × Entry → Bool) (es : Entries) → IsMap es → IsMap (keep p es)
keep-IsMap p [] m = tt
keep-IsMap p ((k, e) ∷ es) (m, ms) = elim (Bool-cases (p (k, e))) [
  | inl stays ↦ rw stays (keep-none k p es m, keep-IsMap p es ms)
  | inr goes ↦ rw goes (keep-IsMap p es ms)
]

pub get_remove_self : (slot : Slot) (es : Entries) → get slot (remove slot es) ≡ none
get_remove_self slot [] = refl
get_remove_self slot ((k, e) ∷ es) = ground (arith, get_remove_self slot es)

pub get_remove_ne :
    (slot other : Slot) (es : Entries) → slot ≢ other → get other (remove slot es) ≡ get other es
get_remove_ne slot other [] h = refl
get_remove_ne slot other ((k, e) ∷ es) h =
    ground (arith, get_remove_ne slot other es h, slot_eq_iff k slot, slot_eq_iff k other)

pub slot_eq_refl : (slot : Slot) → slot_eq slot slot ≡ true
slot_eq_refl slot = (slot_eq_iff slot slot).1 refl

pub slot_eq_ne : (a b : Slot) → a ≢ b → slot_eq a b ≡ false
slot_eq_ne a b h = ground (arith, slot_eq_iff a b)

pub get_insert_self :
    (slot : Slot) (e : Entry) (es : Entries) → get slot (insert slot e es) ≡ some e
get_insert_self slot e es = rw slot_eq_refl

pub get_insert_ne :
    (slot other : Slot) (e : Entry) (es : Entries)
    → slot ≢ other
    → get other (insert slot e es) ≡ get other es
get_insert_ne slot other e es h = rw (slot_eq_ne slot other h) (get_remove_ne slot other es h)

pub insert-IsMap : (slot : Slot) (e : Entry) (es : Entries) → IsMap es → IsMap (insert slot e es)
insert-IsMap slot e es m = (get_remove_self slot es, keep-IsMap _ es m)

module _ (slot other : Slot) (s : EntryState) where
  pub get_set_state_ne :
      (es : Entries) → slot ≢ other → get other (set_state slot s es) ≡ get other es
  get_set_state_ne [] h = refl
  get_set_state_ne ((k, e) ∷ es) h =
      ground (arith, get_set_state_ne es h, slot_eq_iff k slot, slot_eq_iff k other)

  pub set_state-none : (es : Entries) → get other es ≡ none → get other (set_state slot s es) ≡ none
  set_state-none [] h = refl
  set_state-none ((k, e) ∷ es) h = ground (arith, set_state-none es)

pub get_set_state_self :
    (slot : Slot) (s : EntryState) (es : Entries) (e : Entry)
    → get slot es ≡ some e
    → get slot (set_state slot s es) ≡ some (record e { state = s })
get_set_state_self slot s [] e h = absurd (ground arith)
get_set_state_self slot s ((k, d) ∷ es) e h = ground (arith, get_set_state_self slot s es e)

pub set_state-IsMap :
    (slot : Slot) (s : EntryState) (es : Entries) → IsMap es → IsMap (set_state slot s es)
set_state-IsMap slot s [] m = tt
set_state-IsMap slot s ((k, e) ∷ es) (m, ms) = elim (Bool-cases (slot_eq k slot)) [
  | inl same ↦ rw same (m, ms)
  | inr other ↦ rw other (set_state-none slot k s es m, set_state-IsMap slot s es ms)
]
