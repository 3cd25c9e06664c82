-- ===== src/MemQuery/Meets.antt =====
-- What the operators of a query mean.
use rs2_runtime.Common.{
  ◌≡◌, ◌↔◌, ◌⊎◌, refl, sym, ◌∙◌, inl, inr, ap, Bool-cases, or_true, Ordering, Bool, true, Option,
  none, some, not, arith,
}
use mathlib.Core.Bool.{false≢true}
use rs2_runtime.Common.Text.{Text, lit, text_eq, contains_str}
use rs2_runtime.Common.Text.Order.{compare_text}
use rs2_runtime.Json.{Value, null, boolean, number, string, array, object, Items, nil, cons, Number}
use rs2_runtime.Json.Equality.{value_eq}
use rs2_runtime.Error.{ok}
use rs2_runtime.MemQuery.{
  QueryApi, is_lt, is_gt, is_le, is_ge, order_of, equals, any_item, holds_within, test,
}

pub data Operator : Type 0 where
  equal differs below above at_most at_least holds : Operator

abbrev pub spelled : Operator → Text
spelled equal = lit "=="
spelled differs = lit "!="
spelled below = lit "<"
spelled above = lit ">"
spelled at_most = lit "<="
spelled at_least = lit ">="
spelled holds = lit "contains"

is_lt-some : (o : Option Ordering) → is_lt o ≡ true → o ≡ some Ordering.lt
is_lt-some none h = absurd (cc)
is_lt-some (some Ordering.lt) h = refl
is_lt-some (some Ordering.eq) h = absurd (cc)
is_lt-some (some Ordering.gt) h = absurd (cc)

is_gt-some : (o : Option Ordering) → is_gt o ≡ true → o ≡ some Ordering.gt
is_gt-some none h = absurd (cc)
is_gt-some (some Ordering.lt) h = absurd (cc)
is_gt-some (some Ordering.eq) h = absurd (cc)
is_gt-some (some Ordering.gt) h = refl

is_le-some :
    (o : Option Ordering) → is_le o ≡ true → (o ≡ some Ordering.lt) ⊎ (o ≡ some Ordering.eq)
is_le-some none h = absurd (cc)
is_le-some (some Ordering.lt) h = inl refl
is_le-some (some Ordering.eq) h = inr refl
is_le-some (some Ordering.gt) h = absurd (cc)

is_ge-some :
    (o : Option Ordering) → is_ge o ≡ true → (o ≡ some Ordering.gt) ⊎ (o ≡ some Ordering.eq)
is_ge-some none h = absurd (cc)
is_ge-some (some Ordering.lt) h = absurd (cc)
is_ge-some (some Ordering.eq) h = inr refl
is_ge-some (some Ordering.gt) h = inl refl

module _ (api : QueryApi) where
  abbrev pub IsEqual : Option Value → Value → Type 0
  IsEqual none v = ⊥
  IsEqual (some a) v = value_eq api.number_eq a v ≡ true

  -- Two numbers, or two texts, compare so.
  pub data Compares : Option Value → Value → Ordering → Type 0 where
    numbers :
        (m n : Number) (o : Ordering)
        → api.partial_cmp m n ≡ some o
        → Compares (some (number m)) (number n) o
    strings :
        (s t : Text) (o : Ordering) → compare_text s t ≡ o → Compares (some (string s)) (string t) o

  abbrev pub HasItem : Items → Value → Type 0
  HasItem nil v = ⊥
  HasItem (cons a items) v = (value_eq api.number_eq a v ≡ true) ⊎ HasItem items v

  -- A text within a text, or an item of an array.
  pub data Holds : Option Value → Value → Type 0 where
    text_within : (s t : Text) → contains_str t s ≡ true → Holds (some (string s)) (string t)
    has_item : (items : Items) (v : Value) → HasItem items v → Holds (some (array items)) v

  abbrev pub Meets : Operator → Option Value → Value → Type 0
  Meets equal a e = IsEqual a e
  Meets differs a e = IsEqual a e → ⊥
  Meets below a e = Compares a e Ordering.lt
  Meets above a e = Compares a e Ordering.gt
  Meets at_most a e = Compares a e Ordering.lt ⊎ Compares a e Ordering.eq
  Meets at_least a e = Compares a e Ordering.gt ⊎ Compares a e Ordering.eq
  Meets holds a e = Holds a e

  equals_iff : (a : Option Value) (e : Value) → (equals api a e ≡ true) ↔ IsEqual a e
  equals_iff none e = (λ h. absurd (cc), λ h. absurd h)
  equals_iff (some a) e = (λ h. h, λ h. h)

  differs_iff : (a : Option Value) (e : Value) → (not (equals api a e) ≡ true) ↔ (IsEqual a e → ⊥)
  differs_iff a e =
      let (to, from) = equals_iff a e in
      elim (Bool-cases (equals api a e)) [
        | inl same ↦ rw same (λ h. absurd (cc), λ h. absurd (h (to same)))
        | inr other ↦ rw other (λ h q. false≢true (sym other ∙ from q), λ h. refl)
      ]

  order_of-Compares :
      (a : Option Value) (e : Value) (o : Ordering) → order_of api a e ≡ some o → Compares a e o
  order_of-Compares none e o h = absurd (cc)
  order_of-Compares (some null) e o h = absurd (cc)
  order_of-Compares (some (boolean b)) e o h = absurd (cc)
  order_of-Compares (some (array items)) e o h = absurd (cc)
  order_of-Compares (some (object fs)) e o h = absurd (cc)
  order_of-Compares (some (number m)) (number n) o h = numbers m n o h
  order_of-Compares (some (number m)) null o h = absurd (cc)
  order_of-Compares (some (number m)) (boolean b) o h = absurd (cc)
  order_of-Compares (some (number m)) (string s) o h = absurd (cc)
  order_of-Compares (some (number m)) (array items) o h = absurd (cc)
  order_of-Compares (some (number m)) (object fs) o h = absurd (cc)
  order_of-Compares (some (string s)) (string t) o h = strings s t o (ground arith)
  order_of-Compares (some (string s)) null o h = absurd (cc)
  order_of-Compares (some (string s)) (boolean b) o h = absurd (cc)
  order_of-Compares (some (string s)) (number n) o h = absurd (cc)
  order_of-Compares (some (string s)) (array items) o h = absurd (cc)
  order_of-Compares (some (string s)) (object fs) o h = absurd (cc)

  Compares-order_of :
      (a : Option Value) (e : Value) (o : Ordering) → Compares a e o → order_of api a e ≡ some o
  Compares-order_of _ _ _ (numbers m n o h) = h
  Compares-order_of _ _ _ (strings s t o h) = ap some h

  any_item_iff : (items : Items) (v : Value) → (any_item api items v ≡ true) ↔ HasItem items v
  any_item_iff nil v = (λ h. absurd (cc), λ h. absurd h)
  any_item_iff (cons a items) v =
      let (to, from) = any_item_iff items v in
      (
        λ h. elim (Bool-cases (value_eq api.number_eq a v)) [
          | inl hit ↦ inl hit
          | inr miss ↦ inr (to (rw miss at h))
        ],
        elim [
          | inl hit ↦ rw hit refl
          | inr later ↦ rw (from later) (or_true (value_eq api.number_eq a v))
        ],
      )

  holds_within-Holds : (a : Option Value) (e : Value) → holds_within api a e ≡ true → Holds a e
  holds_within-Holds none e h = absurd (cc)
  holds_within-Holds (some null) e h = absurd (cc)
  holds_within-Holds (some (boolean b)) e h = absurd (cc)
  holds_within-Holds (some (number n)) e h = absurd (cc)
  holds_within-Holds (some (object fs)) e h = absurd (cc)
  holds_within-Holds (some (array items)) e h = has_item items e ((any_item_iff items e).0 h)
  holds_within-Holds (some (string s)) (string t) h = text_within s t h
  holds_within-Holds (some (string s)) null h = absurd (cc)
  holds_within-Holds (some (string s)) (boolean b) h = absurd (cc)
  holds_within-Holds (some (string s)) (number n) h = absurd (cc)
  holds_within-Holds (some (string s)) (array items) h = absurd (cc)
  holds_within-Holds (some (string s)) (object fs) h = absurd (cc)

  Holds-holds_within : (a : Option Value) (e : Value) → Holds a e → holds_within api a e ≡ true
  Holds-holds_within _ _ (text_within s t h) = h
  Holds-holds_within _ _ (has_item items v h) = (any_item_iff items v).1 h

  -- The truth value that a test gives, and what it says.
  pub test-Meets :
      (op : Operator) (a : Option Value) (e : Value)
      → (b : Bool) × (test api (spelled op) a e ≡ ok b) × ((b ≡ true) ↔ Meets op a e)
  unfolding text_eq
  test-Meets equal a e = (_, refl, equals_iff a e)
  test-Meets differs a e = (_, refl, differs_iff a e)
  test-Meets below a e = (
    _,
    refl,
    (λ h. order_of-Compares a e _ (is_lt-some _ h), λ c. rw (Compares-order_of a e _ c) refl),
  )
  test-Meets above a e = (
    _,
    refl,
    (λ h. order_of-Compares a e _ (is_gt-some _ h), λ c. rw (Compares-order_of a e _ c) refl),
  )
  test-Meets at_most a e = (
    _,
    refl,
    (
      λ h. elim (is_le-some _ h) [
        | inl l ↦ inl (order_of-Compares a e _ l)
        | inr q ↦ inr (order_of-Compares a e _ q)
      ],
      elim [
        | inl l ↦ rw (Compares-order_of a e _ l) refl
        | inr q ↦ rw (Compares-order_of a e _ q) refl
      ],
    ),
  )
  test-Meets at_least a e = (
    _,
    refl,
    (
      λ h. elim (is_ge-some _ h) [
        | inl l ↦ inl (order_of-Compares a e _ l)
        | inr q ↦ inr (order_of-Compares a e _ q)
      ],
      elim [
        | inl l ↦ rw (Compares-order_of a e _ l) refl
        | inr q ↦ rw (Compares-order_of a e _ q) refl
      ],
    ),
  )
  test-Meets holds a e = (_, refl, (holds_within-Holds a e, Holds-holds_within a e))
