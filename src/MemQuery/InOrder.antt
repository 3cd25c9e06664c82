-- ===== src/MemQuery/InOrder.antt =====
-- The order of the rows of a query.
use rs2_runtime.Common.{
  ◌≡◌, ◌∙◌, refl, sym, ap, Ordering, Bool, true, false, Option, none, some, List, [], ◌∷◌, All,
  All-In, All-at, All-map, In, not, ◌&&◌, ◌||◌,
}
use rs2_runtime.Common.Text.{Text}
use rs2_runtime.Common.Sort.{sort_by, sort_by-perm, sort_by-IsSorted_among, IsSorted}
use mathlib.Core.List.{Perm}
use mathlib.Core.Bool.{false≢true}
use rs2_runtime.Crypto.{returned}
use rs2_runtime.Json.{Value, unwrap_or}
use rs2_runtime.Listing.{flip, not_after}
use rs2_runtime.MemQuery.{QueryApi, IsOrder, field_at, order_by_field, by_field, ordered}
use rs2_runtime.MemQuery.Meets.{Compares, numbers, strings}

IsOrder-among :
    (compare_ : Value → Value → Ordering) (xs ys : List Value)
    → ((a : Value) → In a ys → In a xs)
    → IsOrder compare_ xs
    → IsOrder compare_ ys
IsOrder-among compare_ xs ys among h = All-In _ ys λ a m.
    let of_a = All-at _ xs a h (among a m) in
    All-In _ ys λ b n.
      let (back, over) = All-at _ xs b of_a (among b n) in
      (back, All-In _ ys λ c k. All-at _ xs c over (among c k))

not_after-flip : (o p : Ordering) → p ≡ flip o → not_after o ≡ false → not_after p ≡ true
not_after-flip Ordering.lt p e h = absurd (cc)
not_after-flip Ordering.eq p e h = absurd (cc)
not_after-flip Ordering.gt p e h = rw e refl

if_both : (a b c : Bool) → not (a && b) || c ≡ true → a ≡ true → b ≡ true → c ≡ true
if_both true true c h p q = h
if_both true false c h p q = absurd (cc)
if_both false b c h p q = absurd (cc)

IsOrder-IsSorted :
    (compare_ : Value → Value → Ordering) (xs : List Value)
    → IsOrder compare_ xs
    → IsSorted (λ a b. not_after (compare_ a b)) (sort_by (λ a b. not_after (compare_ a b)) xs)
IsOrder-IsSorted compare_ xs h =
    sort_by-IsSorted_among (λ a b. not_after (compare_ a b)) (λ a. In a xs)
      (λ a b m n e.
        not_after-flip (compare_ a b) (compare_ b a) (All-at _ xs b (All-at _ xs a h m) n).0 e)
      (λ a b c m n k.
        if_both (not_after (compare_ a b)) (not_after (compare_ b c)) (not_after (compare_ a c))
          (All-at _ xs c (All-at _ xs b (All-at _ xs a h m) n).1 k))
      xs (All-In (λ a. In a xs) xs (λ a m. m))

module _ (api : QueryApi) where
  -- No value above another that it can be compared with.
  abbrev pub NotAbove : Option Value → Option Value → Type 0
  NotAbove a none = Unit
  NotAbove a (some b) = Compares api a b Ordering.gt → ⊥

  -- No row above one that follows it, by the field of a path.
  abbrev pub IsAscending : Text → List Value → Type 0
  IsAscending path [] = Unit
  IsAscending path (a ∷ rows) =
      All (λ b. NotAbove (field_at a path) (field_at b path)) rows × IsAscending path rows

  abbrev pub IsOrdered : Option Text → List Value → List Value → Type 0
  IsOrdered none unsorted rows = rows ≡ unsorted
  IsOrdered (some path) unsorted rows = Perm rows unsorted × IsAscending path rows

  -- The comparison by the field that a query orders by is an order of some rows.
  abbrev pub IsOrderable : Option Text → List Value → Type 0
  IsOrderable none rows = Unit
  IsOrderable (some path) rows = IsOrder (by_field api path) rows

  Compares-not_after :
      (a : Option Value) (b : Value) (o : Ordering)
      → Compares api a b o
      → o ≡ Ordering.gt
      → not_after (order_by_field api a (some b)) ≡ false
  Compares-not_after _ _ _ (numbers m n o h) g =
      ap (λ p. not_after (unwrap_or p Ordering.eq)) (h ∙ ap some g)
  Compares-not_after _ _ _ (strings s t o h) g = ap not_after (h ∙ g)

  not_after-NotAbove :
      (a b : Option Value) → not_after (order_by_field api a b) ≡ true → NotAbove a b
  not_after-NotAbove a none h = tt
  not_after-NotAbove a (some b) h =
      λ c. false≢true (sym (Compares-not_after a b Ordering.gt c refl) ∙ h)

  sorted-IsAscending :
      (path : Text) (rows : List Value)
      → IsSorted (λ a b. not_after (by_field api path a b)) rows
      → IsAscending path rows
  sorted-IsAscending path [] h = tt
  sorted-IsAscending path (a ∷ rows) (h, k) = (
    All-map _ _ rows (λ b. not_after-NotAbove (field_at a path) (field_at b path)) h,
    sorted-IsAscending path rows k,
  )

  pub ordered-IsOrdered :
      (order_by : Option Text) (rows : List Value)
      → IsOrderable order_by rows
      → (out : List Value) × (ordered api order_by rows ≡ returned out)
        × IsOrdered order_by rows out
  unfolding ordered
  ordered-IsOrdered none rows h = (rows, refl, refl)
  ordered-IsOrdered (some path) rows h = (
    sort_by (λ a b. not_after (by_field api path a b)) rows,
    api.sort-IsOrder (by_field api path) rows h,
    (sort_by-perm _ rows, sorted-IsAscending path _ (IsOrder-IsSorted (by_field api path) rows h)),
  )

  pub IsOrderable-among :
      (order_by : Option Text) (xs ys : List Value)
      → ((a : Value) → In a ys → In a xs)
      → IsOrderable order_by xs
      → IsOrderable order_by ys
  IsOrderable-among none xs ys among h = tt
  IsOrderable-among (some path) xs ys among h = IsOrder-among (by_field api path) xs ys among h
