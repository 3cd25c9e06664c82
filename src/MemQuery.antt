-- ===== src/MemQuery.antt =====
-- rs2-core/src/adapters/mem_query.rs: queries over a data store, whose `scan_matching` is a
-- parameter. The comparison of numbers as `f64`, their equality and the display of one are
-- parameters, too, and so is `sort_by` of slices, which is documented for an order alone: under
-- another comparison it may give any order of the elements, or panic.
pub mod Meets
pub mod Selection
pub mod InOrder
pub mod Rows
mod Tests
use rs2_runtime.Common.{
  ◌≡◌, All, ℕ, Ordering, Bool, true, false, Option, none, some, List, [], ◌∷◌, ◌++◌, map, length,
  not, is_some, ◌&&◌, ◌||◌, if◌then◌else◌,
}
use rs2_runtime.Common.Text.{Text, lit, text_eq, split, contains_str}
use rs2_runtime.Common.Text.Order.{compare_text}
use rs2_runtime.Common.Sort.{sort_by}
use rs2_runtime.Json.{
  Value, null, boolean, number, string, array, object, Items, nil, cons, Fields, end, field, lookup,
  Number, get, opt_str, unwrap_or,
}
use rs2_runtime.Json.Equality.{value_eq}
use rs2_runtime.Crypto.{Outcome, panic, returned}
use rs2_runtime.Error.{Result, ok, err, bad_request, engine_unavailable, ◌>>=◌}
use rs2_runtime.Error.Problem.{put}
use rs2_runtime.Listing.{flip, not_after, page_of}

-- A comparison is an order of the elements: turned around it is reversed, and it is transitive.
abbrev pub IsOrder {ℓ} : {A : Type ℓ} → (A → A → Ordering) → List A → Type 0
IsOrder compare_ xs =
    All
      (λ a.
        All
          (λ b.
            (compare_ b a ≡ flip (compare_ a b))
            × All
                (λ c.
                  not (not_after (compare_ a b) && not_after (compare_ b c))
                    || not_after (compare_ a c)
                  ≡ true)
                xs)
          xs)
      xs

-- Numbers of JSON: `partial_cmp` as `f64`, equality and display; and `sort_by`.
pub record QueryApi : Type 0 where
  pub partial_cmp : Number → Number → Option Ordering
  pub number_eq : Number → Number → Bool
  pub display : Number → Text
  pub sort : (Value → Value → Ordering) → List Value → Outcome (List Value)
  pub sort-IsOrder :
      (compare_ : Value → Value → Ordering) (xs : List Value)
      → IsOrder compare_ xs
      → sort compare_ xs ≡ returned (sort_by (λ a b. not_after (compare_ a b)) xs)

abbrev pub and_then {ℓ κ} : {A : Type ℓ} {B : Type κ} → Option A → (A → Option B) → Option B
and_then none f = none
and_then (some a) f = f a

abbrev pub walk : List Text → Value → Option Value
walk [] v = some v
walk (part ∷ parts) v = and_then (get part v) (walk parts)

-- `field`.
unfoldable pub field_at : Value → Text → Option Value
field_at record_ path = walk (split b'.' path) record_

-- The operator of a clause, and the value that it expects.
abbrev pub clause_of : Value → Text × Value
clause_of (object o) =
    if is_some (lookup (lit "op") o)
    then (
      unwrap_or (opt_str (lookup (lit "op") o)) (lit "=="),
      unwrap_or (lookup (lit "value") o) null,
    )
    else (lit "==", object o)
clause_of v = (lit "==", v)

abbrev pub is_lt : Option Ordering → Bool
is_lt (some Ordering.lt) = true
is_lt _ = false

abbrev pub is_gt : Option Ordering → Bool
is_gt (some Ordering.gt) = true
is_gt _ = false

abbrev pub is_le : Option Ordering → Bool
is_le none = false
is_le (some Ordering.gt) = false
is_le (some _) = true

abbrev pub is_ge : Option Ordering → Bool
is_ge none = false
is_ge (some Ordering.lt) = false
is_ge (some _) = true

module _ (api : QueryApi) where
  abbrev pub order_of : Option Value → Value → Option Ordering
  order_of (some (number a)) (number b) = api.partial_cmp a b
  order_of (some (string a)) (string b) = some (compare_text a b)
  order_of _ _ = none

  abbrev pub equals : Option Value → Value → Bool
  equals none v = false
  equals (some a) v = value_eq api.number_eq a v

  abbrev pub any_item : Items → Value → Bool
  any_item nil v = false
  any_item (cons a items) v = value_eq api.number_eq a v || any_item items v

  abbrev pub holds_within : Option Value → Value → Bool
  holds_within (some (string s)) (string needle) = contains_str needle s
  holds_within (some (array items)) v = any_item items v
  holds_within _ _ = false

  abbrev pub test : Text → Option Value → Value → Result Bool
  test op actual expected =
      let ord = order_of actual expected in
      if text_eq op (lit "==")
      then ok (equals actual expected)
      else if text_eq op (lit "!=")
      then ok (not (equals actual expected))
      else if text_eq op (lit "<")
      then ok (is_lt ord)
      else if text_eq op (lit ">")
      then ok (is_gt ord)
      else if text_eq op (lit "<=")
      then ok (is_le ord)
      else if text_eq op (lit ">=")
      then ok (is_ge ord)
      else if text_eq op (lit "contains")
      then ok (holds_within actual expected)
      else err (bad_request (lit "unknown query op '" ++ (op ++ lit "'")))

  -- `matches`.
  unfoldable pub clause_matches : Value → Text → Value → Result Bool
  clause_matches record_ path clause =
      let (op, expected) = clause_of clause in test op (field_at record_ path) expected

  -- `keep`: the first clause that does not match ends the test.
  unfoldable pub passes : Fields → Value → Result Bool
  passes end record_ = ok true
  passes (field path clause clauses) record_ =
      let later = passes clauses record_ in
      clause_matches record_ path clause >>= λ hit. if hit then later else ok false

  -- The key of a record that is an object becomes a field of it, if it has none of that name.
  abbrev pub with_key : Text × Value → Value
  with_key (key, object o) =
      if is_some (lookup (lit "_key") o) then object o else object (put (lit "_key") (string key) o)
  with_key (key, v) = v

  abbrev pub order_by_field : Option Value → Option Value → Ordering
  order_by_field (some (number x)) (some (number y)) = unwrap_or (api.partial_cmp x y) Ordering.eq
  order_by_field (some (string x)) (some (string y)) = compare_text x y
  order_by_field _ _ = Ordering.eq

  abbrev pub by_field : Text → Value → Value → Ordering
  by_field path a b = order_by_field (field_at a path) (field_at b path)

  unfoldable pub ordered : Option Text → List Value → Outcome (List Value)
  ordered none rows = returned rows
  ordered (some path) rows = api.sort (by_field path) rows

  abbrev pub is_string : Value → Bool
  is_string (string s) = true
  is_string _ = false

  abbrev pub clauses_of : Option Value → Result Fields
  clauses_of none = ok end
  clauses_of (some (object o)) = ok o
  clauses_of (some _) = err (bad_request (lit "'where' must be an object"))

  abbrev pub dataset_of : Option Text → Result Text
  dataset_of none = err (bad_request (lit "query template requires a 'dataset'"))
  dataset_of (some d) = ok d

  abbrev pub paged : ℕ → ℕ → Outcome (List Value) → Outcome (Result (List Value × ℕ))
  paged take_count skip_count panic = panic
  paged take_count skip_count (returned rows) =
      returned (ok (page_of take_count skip_count rows, length rows))

  -- The rows of the records that match, with their keys, before they are ordered.
  abbrev pub matched_rows :
      (Text → Text → (Value → Result Bool) → Result (List (Text × Value)))
      → Text
      → Value
      → Result (List Value)
  matched_rows scan_matching tenant query =
      dataset_of (opt_str (get (lit "dataset") query)) >>= λ dataset.
      clauses_of (get (lit "where") query) >>= λ clauses.
      scan_matching tenant dataset (passes clauses) >>= λ matched. ok (map with_key matched)

  abbrev pub page_of_rows : Value → ℕ → ℕ → Result (List Value) → Outcome (Result (List Value × ℕ))
  page_of_rows query take_count skip_count (err e) = returned (err e)
  page_of_rows query take_count skip_count (ok rows) =
      paged take_count skip_count (ordered (opt_str (get (lit "orderBy") query)) rows)

  unfoldable pub run_query :
      (Text → Text → (Value → Result Bool) → Result (List (Text × Value)))
      → Text
      → Value
      → ℕ
      → ℕ
      → Outcome (Result (List Value × ℕ))
  run_query scan_matching tenant query take_count skip_count =
      if is_string query
      then returned (
          err (
            engine_unavailable (
              lit
                "this query adapter executes JSON templates; sql/text queries need a SQL adapter")))
      else page_of_rows query take_count skip_count (matched_rows scan_matching tenant query)

  -- `quote`.
  unfoldable pub quote : Value → Result Text
  quote (string s) = ok s
  quote (number n) = ok (api.display n)
  quote (boolean true) = ok (lit "true")
  quote (boolean false) = ok (lit "false")
  quote null = err (bad_request (lit "cannot splice a null into a string query position"))
  quote (array a) = err (bad_request (lit "cannot splice a array into a string query position"))
  quote (object o) = err (bad_request (lit "cannot splice a object into a string query position"))
