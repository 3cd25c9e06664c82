-- ===== src/MemQuery/Tests.antt =====
-- Queries to run, and the theorem at one.
use rs2_runtime.Common.{ℕ, ◌≡◌, refl, compare, ◌==◌, none, some, List, [], ◌∷◌, map, length}
use rs2_runtime.Common.Text.{Text, lit, texts}
use rs2_runtime.Common.Text.Order.{compare_text}
use rs2_runtime.Common.Sort.{insert_by, sort_by}
use rs2_runtime.Json.{
  Value, string, number, object, Fields, end, field, lookup, Number, pos_int, neg_int, float, get,
}
use rs2_runtime.Json.Equality.{value_eq}
use rs2_runtime.Error.{Result, ok, err, bad_request}
use rs2_runtime.Listing.{page_of}
use rs2_runtime.MemData.{Store, Dataset, find_dataset, scan_records, scan_matching}
use rs2_runtime.MemQuery.{
  QueryApi, field_at, clause_matches, passes, ordered, with_key, run_query, quote,
}
use rs2_runtime.MemQuery.Meets.{equal, above as above_}
use rs2_runtime.MemQuery.Selection.{Selected, AllKeyed}
use rs2_runtime.MemQuery.InOrder.{IsOrderable, IsOrdered}
use rs2_runtime.MemQuery.Rows.{run_query-rows}
use rs2_runtime.Crypto.{Outcome, returned}
use rs2_runtime.Listing.{not_after}

abbrev magnitude : Number → ℕ
magnitude (pos_int n) = n
magnitude (neg_int n) = 0
magnitude (float n) = n

abbrev api : QueryApi
api = record {
  partial_cmp = λ a b. some (compare (magnitude a) (magnitude b));
  number_eq = λ a b. magnitude a == magnitude b;
  display = λ n. lit "?";
  sort = λ compare_ xs. returned (sort_by (λ a b. not_after (compare_ a b)) xs);
  sort-IsOrder = λ compare_ xs h. refl;
}

unfoldable all_of : Unit {0}
unfolding texts lookup get compare_text insert_by sort_by value_eq find_dataset scan_records
    scan_matching field_at clause_matches passes ordered run_query quote
all_of = tt

abbrev order : Text → ℕ → Value
order status total =
    object (field (lit "status") (string status) (field (lit "total") (number (pos_int total)) end))

abbrev orders : Dataset
orders = record {
  records =
      (lit "a", order (lit "open") 30)
      ∷ (lit "b", order (lit "open") 7)
      ∷ (lit "c", order (lit "paid") 50)
      ∷ (lit "d", order (lit "open") 20)
      ∷ [];
  schema = none;
}

abbrev st : Store
st = (lit "t", (lit "orders", orders) ∷ []) ∷ []

abbrev above : ℕ → Value
above n =
    object (field (lit "op") (string (lit ">")) (field (lit "value") (number (pos_int n)) end))

abbrev clauses : Fields
clauses = field (lit "status") (string (lit "open")) (field (lit "total") (above 10) end)

abbrev query : Value
query = object (
    field (lit "dataset") (string (lit "orders"))
      (field (lit "where") (object clauses) (field (lit "orderBy") (string (lit "total")) end)))

abbrev run : Value → Outcome (Result (List Value × ℕ))
run q = run_query api (λ t d test. scan_matching t d test st) (lit "t") q 1 0

abbrev keyed : Text → ℕ → Value
keyed key total = object (
    field (lit "status") (string (lit "open"))
      (field (lit "total") (number (pos_int total)) (field (lit "_key") (string key) end)))

cheapest_open_order : run query ≡ returned (ok (keyed (lit "d") 20 ∷ [], 2))
unfolding all_of
cheapest_open_order = refl

unknown_operator :
    run (
      object (
        field (lit "dataset") (string (lit "orders")) (
          field
            (lit "where")
            (object (field (lit "total") (object (field (lit "op") (string (lit "~")) end)) end))
            end)))
    ≡ returned (err (bad_request (lit "unknown query op '~'")))
unfolding all_of
unknown_operator = refl

-- Rows without the field of the order stand where they are, and keep others from their places.
abbrev numbered : ℕ → Value
numbered n = object (field (lit "n") (number (pos_int n)) end)

out_of_order :
    ordered api (some (lit "n")) (numbered 2 ∷ object end ∷ numbered 1 ∷ [])
    ≡ returned (numbered 2 ∷ object end ∷ numbered 1 ∷ [])
unfolding all_of
out_of_order = refl

-- The comparison by the total is an order of the orders.
totals_ordered : IsOrderable api (some (lit "total")) (map (with_key api) orders.records)
unfolding all_of
totals_ordered = (
  (
    (refl, (refl, (refl, (refl, (refl, tt))))),
    (
      (refl, (refl, (refl, (refl, (refl, tt))))),
      (
        (refl, (refl, (refl, (refl, (refl, tt))))),
        ((refl, (refl, (refl, (refl, (refl, tt))))), tt),
      ),
    ),
  ),
  (
    (
      (refl, (refl, (refl, (refl, (refl, tt))))),
      (
        (refl, (refl, (refl, (refl, (refl, tt))))),
        (
          (refl, (refl, (refl, (refl, (refl, tt))))),
          ((refl, (refl, (refl, (refl, (refl, tt))))), tt),
        ),
      ),
    ),
    (
      (
        (refl, (refl, (refl, (refl, (refl, tt))))),
        (
          (refl, (refl, (refl, (refl, (refl, tt))))),
          (
            (refl, (refl, (refl, (refl, (refl, tt))))),
            ((refl, (refl, (refl, (refl, (refl, tt))))), tt),
          ),
        ),
      ),
      (
        (
          (refl, (refl, (refl, (refl, (refl, tt))))),
          (
            (refl, (refl, (refl, (refl, (refl, tt))))),
            (
              (refl, (refl, (refl, (refl, (refl, tt))))),
              ((refl, (refl, (refl, (refl, (refl, tt))))), tt),
            ),
          ),
        ),
        tt,
      ),
    ),
  ),
)

run_query-rows_example :
    (kept : List (Text × Value)) × (unsorted : List Value) × (rows : List Value) × Selected api
      clauses orders.records kept
    × AllKeyed api kept unsorted
    × IsOrdered api (some (lit "total")) unsorted rows
    × (run query ≡ returned (ok (page_of 1 0 rows, length rows)))
unfolding all_of
run_query-rows_example =
    run_query-rows api (lit "t") (lit "orders") query clauses 1 0 st orders refl refl refl
      ((equal, refl), ((above_, refl), tt)) refl totals_ordered
