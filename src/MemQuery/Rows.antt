-- ===== src/MemQuery/Rows.antt =====
-- The rows of a query over the data store in memory.
use rs2_runtime.Common.{ℕ, ◌≡◌, refl, false, some, List, map, length, In-map_mono}
use rs2_runtime.Common.Text.{Text, lit}
use rs2_runtime.Crypto.{returned}
use rs2_runtime.Json.{Value, Fields, get, opt_str}
use rs2_runtime.Error.{ok}
use rs2_runtime.Listing.{page_of}
use rs2_runtime.MemData.{Store, Dataset, find_dataset, scan_matching}
use rs2_runtime.MemQuery.{QueryApi, with_key, is_string, clauses_of, run_query}
use rs2_runtime.MemQuery.Selection.{
  KnownClauses, Selected, AllKeyed, scan_records-Selects, map-AllKeyed,
}
use rs2_runtime.MemQuery.InOrder.{IsOrderable, IsOrdered, ordered-IsOrdered, IsOrderable-among}

-- A query over the store in memory, whose dataset is there, whose clauses have known operators,
-- and whose comparison by the field of orderBy, if it has one, is an order of the records, gives
-- the page of the rows, and their number. The rows are made of the records that meet all the
-- clauses, each as its operator says: the fields of such a record, and its key under _key unless
-- it has that field. Without orderBy they stand in the order of the records; with it they are a
-- rearrangement in which no row is above one that follows it, by the numbers or the texts of the
-- field.
pub run_query-rows :
    (api : QueryApi) (tenant dataset : Text) (query : Value) (clauses : Fields)
    (take_count skip_count : ℕ) (st : Store) (ds : Dataset)
    → is_string api query ≡ false
    → opt_str (get (lit "dataset") query) ≡ some dataset
    → clauses_of api (get (lit "where") query) ≡ ok clauses
    → KnownClauses clauses
    → find_dataset tenant dataset st ≡ some ds
    → IsOrderable api (opt_str (get (lit "orderBy") query)) (map (with_key api) ds.records)
    → (kept : List (Text × Value)) × (unsorted : List Value) × (rows : List Value) × Selected api
        clauses ds.records kept
      × AllKeyed api kept unsorted
      × IsOrdered api (opt_str (get (lit "orderBy") query)) unsorted rows
      × (run_query api (λ t d test_. scan_matching t d test_ st) tenant query take_count skip_count
          ≡ returned (ok (page_of take_count skip_count rows, length rows)))
unfolding run_query scan_matching
run_query-rows api tenant dataset query clauses take_count skip_count st ds plain named where_ known
      found orderable =
    let (kept, scanned, chosen, among) = scan_records-Selects api clauses ds.records known in
    let order_by = opt_str (get (lit "orderBy") query) in
    let unsorted = map (with_key api) kept in
    let (rows, sorted, in_order) = ordered-IsOrdered api order_by unsorted (
      IsOrderable-among api order_by (map (with_key api) ds.records) unsorted
        (In-map_mono (with_key api) kept ds.records among) orderable) in
    (
      kept,
      unsorted,
      rows,
      chosen,
      map-AllKeyed api kept,
      in_order,
      rw (plain, named, where_, found, scanned, sorted) refl,
    )
