-- ===== src/MemData/Tests.antt =====
-- Stores to run, and the theorems at them.
use rs2_runtime.Common.{◌+◌, ◌≡◌, ◌≢◌, ◌⊎◌, refl, none, some, List, [], ◌∷◌}
use rs2_runtime.Common.Text.{Text, lit, texts}
use rs2_runtime.Common.Text.Order.{compare_text}
use rs2_runtime.Common.Tree.{insert, remove}
use rs2_runtime.Json.{Value, string, null}
use rs2_runtime.Error.{ok, err, not_found}
use rs2_runtime.Listing.{ListSpec, ValueApi, sort_page_project}
use rs2_runtime.MemData.{
  Dataset, Op, put_op, delete_op, run_ops, get, put, delete, update, find_dataset, list_keys,
  list_records, put_schema, delete_dataset, no_record, list_datasets, get_schema, scan_matching,
  scan_records,
}
use rs2_runtime.MemData.Order.{list_records-run_ops}
use rs2_runtime.MemData.Records.{get-put}

abbrev api : ValueApi
api = record { display = λ v. lit "?"; partial_cmp = λ a b. none }

unfoldable all_of : Unit {0}
unfolding texts compare_text insert remove get put delete update find_dataset list_keys put_schema
    delete_dataset list_datasets get_schema scan_matching scan_records
all_of = tt

abbrev title : Text → Value
title s = string s

abbrev ops : List Op
ops =
    put_op (lit "t") (lit "d") (lit "b") (title (lit "2"))
    ∷ put_op (lit "t") (lit "d") (lit "a") (title (lit "1"))
    ∷ put_op (lit "t") (lit "d") (lit "c") (title (lit "3"))
    ∷ delete_op (lit "t") (lit "d") (lit "c")
    ∷ []

abbrev two_records : Dataset
two_records = record {
  records = (lit "a", title (lit "1")) ∷ (lit "b", title (lit "2")) ∷ [];
  schema = none;
}

in_key_order : find_dataset (lit "t") (lit "d") (run_ops ops []) ≡ some two_records
unfolding all_of
in_key_order = refl

abbrev by_key : ListSpec
by_key = record { fields = (lit "x" ∷ []) ∷ []; sort = []; take_count = 1; skip_count = 1 }

list_records-run_ops_example :
    list_records api (lit "t") (lit "d") by_key (run_ops ops [])
    ≡ ok (sort_page_project api two_records.records by_key)
list_records-run_ops_example =
    list_records-run_ops api by_key ops (lit "t") (lit "d") two_records in_key_order

get-put_example :
    (get (lit "t") (lit "d") (lit "a") ((put (lit "t") (lit "d") (lit "a") null (run_ops ops [])).1)
      ≡ ok null)
    × ((lit "t" ≢ lit "u") ⊎ ((lit "d" ≢ lit "d") ⊎ (lit "a" ≢ lit "a"))
        → get
            (lit "u")
            (lit "d")
            (lit "a")
            ((put (lit "t") (lit "d") (lit "a") null (run_ops ops [])).1)
          ≡ get (lit "u") (lit "d") (lit "a") (run_ops ops []))
get-put_example =
    get-put (lit "t") (lit "d") (lit "a") (lit "u") (lit "d") (lit "a") null (run_ops ops [])

first_page : list_keys (lit "t") (lit "d") 1 0 (run_ops ops []) ≡ ok (lit "a" ∷ [], 2)
unfolding all_of
first_page = refl

second_page : list_keys (lit "t") (lit "d") 5 (0 + 1) (run_ops ops []) ≡ ok (lit "b" ∷ [], 2)
unfolding all_of
second_page = refl

missing_record :
    (delete (lit "t") (lit "d") (lit "z") (run_ops ops [])).0
    ≡ err (not_found (no_record (lit "z") (lit "d")))
unfolding all_of
missing_record = refl

no_datasets : list_datasets (lit "u") 5 0 (run_ops ops []) ≡ ok ([], 0)
unfolding all_of
no_datasets = refl
