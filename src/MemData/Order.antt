-- ===== src/MemData/Order.antt =====
-- The entries of a store stay in the order of their keys, and a listing is what the host makes of
-- all the records.
use rs2_runtime.Common.{
  ◌≡◌, refl, inl, inr, Option, none, some, List, [], ◌∷◌, All, All-map, Option-cases, arith,
}
use rs2_runtime.Common.Text.{Text}
use rs2_runtime.Common.Tree.{
  lookup, IsOrdered, insert-IsOrdered, remove-IsOrdered, insert-All, remove-All, lookup-All,
}
use rs2_runtime.Common.Sort.{sort_by, sort_by-id, IsSorted}
use rs2_runtime.Json.{Value}
use rs2_runtime.Error.{ok}
use rs2_runtime.Listing.{
  ListSpec, ValueApi, FieldPath, Dir, record_before, compare_records, projected, page_of,
  sort_page_project,
}
use rs2_runtime.MemData.{
  Dataset, Tenant, Store, no_dataset, or_default, find_dataset, update, put, removed, delete,
  put_schema, dropped, delete_dataset, page_of_dataset, list_records, Op, put_op, delete_op,
  put_schema_op, delete_dataset_op, apply_op, run_ops,
}

abbrev pub OrderedDataset : Dataset → Type 0
OrderedDataset ds = IsOrdered ds.records

abbrev pub OrderedTenant : Tenant → Type 0
OrderedTenant t = IsOrdered t × All (λ e. OrderedDataset e.1) t

abbrev pub OrderedStore : Store → Type 0
OrderedStore st = IsOrdered st × All (λ e. OrderedTenant e.1) st

tenant-OrderedTenant :
    (t : Text) (st : Store) → OrderedStore st → OrderedTenant (or_default (lookup t st) [])
tenant-OrderedTenant t st (o, all_) = elim (Option-cases (lookup t st)) [
  | inl missing ↦ rw missing (tt, tt)
  | inr (x, found) ↦ rw found (lookup-All OrderedTenant t st x all_ found)
]

dataset-OrderedDataset :
    (d : Text) (t : Tenant) → OrderedTenant t → OrderedDataset (or_default (lookup d t) no_dataset)
dataset-OrderedDataset d t (o, all_) = elim (Option-cases (lookup d t)) [
  | inl missing ↦ rw missing tt
  | inr (x, found) ↦ rw found (lookup-All OrderedDataset d t x all_ found)
]

update-OrderedStore :
    (t d : Text) (f : Dataset → Dataset) (st : Store)
    → ((ds : Dataset) → OrderedDataset ds → OrderedDataset (f ds))
    → OrderedStore st
    → OrderedStore (update t d f st)
unfolding update
update-OrderedStore t d f st h (o, all_) =
    let tenant = or_default (lookup t st) [] in
    let (to, tall) = tenant-OrderedTenant t st (o, all_) in
    let ds = or_default (lookup d tenant) no_dataset in
    let fresh = h ds (dataset-OrderedDataset d tenant (to, tall)) in
    (
      insert-IsOrdered t _ st o,
      insert-All OrderedTenant t _ st
          (insert-IsOrdered d _ tenant to, insert-All OrderedDataset d (f ds) tenant fresh tall)
          all_,
    )

removed-OrderedStore :
    (t d k : Text) (st : Store) (o : Option Value)
    → OrderedStore st
    → OrderedStore ((removed t d k st o).1)
removed-OrderedStore t d k st none h = h
removed-OrderedStore t d k st (some v) h =
    update-OrderedStore t d _ st (λ ds o. remove-IsOrdered k ds.records o) h

dropped-OrderedStore :
    (t d : Text) (st : Store) (o : Option Dataset)
    → OrderedStore st
    → OrderedStore ((dropped t d st o).1)
dropped-OrderedStore t d st none h = h
dropped-OrderedStore t d st (some ds) (o, all_) =
    let tenant = or_default (lookup t st) [] in
    let (to, tall) = tenant-OrderedTenant t st (o, all_) in
    (
      insert-IsOrdered t _ st o,
      insert-All OrderedTenant t _ st
          (remove-IsOrdered d tenant to, remove-All OrderedDataset d tenant tall) all_,
    )

apply_op-OrderedStore : (op : Op) (st : Store) → OrderedStore st → OrderedStore (apply_op op st)
unfolding put put_schema delete delete_dataset
apply_op-OrderedStore (put_op t d k v) st h =
    update-OrderedStore t d _ st (λ ds o. insert-IsOrdered k v ds.records o) h
apply_op-OrderedStore (delete_op t d k) st h = removed-OrderedStore t d k st _ h
apply_op-OrderedStore (put_schema_op t d v) st h = update-OrderedStore t d _ st (λ ds o. o) h
apply_op-OrderedStore (delete_dataset_op t d) st h = dropped-OrderedStore t d st _ h

run_ops-OrderedStore :
    (ops : List Op) (st : Store) → OrderedStore st → OrderedStore (run_ops ops st)
run_ops-OrderedStore [] st h = h
run_ops-OrderedStore (op ∷ ops) st h =
    run_ops-OrderedStore ops (apply_op op st) (apply_op-OrderedStore op st h)

-- Entries in the order of their keys are sorted by no other keys.
IsOrdered-IsSorted :
    (api : ValueApi) (es : List (Text × Value)) → IsOrdered es → IsSorted (record_before api []) es
unfolding compare_records
IsOrdered-IsSorted api [] h = tt
IsOrdered-IsSorted api ((k, v) ∷ es) (a, h) =
    (All-map _ _ es (λ e lt. rw lt refl) a, IsOrdered-IsSorted api es h)

page_of_dataset-lem :
    (api : ValueApi) (spec : ListSpec) (keys : List (FieldPath × Dir)) (ds : Dataset)
    → OrderedDataset ds
    → page_of_dataset api spec keys ds
      ≡ projected spec
          (page_of spec.take_count spec.skip_count (sort_by (record_before api keys) ds.records))
unfolding page_of_dataset
page_of_dataset-lem api spec [] ds h =
    rw (sort_by-id (record_before api []) ds.records (IsOrdered-IsSorted api ds.records h)) refl
page_of_dataset-lem api spec (key ∷ keys) ds h = refl

found-OrderedDataset :
    (t d : Text) (st : Store) (ds : Dataset)
    → OrderedStore st
    → find_dataset t d st ≡ some ds
    → OrderedDataset ds
unfolding find_dataset
found-OrderedDataset t d st ds (o, all_) e = elim (Option-cases (lookup t st)) [
  | inl missing ↦ absurd (ground (arith, rw missing at e))
  | inr (x, found) ↦
      lookup-All OrderedDataset d x ds (lookup-All OrderedTenant t st x all_ found).1
        (rw found at e)
]

-- In every state that the operations of the store lead to, the listing of the records of a
-- dataset is what the host makes of all its records: the same page, in the same order, with the
-- same total.
pub list_records-run_ops :
    (api : ValueApi) (spec : ListSpec) (ops : List Op) (tenant dataset : Text) (ds : Dataset)
    → find_dataset tenant dataset (run_ops ops []) ≡ some ds
    → list_records api tenant dataset spec (run_ops ops [])
      ≡ ok (sort_page_project api ds.records spec)
unfolding list_records sort_page_project
list_records-run_ops api spec ops tenant dataset ds found =
    let ordered =
      found-OrderedDataset tenant dataset (run_ops ops []) ds (run_ops-OrderedStore ops [] (tt, tt))
        found in
    rw (found, page_of_dataset-lem api spec spec.sort ds ordered) refl
