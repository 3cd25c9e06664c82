-- ===== src/MemData.antt =====
-- rs2-core/src/adapters/mem_data.rs: the data store in memory, a tree of tenants, of their datasets
-- and of the records of these. Each operation runs under the lock, in one step.
pub mod Order
pub mod Records
mod Tests
use rs2_runtime.Common.{
  ℕ, Bool, true, false, Option, none, some, List, [], ◌∷◌, ◌++◌, map, length, not, is_some,
  if◌then◌else◌,
}
use rs2_runtime.Common.Text.{Text, lit}
use rs2_runtime.Common.Tree.{lookup, insert, remove}
use rs2_runtime.Common.Sort.{sort_by}
use rs2_runtime.Json.{Value}
use rs2_runtime.Error.{Result, ok, err, not_found, ◌>>=◌}
use rs2_runtime.Listing.{ListSpec, ValueApi, FieldPath, Dir, record_before, projected, page_of}

pub record Dataset : Type 0 where
  pub records : List (Text × Value)
  pub schema : Option Value

abbrev pub Tenant : Type 0
Tenant = List (Text × Dataset)

abbrev pub Store : Type 0
Store = List (Text × Tenant)

abbrev pub no_dataset : Dataset
no_dataset = record { records = []; schema = none }

abbrev pub or_default {ℓ} : {A : Type ℓ} → Option A → A → A
or_default none d = d
or_default (some a) d = a

abbrev pub and_then {ℓ κ} : {A : Type ℓ} {B : Type κ} → Option A → (A → Option B) → Option B
and_then none f = none
and_then (some a) f = f a

abbrev pub ok_or {ℓ} : {A : Type ℓ} → Option A → Text → Result A
ok_or none e = err (not_found e)
ok_or (some a) e = ok a

abbrev pub no_record : Text → Text → Text
no_record key dataset = lit "no record '" ++ (key ++ (lit "' in dataset '" ++ (dataset ++ lit "'")))

abbrev pub missing_dataset : Text → Text
missing_dataset dataset = lit "no dataset '" ++ (dataset ++ lit "'")

unfoldable pub find_dataset : Text → Text → Store → Option Dataset
find_dataset tenant dataset st = and_then (lookup tenant st) (lookup dataset)

unfoldable pub get : Text → Text → Text → Store → Result Value
get tenant dataset key st =
    ok_or (and_then (find_dataset tenant dataset st) (λ ds. lookup key ds.records))
      (no_record key dataset)

-- A change of a dataset, which is created with its tenant where they are missing.
unfoldable pub update : Text → Text → (Dataset → Dataset) → Store → Store
update tenant dataset f st =
    let t = or_default (lookup tenant st) [] in
    insert tenant (insert dataset (f (or_default (lookup dataset t) no_dataset)) t) st

-- The answer says whether the record is new.
unfoldable pub put : Text → Text → Text → Value → Store → Result Bool × Store
put tenant dataset key value st =
    let ds = or_default (find_dataset tenant dataset st) no_dataset in
    (
      ok (not (is_some (lookup key ds.records))),
      update tenant dataset (λ d. record d { records = insert key value d.records }) st,
    )

abbrev pub removed : Text → Text → Text → Store → Option Value → Result (Unit {0}) × Store
removed tenant dataset key st none = (err (not_found (no_record key dataset)), st)
removed tenant dataset key st (some v) =
    (ok tt, update tenant dataset (λ d. record d { records = remove key d.records }) st)

unfoldable pub delete : Text → Text → Text → Store → Result (Unit {0}) × Store
delete tenant dataset key st =
    removed tenant dataset key st
      (and_then (find_dataset tenant dataset st) (λ ds. lookup key ds.records))

abbrev pub keys_of {ℓ} : {V : Type ℓ} → List (Text × V) → List Text
keys_of es = map (λ e. e.0) es

unfoldable pub list_keys : Text → Text → ℕ → ℕ → Store → Result (List Text × ℕ)
list_keys tenant dataset take_count skip_count st =
    ok_or (find_dataset tenant dataset st) (missing_dataset dataset) >>= λ ds.
    ok (page_of take_count skip_count (keys_of ds.records), length ds.records)

abbrev pub names_of : ℕ → ℕ → Option Tenant → List Text × ℕ
names_of take_count skip_count none = ([], 0)
names_of take_count skip_count (some t) = (page_of take_count skip_count (keys_of t), length t)

unfoldable pub list_datasets : Text → ℕ → ℕ → Store → Result (List Text × ℕ)
list_datasets tenant take_count skip_count st =
    ok (names_of take_count skip_count (lookup tenant st))

unfoldable pub get_schema : Text → Text → Store → Result (Option Value)
get_schema tenant dataset st = ok (and_then (find_dataset tenant dataset st) (λ ds. ds.schema))

unfoldable pub put_schema : Text → Text → Value → Store → Result (Unit {0}) × Store
put_schema tenant dataset schema st =
    (ok tt, update tenant dataset (λ d. record d { schema = some schema }) st)

abbrev pub dropped : Text → Text → Store → Option Dataset → Result (Unit {0}) × Store
dropped tenant dataset st none = (err (not_found (missing_dataset dataset)), st)
dropped tenant dataset st (some d) =
    (ok tt, insert tenant (remove dataset (or_default (lookup tenant st) [])) st)

unfoldable pub delete_dataset : Text → Text → Store → Result (Unit {0}) × Store
delete_dataset tenant dataset st = dropped tenant dataset st (find_dataset tenant dataset st)

-- The page of a dataset: in the order of the keys where no sort is asked for.
unfoldable pub page_of_dataset :
    ValueApi → ListSpec → List (FieldPath × Dir) → Dataset → List (Text × Value)
page_of_dataset api spec [] ds = projected spec (page_of spec.take_count spec.skip_count ds.records)
page_of_dataset api spec (key ∷ keys) ds =
    projected spec (
      page_of spec.take_count spec.skip_count (sort_by (record_before api (key ∷ keys)) ds.records))

unfoldable pub list_records :
    ValueApi → Text → Text → ListSpec → Store → Result (List (Text × Value) × ℕ)
list_records api tenant dataset spec st =
    ok_or (find_dataset tenant dataset st) (missing_dataset dataset) >>= λ ds.
    ok (page_of_dataset api spec spec.sort ds, length ds.records)

-- The records that pass, up to the first error of the test.
unfoldable pub scan_records :
    (Value → Result Bool) → List (Text × Value) → Result (List (Text × Value))
scan_records keep [] = ok []
scan_records keep ((key, r) ∷ es) =
    let later = scan_records keep es in
    keep r >>= λ kept. later >>= λ out. ok (if kept then (key, r) ∷ out else out)

unfoldable pub scan_matching :
    Text → Text → (Value → Result Bool) → Store → Result (List (Text × Value))
scan_matching tenant dataset keep st =
    ok_or (find_dataset tenant dataset st) (missing_dataset dataset) >>= λ ds.
    scan_records keep ds.records

-- The operations that change the store, and runs of them.
pub data Op : Type 0 where
  put_op : Text → Text → Text → Value → Op
  delete_op : Text → Text → Text → Op
  put_schema_op : Text → Text → Value → Op
  delete_dataset_op : Text → Text → Op

abbrev pub apply_op : Op → Store → Store
apply_op (put_op t d k v) st = (put t d k v st).1
apply_op (delete_op t d k) st = (delete t d k st).1
apply_op (put_schema_op t d v) st = (put_schema t d v st).1
apply_op (delete_dataset_op t d) st = (delete_dataset t d st).1

abbrev pub run_ops : List Op → Store → Store
run_ops [] st = st
run_ops (op ∷ ops) st = run_ops ops (apply_op op st)
