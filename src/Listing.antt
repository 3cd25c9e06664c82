-- ===== src/Listing.antt =====
-- rs2-core/src/listing.rs: the selection, order and projection of a listing. The display of a JSON
-- value and the comparison of numbers as `f64` are parameters.
pub mod Meta
pub mod Flip
mod Tests
use rs2_runtime.Common.{
  ℕ, suc, ◌^◌, compare, Ordering, Bool, true, false, Option, none, some, List, [], ◌∷◌, ◌++◌, map,
  any, length, take, drop, ltb, ◌==◌, ◌||◌, if◌then◌else◌,
}
use rs2_runtime.Common.Text.{Text, lit, split, trim, strip_prefix, is_empty, join}
use rs2_runtime.Common.Text.Order.{compare_text, then_with}
use rs2_runtime.Common.Fallible.{ℤ, pos, negsuc}
use rs2_runtime.Common.Sort.{sort_by}
use rs2_runtime.Json.{
  Value, null, boolean, number, string, array, object, Fields, end, field, lookup, Number, pos_int,
  neg_int, float,
}
use rs2_runtime.Error.{Result, ok, err, bad_request, ◌>>=◌}
use rs2_runtime.Error.Problem.{put}

abbrev pub FieldPath : Type 0
FieldPath = List Text

abbrev pub quote_path : Text → Text
quote_path s =
    lit "invalid field path '" ++ (s ++ lit "': expected dot-separated non-empty segments")

-- `FieldPath::parse`.
unfoldable pub parse_path : Text → Result FieldPath
parse_path s =
    if is_empty s || any is_empty (split b'.' s)
    then err (bad_request (quote_path s))
    else ok (split b'.' s)

-- `FieldPath::lookup` and `FieldPath::dotted`.
abbrev pub child : Text → Value → Option Value
child k (object o) = lookup k o
child k _ = none

abbrev pub and_then : Option Value → (Value → Option Value) → Option Value
and_then none f = none
and_then (some v) f = f v

unfoldable pub lookup_path : FieldPath → Value → Option Value
lookup_path [] v = some v
lookup_path (k ∷ path) v = and_then (child k v) (lookup_path path)

abbrev pub dotted : FieldPath → Text
dotted path = join (lit ".") path

pub data Dir : Type 0 where
  asc desc : Dir

pub record ListSpec : Type 0 where
  pub fields : List FieldPath
  pub sort : List (FieldPath × Dir)
  pub take_count : ℕ
  pub skip_count : ℕ

-- `collect` of results: the first error, or all the values.
abbrev pub collect {ℓ} : {A : Type 0} {T : Type ℓ} → (A → Result T) → List A → Result (List T)
collect f [] = ok []
collect f (a ∷ xs) = let later = collect f xs in f a >>= λ v. later >>= λ vs. ok (v ∷ vs)

-- The direction of a key, and the key without its sign.
abbrev pub direction : Text → Option Text → Dir × Text
direction k none = (asc, k)
direction k (some after) = (desc, after)

abbrev pub signed : Text → Dir × Text
signed k = direction (trim k) (strip_prefix (lit "-") (trim k))

abbrev pub sort_key : Dir × Text → Result (FieldPath × Dir)
sort_key (dir, path) = parse_path path >>= λ p. ok (p, dir)

abbrev pub sort_keys : Option Text → Result (List (FieldPath × Dir))
sort_keys none = ok []
sort_keys (some s) = collect (λ k. sort_key (signed k)) (split b',' s)

abbrev pub some_fields : List FieldPath → Result (List FieldPath)
some_fields [] = err (bad_request (lit "$select requires at least one field"))
some_fields (f ∷ fs) = ok (f ∷ fs)

-- `ListSpec::parse`.
unfoldable pub parse_spec : Text → Option Text → ℕ → ℕ → Result ListSpec
parse_spec select sort take_count skip_count =
    collect (λ f. parse_path (trim f)) (split b',' select) >>= λ paths.
    some_fields paths >>= λ fields. sort_keys sort >>= λ keys.
    ok (record { fields = fields; sort = keys; take_count = take_count; skip_count = skip_count })

unfoldable pub type_rank : Value → ℕ
type_rank null = 0
type_rank (boolean false) = 1
type_rank (boolean true) = 2
type_rank (number n) = 3
type_rank (string s) = 4
type_rank (array a) = 5
type_rank (object o) = 6

abbrev pub as_i64 : Number → Option ℤ
as_i64 (pos_int n) = if ltb n (2 ^ 63) then some (pos n) else none
as_i64 (neg_int n) = some (negsuc n)
as_i64 (float f) = none

abbrev pub as_u64 : Number → Option ℕ
as_u64 (pos_int n) = some n
as_u64 _ = none

abbrev pub compare_int : ℤ → ℤ → Ordering
compare_int (pos a) (pos b) = compare a b
compare_int (pos a) (negsuc b) = Ordering.gt
compare_int (negsuc a) (pos b) = Ordering.lt
compare_int (negsuc a) (negsuc b) = compare b a

abbrev pub or_equal : Option Ordering → Ordering
or_equal none = Ordering.eq
or_equal (some o) = o

abbrev pub flip : Ordering → Ordering
flip Ordering.lt = Ordering.gt
flip Ordering.eq = Ordering.eq
flip Ordering.gt = Ordering.lt

abbrev pub directed : Dir → Ordering → Ordering
directed asc o = o
directed desc o = flip o

abbrev pub not_after : Ordering → Bool
not_after Ordering.gt = false
not_after _ = true

-- The display of a value, and `partial_cmp` of two numbers as `f64`.
pub record ValueApi : Type 0 where
  pub display : Value → Text
  pub partial_cmp : Number → Number → Option Ordering

module _ (api : ValueApi) where
  abbrev pub unsigned_or_float : Number → Number → Option ℕ → Option ℕ → Ordering
  unsigned_or_float x y (some a) (some b) = compare a b
  unsigned_or_float x y _ _ = or_equal (api.partial_cmp x y)

  abbrev pub signed_or : Number → Number → Option ℤ → Option ℤ → Ordering
  signed_or x y (some a) (some b) = compare_int a b
  signed_or x y _ _ = unsigned_or_float x y (as_u64 x) (as_u64 y)

  unfoldable pub compare_numbers : Number → Number → Ordering
  compare_numbers x y = signed_or x y (as_i64 x) (as_i64 y)

  abbrev pub same_rank : Value → Value → Ordering
  same_rank (number x) (number y) = compare_numbers x y
  same_rank (string x) (string y) = compare_text x y
  same_rank (array x) (array y) = compare_text (api.display (array x)) (api.display (array y))
  same_rank (object x) (object y) = compare_text (api.display (object x)) (api.display (object y))
  same_rank _ _ = Ordering.eq

  -- `compare`.
  unfoldable pub compare_present : Value → Value → Ordering
  compare_present a b =
      if type_rank a == type_rank b then same_rank a b else compare (type_rank a) (type_rank b)

  unfoldable pub compare_optional : Option Value → Option Value → Ordering
  compare_optional none none = Ordering.eq
  compare_optional none (some b) = Ordering.lt
  compare_optional (some a) none = Ordering.gt
  compare_optional (some a) (some b) = compare_present a b

  unfoldable pub compare_records : Value → Value → List (FieldPath × Dir) → Ordering
  compare_records a b [] = Ordering.eq
  compare_records a b ((path, dir) ∷ keys) =
      then_with (directed dir (compare_optional (lookup_path path a) (lookup_path path b)))
        (compare_records a b keys)

  -- The comparison of the sort: by the keys of the spec, and then by the key of the record.
  abbrev pub record_before : List (FieldPath × Dir) → Text × Value → Text × Value → Bool
  record_before keys (ka, a) (kb, b) =
      not_after (then_with (compare_records a b keys) (compare_text ka kb))

-- A shorter path that has claimed a segment with a scalar keeps it.
abbrev pub insert_below : Text → (Fields → Fields) → Fields → Option Value → Fields
insert_below head inner obj none = put head (object (inner end)) obj
insert_below head inner obj (some (object o)) = put head (object (inner o)) obj
insert_below head inner obj (some _) = obj

unfoldable pub insert_path : FieldPath → Value → Fields → Fields
insert_path [] v obj = obj
insert_path (leaf ∷ []) v obj = put leaf v obj
insert_path (head ∷ k ∷ rest) v obj =
    insert_below head (insert_path (k ∷ rest) v) obj (lookup head obj)

abbrev pub project_path : Value → FieldPath → Fields → Fields
project_path r path out = elim (lookup_path path r) [ none ↦ out | some v ↦ insert_path path v out ]

abbrev pub project_all : Value → List FieldPath → Fields → Fields
project_all r [] out = out
project_all r (path ∷ fields) out = project_all r fields (project_path r path out)

unfoldable pub project : Value → List FieldPath → Value
project r fields = object (project_all r fields end)

-- The page of a list: `skip` and `take`.
abbrev pub page_of {ℓ} : {A : Type ℓ} → ℕ → ℕ → List A → List A
page_of take_count skip_count xs = take take_count (drop skip_count xs)

abbrev pub projected : ListSpec → List (Text × Value) → List (Text × Value)
projected spec page = map (λ (k, r). (k, project r spec.fields)) page

unfoldable pub sort_page_project :
    ValueApi → List (Text × Value) → ListSpec → List (Text × Value) × ℕ
sort_page_project api records spec = (
  projected spec
      (page_of spec.take_count spec.skip_count (sort_by (record_before api spec.sort) records)),
  length records,
)
