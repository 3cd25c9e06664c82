-- ===== src/Listing/Tests.antt =====
-- Listings to run.
use rs2_runtime.Common.{ℕ, ◌≡◌, refl, compare, arith, none, some, List, [], ◌∷◌, Bool, true, false}
use rs2_runtime.Common.Text.{Text, lit, texts, trim}
use rs2_runtime.Common.Text.Order.{compare_text}
use rs2_runtime.Common.Sort.{insert_by, sort_by}
use rs2_runtime.Json.{
  Value, end, field, string, object, number, pos_int, neg_int, float, Number, lookup,
}
use rs2_runtime.Error.{ok}
use rs2_runtime.Listing.{
  ListSpec, ValueApi, parse_path, parse_spec, lookup_path, type_rank, compare_numbers,
  compare_present, compare_optional, compare_records, insert_path, project, sort_page_project, asc,
  desc,
}
use rs2_runtime.Listing.Flip.{IsSymmetric}
use rs2_runtime.Listing.Meta.{
  DirEntry, parse_meta, parse_meta_sort, compare_entries, sort_entries, dir, name,
}

-- Numbers by their size alone.
abbrev magnitude : Number → ℕ
magnitude (pos_int n) = n
magnitude (neg_int n) = 0
magnitude (float n) = n

abbrev api : ValueApi
api = record {
  display = λ v. lit "?";
  partial_cmp = λ a b. some (compare (magnitude a) (magnitude b));
}

api-IsSymmetric : IsSymmetric api
api-IsSymmetric x y = ground arith

unfoldable all_of : Unit {0}
unfolding texts trim compare_text insert_by sort_by parse_path parse_spec lookup_path type_rank
    compare_numbers compare_present compare_optional compare_records insert_path project
    sort_page_project parse_meta parse_meta_sort compare_entries sort_entries lookup
all_of = tt

abbrev dated : Text → ℕ → Value
dated title date = object (
    field (lit "title") (string title)
      (field (lit "meta") (object (field (lit "date") (number (pos_int date)) end)) end))

abbrev records : List (Text × Value)
records =
    (lit "a", dated (lit "x") 3) ∷ (lit "b", dated (lit "y") 1) ∷ (lit "c", dated (lit "z") 2) ∷ []

abbrev newest_first : ListSpec
newest_first = record {
  fields = (lit "meta" ∷ lit "date" ∷ []) ∷ [];
  sort = ((lit "meta" ∷ lit "date" ∷ []), desc) ∷ [];
  take_count = 2;
  skip_count = 0;
}

wire_form : parse_spec (lit " meta.date") (some (lit "-meta.date")) 2 0 ≡ ok newest_first
unfolding all_of
wire_form = refl

sorted_page : sort_page_project api records newest_first ≡ (
  ((lit "a", object (field (lit "meta") (object (field (lit "date") (number (pos_int 3)) end)) end))
      ∷ (
        lit "c",
        object (field (lit "meta") (object (field (lit "date") (number (pos_int 2)) end)) end),
      )
      ∷ []),
  3,
)
unfolding all_of
sorted_page = refl

-- A path below one that has claimed its segment with a scalar is left out.
claimed_segment :
    project
      (object (field (lit "a") (string (lit "s")) end))
      ((lit "a" ∷ []) ∷ (lit "a" ∷ lit "b" ∷ []) ∷ [])
    ≡ object (field (lit "a") (string (lit "s")) end)
unfolding all_of
claimed_segment = refl

abbrev entry : Text → Bool → DirEntry
entry n d = record { entry_name = n; entry_size = 0; modified = none; is_dir = d; media = none }

directories_first :
    sort_entries api
      ((dir, desc) ∷ (name, asc) ∷ [])
      (entry (lit "b") false ∷ entry (lit "c") true ∷ entry (lit "a") false ∷ [])
    ≡ entry (lit "c") true ∷ entry (lit "a") false ∷ entry (lit "b") false ∷ []
unfolding all_of
directories_first = refl
