-- ===== src/Listing/Meta.antt =====
-- The sort of a listing of files by what is known of each without reading it.
use rs2_runtime.Common.{ℕ, Ordering, Bool, Option, none, some, List, [], ◌∷◌, ◌++◌, if◌then◌else◌}
use rs2_runtime.Common.Text.{Text, lit, text_eq, split}
use rs2_runtime.Common.Text.Order.{compare_text, then_with}
use rs2_runtime.Common.Sort.{sort_by}
use rs2_runtime.Json.{Value, boolean, number, string, pos_int}
use rs2_runtime.Error.{Result, ok, err, bad_request, ◌>>=◌}
use rs2_runtime.Listing.{Dir, directed, collect, signed, ValueApi, compare_optional, not_after}

-- `DirEntry` of rs2-core/src/capabilities/mod.rs.
pub record DirEntry : Type 0 where
  pub entry_name : Text
  pub entry_size : ℕ
  pub modified : Option Text
  pub is_dir : Bool
  pub media : Option Text

pub data MetaField : Type 0 where
  name size last_modified content_type dir : MetaField

-- `MetaField::parse`.
unfoldable pub parse_meta : Text → Result MetaField
parse_meta key =
    if text_eq key (lit "@name")
    then ok name
    else if text_eq key (lit "@size")
    then ok size
    else if text_eq key (lit "@lastModified")
    then ok last_modified
    else if text_eq key (lit "@contentType")
    then ok content_type
    else if text_eq key (lit "@dir")
    then ok dir
    else err (
        bad_request (
          lit "unknown listing sort key '"
          ++ (key ++ lit "': metadata keys are @name, @size, @lastModified, @contentType, @dir")))

abbrev pub opt_string : Option Text → Option Value
opt_string none = none
opt_string (some s) = some (string s)

-- `MetaField::value`.
abbrev pub meta_value : MetaField → DirEntry → Option Value
meta_value name e = some (string e.entry_name)
meta_value size e = some (number (pos_int e.entry_size))
meta_value last_modified e = opt_string e.modified
meta_value content_type e = opt_string e.media
meta_value dir e = some (boolean e.is_dir)

abbrev pub meta_key : Dir × Text → Result (MetaField × Dir)
meta_key (d, key) = parse_meta key >>= λ f. ok (f, d)

abbrev pub some_keys : List (MetaField × Dir) → Result (List (MetaField × Dir))
some_keys [] = err (bad_request (lit "$sort requires at least one key"))
some_keys (k ∷ ks) = ok (k ∷ ks)

-- `MetaSort::parse`.
unfoldable pub parse_meta_sort : Text → Result (List (MetaField × Dir))
parse_meta_sort sort = collect (λ k. meta_key (signed k)) (split b',' sort) >>= some_keys

module _ (api : ValueApi) where
  unfoldable pub compare_entries : List (MetaField × Dir) → DirEntry → DirEntry → Ordering
  compare_entries [] a b = compare_text a.entry_name b.entry_name
  compare_entries ((f, d) ∷ keys) a b =
      then_with (directed d (compare_optional api (meta_value f a) (meta_value f b)))
        (compare_entries keys a b)

  -- `MetaSort::sort`.
  unfoldable pub sort_entries : List (MetaField × Dir) → List DirEntry → List DirEntry
  sort_entries keys = sort_by (λ a b. not_after (compare_entries keys a b))
