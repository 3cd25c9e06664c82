-- ===== src/Router.antt =====
-- rs2-core/src/router/mod.rs: tenant resolution, the mount table and path safety. The percent
-- decoding of a path (`percent_decode_str`, lossily to UTF-8) is a parameter.
pub mod Table
pub mod Paths
pub mod Mounting
mod Tests
use rs2_runtime.Common.{
  ℕ, ◌≤◌, Bool, true, false, Option, none, some, List, [], ◌∷◌, ◌++◌, if◌then◌else◌, find, any, not,
  leb, ltb, ◌==◌, ◌&&◌, ◌||◌, all, map,
}
use rs2_runtime.Common.Text.{
  Text, lit, text_eq, split, is_empty, contains, to_ascii_lowercase, strip_suffix, trim_matches,
  starts_with, byte_len, contains_str, is_control, is_ascii_alphabetic,
}
use rs2_runtime.Common.Sort.{sort_by}
use rs2_runtime.Json.{Value}
use rs2_runtime.Error.{Result, ok, err, RsError, bad_request, path_unsafe, ◌>>=◌, ◌>>◌}

-- `Tenancy`, with the domain map as an association list.
pub data Tenancy : Type 0 where
  single : Text → Tenancy
  multi : List (Text × Text) → Option Text → Tenancy

abbrev pub find_domain : Text → List (Text × Text) → Option Text
find_domain host [] = none
find_domain host ((d, t) ∷ ds) = if text_eq d host then some t else find_domain host ds

abbrev pub first_piece : List Text → Text → Text
first_piece [] d = d
first_piece (w ∷ ws) d = w

-- The tenant of a sub-domain label, which is one label.
abbrev pub one_label : Option Text → Option Text
one_label none = none
one_label (some sub) =
    if not (is_empty sub) && not (any (λ c. c == b'.') sub) then some sub else none

abbrev pub by_sub_domain : Text → Option Text → Option Text
by_sub_domain host none = none
by_sub_domain host (some main) = one_label (strip_suffix (lit "." ++ main) host)

abbrev pub or_else : Option Text → Option Text → Option Text
or_else none b = b
or_else (some a) b = some a

abbrev pub lookup_host : Tenancy → Text → Option Text
lookup_host (single tenant) host = some tenant
lookup_host (multi domain_map main_domain) host =
    or_else (find_domain host domain_map) (by_sub_domain host main_domain)

-- `Tenancy::resolve`: the port is cut off and the host is compared in lower case.
unfoldable pub resolve : Tenancy → Text → Option Text
resolve tenancy host = lookup_host tenancy (to_ascii_lowercase (first_piece (split b':' host) host))

-- One candidate of `validate_path`: the path itself, or the path decoded.
abbrev pub is_dots : Text → Bool
is_dots seg = leb 2 (byte_len seg) && all (λ c. c == b'.') seg

abbrev pub is_drive : Text → Bool
is_drive (a ∷ b ∷ seg) = b == b':' && is_ascii_alphabetic a
is_drive _ = false

-- A row of tests, each of which returns its error if it holds.
abbrev pub first_fault : List (Bool × RsError) → Result (Unit {0})
first_fault [] = ok tt
first_fault ((true, e) ∷ tests) = err e
first_fault ((false, e) ∷ tests) = first_fault tests

abbrev pub faults : Text → List (Bool × RsError)
faults path =
    (
      any (λ c. c == 0) path || contains_str (lit "%00") path,
      path_unsafe (lit "path contains a null byte"),
    )
    ∷ (any (λ c. c == 92) path, path_unsafe (lit "path contains a backslash"))
    ∷ (any is_control path, path_unsafe (lit "path contains control characters"))
    ∷ (any is_dots (split b'/' path), path_unsafe (lit "path contains a traversal segment"))
    ∷ (any is_drive (split b'/' path), path_unsafe (lit "path contains a drive letter"))
    ∷ []

unfoldable pub check_candidate : Text → Result (Unit {0})
check_candidate path = first_fault (faults path)

unfoldable pub validate_path : (Text → Text) → Text → Result (Unit {0})
validate_path decode path = do check_candidate path; check_candidate (decode path)

pub record Mount : Type 0 where
  pub base_path : Text
  pub service : Text
  pub config : Value

-- One leading slash and none behind; the root mount is the empty text.
abbrev pub rooted : Text → Text
rooted path = if text_eq path (lit "/") then [] else path

unfoldable pub normalize_base_path : Text → Text
normalize_base_path path = rooted (lit "/" ++ trim_matches b'/' path)

abbrev pub normalized : Mount → Mount
normalized m = record m { base_path = normalize_base_path m.base_path }

-- `mounts.sort_by(|a, b| b.len().cmp(&a.len()))`: the longest path first.
abbrev pub longer_first : Mount → Mount → Bool
longer_first a b = leb (byte_len b.base_path) (byte_len a.base_path)

-- The first mount whose path an earlier one has.
unfoldable pub find_duplicate : List Text → List Mount → Option Text
find_duplicate seen [] = none
find_duplicate seen (m ∷ ms) =
    let rest = find_duplicate (m.base_path ∷ seen) ms in
    if contains seen m.base_path then some m.base_path else rest

abbrev pub shown : Text → Text
shown [] = lit "/"
shown (c ∷ s) = c ∷ s

abbrev pub table_of : List Mount → Option Text → Result (List Mount)
table_of ms (some path) =
    err (bad_request (lit "duplicate mount path '" ++ (shown path ++ lit "'")))
table_of ms none = ok (sort_by longer_first ms)

-- `MountTable::new`; a table is its sorted list.
unfoldable pub new : List Mount → Result (List Mount)
new mounts = let ms = map normalized mounts in table_of ms (find_duplicate [] ms)

-- A mount matches its own path and what lies below it.
unfoldable pub matches : Text → Mount → Bool
matches path m =
    is_empty m.base_path || (text_eq path m.base_path || starts_with (m.base_path ++ lit "/") path)

unfoldable pub route : List Mount → Text → Option Mount
route table path = find (matches path) table
