-- ===== src/PathPattern/Select.antt =====
-- What a selector or a dot-path of a pattern gives.
pub mod Bounds
use rs2_runtime.Common.{
  ℕ, suc, ◌+◌, ◌-◌, min, Bool, true, false, Option, none, some, List, [], ◌∷◌, ◌++◌, map, take,
  drop, length, keep, get_elem?, ltb, leb, ◌==◌, not, if◌then◌else◌,
}
use rs2_runtime.Common.Text.{Text, lit, text_eq, is_empty, split, split_once, join}
use rs2_runtime.Common.Fallible.{ℤ, pos, negsuc}
use rs2_runtime.Json.{Value, null, string, object, Fields, lookup}
use rs2_runtime.PathPattern.Parse.{
  Section, path, base, full, Index, at, slice, UrlSel, segments, name, rest, query_all, query_key,
}

pub record UrlView : Type 0 where
  pub path_segments : List Text
  pub base_segments : List Text
  pub view_name : Option Text
  pub query : Text
  pub remainder : Text

-- `len + i` for a negative `i`.
abbrev pub from_end : ℕ → ℤ → ℤ
from_end len (pos n) = pos n
from_end len (negsuc k) = if leb (suc k) len then pos (len - suc k) else negsuc (k - len)

abbrev pub in_range : ℕ → ℤ → Option ℕ
in_range len (negsuc k) = none
in_range len (pos n) = if ltb n len then some n else none

unfoldable pub norm_index : ℤ → ℕ → Option ℕ
norm_index i len = in_range len (from_end len i)

abbrev pub clamp : ℕ → ℤ → ℕ
clamp len (negsuc k) = 0
clamp len (pos n) = min n len

unfoldable pub norm_bound : ℤ → ℕ → ℕ
norm_bound x len = clamp len (from_end len x)

abbrev pub or_int : Option ℤ → ℤ → ℤ
or_int none d = d
or_int (some i) d = i

unfoldable pub join_nonempty : List Text → Option Text
join_nonempty segs = if is_empty segs then none else some (join (lit "/") segs)

-- `&segs[start..end]`, or nothing when it is empty.
abbrev pub range : List Text → ℕ → ℕ → List Text
range segs start end = if leb end start then [] else take (end - start) (drop start segs)

-- The segments of a slice.
unfoldable pub slice_of : List Text → Option ℤ → Option ℤ → List Text
unfolding norm_bound
slice_of segs a b =
    let len = length segs in
    let start = norm_bound (or_int a (pos 0)) len in
    let end = norm_bound (or_int b (pos len)) len in range segs start end

abbrev pub element : List Text → Option ℕ → Option Text
element segs none = none
element segs (some n) = get_elem? segs n

unfoldable pub pick : List Text → Option Index → Option Text
unfolding norm_index slice_of join_nonempty
pick segs none = join_nonempty segs
pick segs (some (at i)) = element segs (norm_index i (length segs))
pick segs (some (slice a b)) = join_nonempty (slice_of segs a b)

abbrev pub section_segments : UrlView → Section → List Text
section_segments view path = view.path_segments
section_segments view base = view.base_segments
section_segments view full = view.base_segments ++ view.path_segments

abbrev pub nonempty : Text → Option Text
nonempty [] = none
nonempty (c ∷ s) = some (c ∷ s)

abbrev pub and_then {ℓ κ} : {A : Type ℓ} {B : Type κ} → Option A → (A → Option B) → Option B
and_then none f = none
and_then (some a) f = f a

abbrev pub pair_or : Text → Option (Text × Text) → Text × Text
pair_or pair none = (pair, [])
pair_or pair (some kv) = kv

module _ (decode : Text → Text) where
  -- The first pair of the key, whose value is percent-decoded, and then each `+` is a space.
  abbrev pub value_for : Text → Text × Text → Option Text
  value_for key (k, v) =
      if text_eq k key then some (map (λ c. if c == b'+' then b' ' else c) (decode v)) else none

  abbrev pub find_pair : Text → List Text → Option Text
  find_pair key [] = none
  find_pair key (pair ∷ pairs) =
      let later = find_pair key pairs in
      elim (value_for key (pair_or pair (split_once b'=' pair))) [ none ↦ later | some v ↦ some v ]

  unfoldable pub query_get : Text → Text → Option Text
  unfolding split split_once text_eq
  query_get query key = find_pair key (keep (λ p. not (is_empty p)) (split b'&' query))

  unfoldable pub eval_url : UrlSel → UrlView → Option Text
  unfolding query_get pick
  eval_url name view = and_then view.view_name nonempty
  eval_url rest view = nonempty view.remainder
  eval_url query_all view = nonempty view.query
  eval_url (query_key key) view = query_get view.query key
  eval_url (segments section index) view = pick (section_segments view section) index

module _ (display : Value → Text) where
  abbrev pub shown : Value → Option Text
  shown null = none
  shown (string s) = some s
  shown v = some (display v)

  abbrev pub walk : List Text → Value → Option Value
  walk [] v = some v
  walk (key ∷ keys) (object o) = and_then (lookup key o) (walk keys)
  walk (key ∷ keys) _ = none

  abbrev pub walk_from : List Text → Fields → Option Value
  walk_from [] scope = lookup [] scope
  walk_from (head ∷ keys) scope = and_then (lookup head scope) (walk keys)

  unfoldable pub eval_data : Text → Fields → Option Text
  unfolding split lookup
  eval_data dotted scope = and_then (walk_from (split b'.' dotted) scope) shown
