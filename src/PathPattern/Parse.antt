-- ===== src/PathPattern/Parse.antt =====
-- The placeholders of a pattern and how their interior is read.
use mathlib.Core.Option
use rs2_runtime.Common.{
  ℕ, zero, suc, ◌+◌, ◌-◌, ◌*◌, ◌^◌, Bool, true, false, Option, none, some, [], ◌∷◌, ◌++◌, reverse,
  length, drop, any, ◌==◌, ltb, ◌||◌, ◌&&◌, if◌then◌else◌, all, not,
}
use rs2_runtime.Common.Text.{
  Text, lit, text_eq, is_empty, starts_with, strip_prefix, strip_suffix, split_once, trim,
  trim_start, is_ascii_digit,
}
use rs2_runtime.Common.Fallible.{Fallible, failed, passed, ◌>>=◌, ℤ, pos, negsuc}

pub data Section : Type 0 where
  path base full : Section

pub data Index : Type 0 where
  at : ℤ → Index
  slice : Option ℤ → Option ℤ → Index

pub data UrlSel : Type 0 where
  segments : Section → Option Index → UrlSel
  name rest query_all : UrlSel
  query_key : Text → UrlSel

pub data Expr : Type 0 where
  literal : Text → Expr
  url : UrlSel → Expr
  data_path : Text → Expr

pub record ParsedToken : Type 0 where
  pub primary : Expr
  pub optional : Bool
  pub default : Option Expr

-- What is before and after the first occurrence of a pattern, which is not empty.
abbrev pub on_left : ℕ → Text × Text → Text × Text
on_left c (a, b) = (c ∷ a, b)

unfoldable pub split_str : Text → Text → Option (Text × Text)
unfolding starts_with
split_str pat [] = none
split_str pat (c ∷ s) =
    let later = split_str pat s in
    if starts_with pat (c ∷ s)
    then some ([], drop (length pat) (c ∷ s))
    else Option.map (on_left c) later

-- `trim_end`.
abbrev pub trim_end : Text → Text
trim_end s = reverse (trim_start (reverse s))

-- The digits of an integer, with the value of what is read.
abbrev pub value_of : ℕ → Text → ℕ
value_of n [] = n
value_of n (c ∷ s) = value_of (n * 10 + (c - b'0')) s

abbrev pub digits_of : Text → Option ℕ
unfolding is_ascii_digit
digits_of s = if not (is_empty s) && all is_ascii_digit s then some (value_of 0 s) else none

abbrev pub positive : Option ℕ → Option ℤ
positive none = none
positive (some n) = if ltb n (2 ^ 63) then some (pos n) else none

abbrev pub negative : Option ℕ → Option ℤ
negative (some (suc n)) = if ltb n (2 ^ 63) then some (negsuc n) else none
negative (some zero) = some (pos 0)
negative none = none

-- `parse::<i64>()`.
unfoldable pub parse_i64 : Text → Option ℤ
parse_i64 (c ∷ s) =
    if c == b'-'
    then negative (digits_of s)
    else if c == b'+'
    then positive (digits_of s)
    else positive (digits_of (c ∷ s))
parse_i64 [] = none

abbrev pub quoted : Text → Text → Text
quoted s t = lit "'" ++ (s ++ (lit "'" ++ t))

abbrev pub or_else {ℓ} : {A : Type ℓ} → Option A → Text → Fallible A
or_else none e = failed e
or_else (some a) e = passed a

unfoldable pub parse_int : Text → Fallible ℤ
unfolding parse_i64
parse_int s = or_else (parse_i64 (trim s)) (quoted s (lit " is not an integer index"))

unfoldable pub parse_opt_int : Text → Fallible (Option ℤ)
unfolding parse_int trim
parse_opt_int s =
    let t = trim s in if is_empty t then passed none else parse_int t >>= λ i. passed (some i)

abbrev pub index_of : Text → Option (Text × Text) → Fallible Index
index_of inner none = parse_int inner >>= λ i. passed (at i)
index_of inner (some (a, b)) =
    parse_opt_int a >>= λ from. parse_opt_int b >>= λ to. passed (slice from to)

abbrev pub bracketed : Text → Option Text
unfolding strip_prefix strip_suffix
bracketed tail = elim (strip_prefix (lit "[") tail) [
  | none ↦ none
  | some r ↦ strip_suffix (lit "]") r
]

unfoldable pub parse_index : Text → Fallible Index
unfolding split_once parse_int parse_opt_int
parse_index tail =
    or_else (bracketed tail)
      (lit "malformed index '" ++ (tail ++ lit "' (expected [n], [-1], or [a:b])"))
    >>= λ inner. index_of inner (split_once b':' inner)

unfoldable pub require_empty : Text → Text → Fallible (Unit {0})
require_empty tail what =
    if is_empty tail then passed tt else failed (what ++ lit " takes no index or key")

abbrev pub is_delimiter : ℕ → Bool
is_delimiter c = (c == b'.') || (c == b'[')

-- The section, up to the first `.` or `[`, and the rest.
abbrev pub split_head : Text → Text × Text
split_head [] = ([], [])
split_head (c ∷ s) =
    let (head, tail) = split_head s in if is_delimiter c then ([], c ∷ s) else (c ∷ head, tail)

abbrev pub section_of : Text → Option Section
unfolding text_eq
section_of s =
    if text_eq s (lit "path")
    then some path
    else if text_eq s (lit "base")
    then some base
    else if text_eq s (lit "full")
    then some full
    else none

abbrev pub query_sel : Text → Text → Option Text → Fallible UrlSel
query_sel s [] key = passed query_all
query_sel s (c ∷ tail) none = failed (quoted s (lit ": query takes a .<key>, not an index"))
query_sel s (c ∷ tail) (some key) =
    if is_empty key || any is_delimiter key
    then failed (quoted s (lit ": expected url.query.<key>"))
    else passed (query_key key)

abbrev pub opt_index : Text → Fallible (Option Index)
opt_index tail = if is_empty tail then passed none else parse_index tail >>= λ i. passed (some i)

abbrev pub segments_sel : Text → Text → Text → Option Section → Fallible UrlSel
segments_sel s section tail none =
    failed (quoted s (lit ": unknown url section '" ++ (section ++ lit "'")))
segments_sel s section tail (some sec) = opt_index tail >>= λ index. passed (segments sec index)

abbrev pub section_sel : Text → Text × Text → Fallible UrlSel
section_sel s (section, tail) =
    if text_eq section (lit "name")
    then (require_empty tail (lit "url.name") >>= λ u. passed name)
    else if text_eq section (lit "rest")
    then (require_empty tail (lit "url.rest") >>= λ u. passed rest)
    else if text_eq section (lit "query")
    then query_sel s tail (strip_prefix (lit ".") tail)
    else segments_sel s section tail (section_of section)

unfoldable pub parse_url_sel : Text → Fallible UrlSel
unfolding strip_prefix text_eq require_empty parse_index
parse_url_sel s =
    or_else (strip_prefix (lit "url.") s)
      (quoted s (lit ": use url.path / url.base / url.full / url.name / url.query"))
    >>= λ after. section_sel s (split_head after)

abbrev pub unquoted : Text → Option Text
unquoted s = elim (strip_prefix (lit "'") s) [ none ↦ none | some r ↦ strip_suffix (lit "'") r ]

abbrev pub unquoted_expr : Text → Option Text → Fallible Expr
unquoted_expr s (some inner) = passed (literal inner)
unquoted_expr s none =
    if text_eq s (lit "url") || starts_with (lit "url.") s
    then (parse_url_sel s >>= λ sel. passed (url sel))
    else passed (data_path s)

unfoldable pub parse_expr : Text → Fallible Expr
unfolding parse_url_sel
parse_expr s = if is_empty s then failed (lit "empty placeholder") else unquoted_expr s (unquoted s)

abbrev pub sources : Text → Option (Text × Text) → Text × Option Text
sources interior none = (trim interior, none)
sources interior (some (before, after)) = (trim before, some (trim after))

abbrev pub marked : Text → Option Text → Text × Bool
marked s none = (s, false)
marked s (some t) = (trim_end t, true)

abbrev pub parse_default : Option Text → Fallible (Option Expr)
parse_default none = passed none
parse_default (some s) = parse_expr s >>= λ e. passed (some e)

abbrev pub token_of : Option Text → Text × Bool → Fallible ParsedToken
token_of default (primary, optional) = parse_expr primary >>= λ p.
    parse_default default >>= λ d. passed (record { primary = p; optional = optional; default = d })

abbrev pub token_from : Text × Option Text → Fallible ParsedToken
token_from (primary, default) = token_of default (marked primary (strip_suffix (lit "?") primary))

unfoldable pub parse_token : Text → Fallible ParsedToken
unfolding split_str parse_expr
parse_token interior = token_from (sources interior (split_str (lit "||") interior))
