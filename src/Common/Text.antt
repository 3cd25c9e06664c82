-- ===== src/Common/Text.antt =====
-- Rust's `str`: a text is the list of its code points. Comparison, prefixes and the searches for a
-- character give the same answer on code points as on the UTF-8 bytes; `len` counts bytes.
pub mod Trim
pub mod Pieces
pub mod Decimal
pub mod Order
pub mod Ordered
use Prim.Native.Nat.{ℕ, zero, suc, ◌+◌, ◌-◌}
use Prim.Native.Char.{code}
use Prim.Native.String.{String}
use mathlib.Core.Path.{◌≡◌, refl, sym, ◌∙◌}
use mathlib.Core.Logic.{◌↔◌, ◌≢◌}
use mathlib.Core.Bool.{Bool, true, false, ◌&&◌, ◌||◌, false≢true}
use mathlib.Core.List.{List, [], ◌∷◌, ◌++◌, reverse, map}
use mathlib.Core.Option
use mathlib.Core.Option.{Option, none, some}
use native.Mathlib.Omega.{arith}
use rs2_runtime.Common.Tests.{ltb, leb, ◌==◌, if◌then◌else◌, not}
use rs2_runtime.Common.Lists.{keep, any, length}

abbrev pub Text : Type 0
Text = List ℕ

-- A literal.
abbrev pub lit : String → Text
lit String.[] = []
lit (String.◌∷◌ c s) = code c ∷ lit s

unfoldable pub text_eq : Text → Text → Bool
text_eq [] [] = true
text_eq (a ∷ s) (b ∷ t) = (a == b) && text_eq s t
text_eq _ _ = false

pub text_eq_iff : (s t : Text) → (text_eq s t ≡ true) ↔ (s ≡ t)
unfolding text_eq
text_eq_iff [] [] = ground arith
text_eq_iff [] (b ∷ t) = ground arith
text_eq_iff (a ∷ s) [] = ground arith
text_eq_iff (a ∷ s) (b ∷ t) = ground (arith, text_eq_iff s t)

pub text_eq_refl : (s : Text) → text_eq s s ≡ true
text_eq_refl s = (text_eq_iff s s).1 refl

pub text_ne : (s t : Text) → text_eq s t ≡ false → s ≢ t
text_ne s t h e = false≢true (sym h ∙ (text_eq_iff s t).1 e)

-- `slice.contains(&text)`.
abbrev pub contains : List Text → Text → Bool
contains xs t = any (λ x. text_eq x t) xs

-- `str::strip_prefix` and `str::starts_with`.
unfoldable pub strip_prefix : Text → Text → Option Text
strip_prefix [] s = some s
strip_prefix (a ∷ p) [] = none
strip_prefix (a ∷ p) (b ∷ s) = let rest = strip_prefix p s in if a == b then rest else none

unfoldable pub starts_with : Text → Text → Bool
starts_with [] s = true
starts_with (a ∷ p) [] = false
starts_with (a ∷ p) (b ∷ s) = (a == b) && starts_with p s

pub starts_with-eq-true : (p s : Text) → starts_with p s ≡ true → (r : Text) × (s ≡ p ++ r)
unfolding starts_with
starts_with-eq-true [] s h = (s, refl)
starts_with-eq-true (a ∷ p) [] h = absurd (ground arith)
starts_with-eq-true (a ∷ p) (b ∷ s) h =
    let (r, e) = starts_with-eq-true p s (ground arith) in (r, ground arith)

pub starts_with-append : (p r : Text) → starts_with p (p ++ r) ≡ true
unfolding starts_with
starts_with-append [] r = refl
starts_with-append (a ∷ p) r = ground (arith, starts_with-append p r)

unfoldable pub ends_with : Text → Text → Bool
unfolding starts_with
ends_with p s = starts_with (reverse p) (reverse s)

unfoldable pub strip_suffix : Text → Text → Option Text
unfolding strip_prefix
strip_suffix p s = Option.map reverse (strip_prefix (reverse p) (reverse s))

-- `str::split(c)`: the pieces between the separators, one at least.
abbrev pub on_first : ℕ → List Text → List Text
on_first c [] = (c ∷ []) ∷ []
on_first c (w ∷ ws) = (c ∷ w) ∷ ws

unfoldable pub split : ℕ → Text → List Text
split sep [] = [] ∷ []
split sep (c ∷ s) = let rest = split sep s in if c == sep then [] ∷ rest else on_first c rest

-- `str::split_once(c)`.
abbrev on_left : ℕ → Text × Text → Text × Text
on_left c (a, b) = (c ∷ a, b)

unfoldable pub split_once : ℕ → Text → Option (Text × Text)
split_once sep [] = none
split_once sep (c ∷ s) =
    let rest = split_once sep s in if c == sep then some ([], s) else Option.map (on_left c) rest

-- `trim_start_matches`, `trim_end_matches` and `trim_matches` of one character.
unfoldable pub trim_start_matches : ℕ → Text → Text
trim_start_matches sep [] = []
trim_start_matches sep (c ∷ s) =
    let rest = trim_start_matches sep s in if c == sep then rest else c ∷ s

unfoldable pub trim_end_matches : ℕ → Text → Text
unfolding trim_start_matches
trim_end_matches sep s = reverse (trim_start_matches sep (reverse s))

unfoldable pub trim_matches : ℕ → Text → Text
unfolding trim_start_matches trim_end_matches
trim_matches sep s = trim_end_matches sep (trim_start_matches sep s)

abbrev pub is_empty {ℓ} : {A : Type ℓ} → List A → Bool
is_empty [] = true
is_empty (c ∷ s) = false

-- `char::is_whitespace` (White_Space), `char::is_control` (Cc).
unfoldable pub is_whitespace : ℕ → Bool
is_whitespace c =
    (leb 9 c && leb c 13)
    || c == 32
    || c == 0x85
    || c == 0xA0
    || c == 0x1680
    || (leb 0x2000 c && leb c 0x200A)
    || c == 0x2028
    || c == 0x2029
    || c == 0x202F
    || c == 0x205F
    || c == 0x3000

unfoldable pub is_control : ℕ → Bool
is_control c = ltb c 32 || (leb 127 c && leb c 159)

unfoldable pub is_ascii_alphabetic : ℕ → Bool
is_ascii_alphabetic c = (leb b'a' c && leb c b'z') || (leb b'A' c && leb c b'Z')

unfoldable pub is_ascii_digit : ℕ → Bool
is_ascii_digit c = leb b'0' c && leb c b'9'

-- `str::split_whitespace`: the maximal runs of other characters.
abbrev close : Text → List Text → List Text
close [] ws = ws
close (c ∷ w) ws = (c ∷ w) ∷ ws

words_from : Text → List Text
words_from [] = [] ∷ []
words_from (c ∷ s) =
    let rest = words_from s in if is_whitespace c then [] ∷ rest else on_first c rest

unfoldable pub split_whitespace : Text → List Text
unfolding words_from is_whitespace
split_whitespace s = keep (λ w. not (is_empty w)) (words_from s)

-- `str::trim`.
unfoldable pub trim_start : Text → Text
trim_start [] = []
trim_start (c ∷ s) = let rest = trim_start s in if is_whitespace c then rest else c ∷ s

unfoldable pub trim : Text → Text
unfolding trim_start is_whitespace
trim s = reverse (trim_start (reverse (trim_start s)))

unfoldable pub to_ascii_lowercase : Text → Text
to_ascii_lowercase = map (λ c. if leb b'A' c && leb c b'Z' then c + 32 else c)

unfoldable pub eq_ignore_ascii_case : Text → Text → Bool
unfolding to_ascii_lowercase text_eq
eq_ignore_ascii_case s t = text_eq (to_ascii_lowercase s) (to_ascii_lowercase t)

-- `char::len_utf8` and `str::len`.
unfoldable pub len_utf8 : ℕ → ℕ
len_utf8 c = if ltb c 0x80 then 1 else if ltb c 0x800 then 2 else if ltb c 0x10000 then 3 else 4

unfoldable pub byte_len : Text → ℕ
unfolding len_utf8
byte_len [] = 0
byte_len (c ∷ s) = len_utf8 c + byte_len s

-- `str::replace` of a pattern that is not empty; the count is what is left of the match before.
replace_from : Text → Text → ℕ → Text → Text
replace_from pat to k [] = []
replace_from pat to (suc k) (c ∷ s) = replace_from pat to k s
replace_from pat to zero (c ∷ s) =
    let hit = to ++ replace_from pat to (length pat - 1) s in
    let miss = c ∷ replace_from pat to 0 s in if starts_with pat (c ∷ s) then hit else miss

unfoldable pub replace : Text → Text → Text → Text
unfolding replace_from starts_with
replace s pat to = replace_from pat to 0 s

-- `str::contains` of a text.
unfoldable pub contains_str : Text → Text → Bool
unfolding starts_with
contains_str pat [] = starts_with pat []
contains_str pat (c ∷ s) = starts_with pat (c ∷ s) || contains_str pat s

-- `slice.join(sep)`.
unfoldable pub join : Text → List Text → Text
join sep [] = []
join sep (w ∷ []) = w
join sep (w ∷ v ∷ ws) = w ++ (sep ++ join sep (v ∷ ws))

-- A name to unfold all of these by, in a run at a concrete text.
unfoldable pub texts : Unit {0}
unfolding text_eq strip_prefix starts_with ends_with strip_suffix split split_once
    trim_start_matches trim_end_matches trim_matches is_whitespace is_control is_ascii_alphabetic
    is_ascii_digit split_whitespace trim to_ascii_lowercase eq_ignore_ascii_case len_utf8 byte_len
    replace contains_str join
texts = tt
