-- ===== src/Crypto.antt =====
-- The hex codec of rs2-core/src/crypto.rs. A text is a list of code points; the slices of two bytes
-- that `from_hex` takes stand on its UTF-8 form, where a slice that cuts a character panics.
pub mod Laws
mod Tests
use rs2_runtime.Common.{
  ℕ, suc, ◌+◌, ◌-◌, ◌*◌, ◌/◌, ◌%◌, Bool, true, false, ◌||◌, ◌&&◌, Option, none, some, List, [], ◌∷◌,
  ltb, leb, ◌==◌, if◌then◌else◌,
}
use rs2_runtime.Common.Text.{Text, len_utf8, byte_len, trim, is_empty}
use rs2_runtime.Message.{Bytes}

-- A call that returns a value or panics.
pub data Outcome {ℓ} (A : Type ℓ) : Type ℓ where
  panic : Outcome A
  returned : A → Outcome A

-- `HEX[i]`.
abbrev pub hex_char : ℕ → ℕ
hex_char i = if ltb i 10 then b'0' + i else b'a' + (i - 10)

unfoldable pub to_hex : Bytes → Text
to_hex [] = []
to_hex (b ∷ bs) = hex_char (b / 16) ∷ hex_char (b % 16) ∷ to_hex bs

-- `char::to_digit(16)`.
unfoldable pub digit : ℕ → Option ℕ
digit c =
    if leb b'0' c && leb c b'9'
    then some (c - b'0')
    else if leb b'a' c && leb c b'f'
    then some (c - b'a' + 10)
    else if leb b'A' c && leb c b'F'
    then some (c - b'A' + 10)
    else none

abbrev pub two_digits : Option ℕ → Option ℕ → Option ℕ
two_digits (some hi) (some lo) = some (16 * hi + lo)
two_digits _ _ = none

-- `u8::from_str_radix` of two ASCII characters, which takes a sign of plus.
unfoldable pub from_str_radix : ℕ → ℕ → Option ℕ
from_str_radix a b = if a == b'+' then digit b else two_digits (digit a) (digit b)

abbrev pub push : Option ℕ → Outcome (Option Bytes) → Outcome (Option Bytes)
push none rest = returned none
push (some b) panic = panic
push (some b) (returned none) = returned none
push (some b) (returned (some bs)) = returned (some (b ∷ bs))

-- The slices of two bytes, up to the first that is no byte: a character of two bytes is a slice, one
-- of three or four is cut, and one of more than a byte after one of a byte is cut.
unfoldable pub pairs : Text → Outcome (Option Bytes)
unfolding len_utf8 from_str_radix
pairs [] = returned (some [])
pairs (a ∷ []) = if len_utf8 a == 2 then returned none else panic
pairs (a ∷ b ∷ s) =
    let rest = pairs s in
    if len_utf8 a == 1
    then (if len_utf8 b == 1 then push (from_str_radix a b) rest else panic)
    else if len_utf8 a == 2
    then returned none
    else panic

unfoldable pub from_hex : Text → Outcome (Option Bytes)
unfolding pairs
from_hex text =
    let s = trim text in
    let decoded = pairs s in if is_empty s || byte_len s % 2 == 1 then returned none else decoded
