-- ===== src/Crypto/Laws.antt =====
-- The hex codec: what is encoded is decoded, and which texts make the decoder panic.
use rs2_runtime.Common.{
  ℕ, ◌*◌, ◌/◌, ◌%◌, ◌≤◌, ◌<◌, ◌≡◌, ◌≢◌, refl, ◌⊎◌, inl, inr, false, Option, none, some, [], ◌∷◌,
  ◌==◌, length, All, arith, Bool-cases,
}
use rs2_runtime.Common.Text.{Text, len_utf8, byte_len, trim, is_empty, is_whitespace}
use rs2_runtime.Common.Text.Trim.{trim-All, All-trim}
use rs2_runtime.Message.{Bytes}
use rs2_runtime.Crypto.{
  Outcome, panic, returned, hex_char, to_hex, digit, from_str_radix, push, pairs, from_hex,
}

digit-hex_char : (i : ℕ) → i < 16 → digit (hex_char i) ≡ some i
unfolding digit
digit-hex_char i h = ground arith

hex_char-ascii : (i : ℕ) → i < 16 → (hex_char i < 128) × (48 ≤ hex_char i)
hex_char-ascii i h = ground arith

len-hex_char : (i : ℕ) → i < 16 → len_utf8 (hex_char i) ≡ 1
unfolding len_utf8
len-hex_char i h = ground arith

space-hex_char : (i : ℕ) → i < 16 → is_whitespace (hex_char i) ≡ false
unfolding is_whitespace
space-hex_char i h = ground arith

radix-hex : (b : ℕ) → b < 256 → from_str_radix (hex_char (b / 16)) (hex_char (b % 16)) ≡ some b
unfolding from_str_radix
radix-hex b h =
    let hi = digit-hex_char (b / 16) (omega arith) in
    let lo = digit-hex_char (b % 16) (omega arith) in
    let sign : hex_char (b / 16) ≢ b'+' =
      λ e. absurd (omega (arith, (hex_char-ascii (b / 16) (omega arith)).1, e)) in
    ground (arith, hi, lo, sign)

pairs-to_hex : (bs : Bytes) → All (λ b. b < 256) bs → pairs (to_hex bs) ≡ returned (some bs)
unfolding pairs to_hex
pairs-to_hex [] h = refl
pairs-to_hex (b ∷ bs) (h, hs) =
    rw
      (
        len-hex_char (b / 16) (omega arith),
        len-hex_char (b % 16) (omega arith),
        radix-hex b h,
        pairs-to_hex bs hs,
      )
      refl

byte_len-to_hex : (bs : Bytes) → All (λ b. b < 256) bs → byte_len (to_hex bs) ≡ 2 * length bs
unfolding to_hex byte_len len_utf8
byte_len-to_hex [] h = refl
byte_len-to_hex (b ∷ bs) (h, hs) =
    rw (len-hex_char (b / 16) (omega arith), len-hex_char (b % 16) (omega arith))
      (omega (arith, byte_len-to_hex bs hs))

space-to_hex : (bs : Bytes) → All (λ b. b < 256) bs → All (λ c. is_whitespace c ≡ false) (to_hex bs)
unfolding to_hex
space-to_hex [] h = tt
space-to_hex (b ∷ bs) (h, hs) = (
  space-hex_char (b / 16) (omega arith),
  (space-hex_char (b % 16) (omega arith), space-to_hex bs hs),
)

is_empty-to_hex : (bs : Bytes) → 0 < length bs → is_empty (to_hex bs) ≡ false
unfolding to_hex
is_empty-to_hex [] h = absurd (omega arith)
is_empty-to_hex (b ∷ bs) h = refl

-- Bytes, one at least, are decoded from their encoding.
pub from_hex-to_hex :
    (bs : Bytes) → 0 < length bs → All (λ b. b < 256) bs → from_hex (to_hex bs) ≡ returned (some bs)
unfolding from_hex
from_hex-to_hex bs some_bytes h =
    let even : byte_len (to_hex bs) % 2 ≡ 0 = omega (arith, byte_len-to_hex bs h) in
    rw
      (
        trim-All (to_hex bs) (space-to_hex bs h),
        is_empty-to_hex bs some_bytes,
        even,
        pairs-to_hex bs h,
      )
      refl

push-returned :
    (o : Option ℕ) (r : Outcome (Option Bytes))
    → ((v : Option Bytes) × (r ≡ returned v))
    → (v : Option Bytes) × (push o r ≡ returned v)
push-returned none r h = (none, refl)
push-returned (some b) panic (v, h) = absurd (ground arith)
push-returned (some b) (returned none) h = (none, refl)
push-returned (some b) (returned (some bs)) h = (some (b ∷ bs), refl)

len-ascii : (c : ℕ) → c < 128 → len_utf8 c ≡ 1
unfolding len_utf8
len-ascii c h = ground arith

pairs-ascii :
    (s : Text)
    → All (λ c. c < 128) s
    → byte_len s % 2 ≡ 0
    → (v : Option Bytes) × (pairs s ≡ returned v)
unfolding pairs byte_len
pairs-ascii [] h even = (some [], refl)
pairs-ascii (a ∷ []) (h, hs) even = absurd (omega (arith, len-ascii a h))
pairs-ascii (a ∷ b ∷ s) (h, (k, hs)) even =
    let rest = pairs-ascii s hs (omega (arith, even, len-ascii a h, len-ascii b k)) in
    rw (len-ascii a h, len-ascii b k) (push-returned (from_str_radix a b) (pairs s) rest)

even-or_odd : (n : ℕ) → (n % 2 ≡ 0) ⊎ (n % 2 ≡ 1)
even-or_odd n = elim (Bool-cases (n % 2 == 0)) [
  | inl even ↦ inl (ground arith)
  | inr odd ↦ inr (ground arith)
]

-- The decoder of an ASCII text returns.
pub from_hex_ascii :
    (text : Text) → All (λ c. c < 128) text → (v : Option Bytes) × (from_hex text ≡ returned v)
unfolding from_hex
from_hex_ascii text h = elim (even-or_odd (byte_len (trim text))) [
  | inr odd ↦ (none, rw odd (ground arith))
  | inl even ↦
      let (v, e) = pairs-ascii (trim text) (All-trim (λ c. c < 128) text h) even in
      elim (Bool-cases (is_empty (trim text))) [
        | inl nothing ↦ (none, rw nothing refl)
        | inr text_left ↦ (v, rw (text_left, even) e)
      ]
]
