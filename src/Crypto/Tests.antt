-- ===== src/Crypto/Tests.antt =====
-- The hex codec on a few texts, and the theorems at them.
use rs2_runtime.Common.{◌≡◌, refl, some, [], ◌∷◌, arith}
use rs2_runtime.Common.Text.{lit, texts}
use rs2_runtime.Crypto.{panic, returned, to_hex, digit, from_str_radix, pairs, from_hex}
use rs2_runtime.Crypto.Laws.{from_hex-to_hex}

encodes : to_hex (0 ∷ 15 ∷ 255 ∷ []) ≡ lit "000fff"
unfolding to_hex
encodes = refl

-- A sign is taken for a digit.
signed : from_hex (lit " +f0A\n") ≡ returned (some (15 ∷ 10 ∷ []))
unfolding texts digit from_str_radix pairs from_hex
signed = refl

-- A slice that cuts a character of two bytes.
cut : from_hex (lit "0é0") ≡ panic
unfolding texts digit from_str_radix pairs from_hex
cut = refl

from_hex-to_hex_example : from_hex (to_hex (0 ∷ 171 ∷ [])) ≡ returned (some (0 ∷ 171 ∷ []))
from_hex-to_hex_example =
    from_hex-to_hex (0 ∷ 171 ∷ []) (omega arith) (omega arith, (omega arith, tt))
