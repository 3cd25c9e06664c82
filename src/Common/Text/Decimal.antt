-- ===== src/Common/Text/Decimal.antt =====
-- The decimal form of a number, as `Display` prints it.
use rs2_runtime.Common.{ℕ, zero, suc, ◌+◌, ◌/◌, ◌%◌, [], ◌∷◌, ◌++◌, ltb, if◌then◌else◌}
use rs2_runtime.Common.Text.{Text}

-- The digits of a u64 or usize, which has at most twenty.
abbrev pub digits : ℕ → ℕ → Text
digits zero n = []
digits (suc fuel) n =
    let more = digits fuel (n / 10) in
    if ltb n 10 then (b'0' + n) ∷ [] else more ++ (b'0' + n % 10) ∷ []

abbrev pub decimal : ℕ → Text
decimal n = digits 20 n
