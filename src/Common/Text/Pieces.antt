-- ===== src/Common/Text/Pieces.antt =====
-- Prefixes of texts, and the pieces of a split.
use rs2_runtime.Common.Lists.{All, any}
use rs2_runtime.Common.Tests.{◌==◌}
use mathlib.Core.Bool.{false}
use mathlib.Core.Logic.{◌≢◌}
use rs2_runtime.Common.Text.{Text, byte_len, len_utf8, split}
use Prim.Native.Nat.{ℕ, ◌+◌, ◌<◌}
use mathlib.Core.Path.{◌≡◌, refl, ap}
use mathlib.Core.List.{[], ◌∷◌, ◌++◌}
use native.Mathlib.Omega.{arith}

-- Two prefixes of one text, the first no longer than the second.
byte_len-pos : (c : ℕ) (s : Text) → 0 < byte_len (c ∷ s)
unfolding byte_len
byte_len-pos c s = ground arith

pub byte_len-append : (s t : Text) → byte_len (s ++ t) ≡ byte_len s + byte_len t
unfolding byte_len
byte_len-append [] t = omega arith
byte_len-append (c ∷ s) t = omega (arith, byte_len-append s t)

-- Prefixes of one text that have the same number of bytes are equal.
pub prefix_unique : (p q r s : Text) → p ++ r ≡ q ++ s → byte_len p ≡ byte_len q → p ≡ q
unfolding byte_len
prefix_unique [] [] r s e l = refl
prefix_unique [] (b ∷ q) r s e l = absurd (omega (arith, byte_len-pos b q))
prefix_unique (a ∷ p) [] r s e l = absurd (omega (arith, byte_len-pos a p))
prefix_unique (a ∷ p) (b ∷ q) r s e l =
    let same : a ≡ b = cc in
    let rest : p ++ r ≡ q ++ s = cc in
    let lens : byte_len p ≡ byte_len q = ground (arith, ap len_utf8 same) in
    cc (same, prefix_unique p q r s rest lens)

-- A text without the separator is one piece, and one before the separator is the first piece.
pub split_one : (sep : ℕ) (s : Text) → All (λ c. c ≢ sep) s → split sep s ≡ s ∷ []
unfolding split
split_one sep [] h = refl
split_one sep (c ∷ s) (h, hs) =
    let miss : (c == sep) ≡ false = ground (arith, h) in rw (miss, split_one sep s hs) refl

pub split_first :
    (sep : ℕ) (s t : Text) → All (λ c. c ≢ sep) s → split sep (s ++ sep ∷ t) ≡ s ∷ split sep t
unfolding split
split_first sep [] t h = ground arith
split_first sep (c ∷ s) t (h, hs) =
    let miss : (c == sep) ≡ false = ground (arith, h) in rw (miss, split_first sep s t hs) refl

-- A text without a character, by a run.
pub without : (sep : ℕ) (s : Text) → any (λ c. c == sep) s ≡ false → All (λ c. c ≢ sep) s
without sep [] h = tt
without sep (c ∷ s) h = (ground arith, without sep s (ground arith))
