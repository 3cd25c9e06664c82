-- ===== src/PathPattern/Resolve/Returns.antt =====
-- The loops over a pattern return.
use rs2_runtime.Common.{
  ℕ, zero, suc, ◌<◌, ◌≤◌, ◌≡◌, ◌≢◌, ap, inl, inr, some, List, [], ◌∷◌, length, drop, ◌==◌,
  Bool-cases, Option-cases, arith,
}
use rs2_runtime.Common.Text.{Text, lit, split_once, starts_with}
use rs2_runtime.Common.Fallible.{Fallible-cases}
use rs2_runtime.PathPattern.Parse.{split_str, parse_token}
use rs2_runtime.PathPattern.Resolve.{out_of_fuel, opening, closing, validate, validate_from}

length-drop-suc :
    {A : Type 0} (n : ℕ) (x : A) (xs : List A) → length (drop (suc n) (x ∷ xs)) ≤ length xs
length-drop-suc zero x xs = omega arith
length-drop-suc (suc n) x [] = omega arith
length-drop-suc (suc n) x (y ∷ xs) = omega (arith, length-drop-suc n y xs)

-- What follows an occurrence is shorter than the text.
split_str-lt :
    (c : ℕ) (pat s a b : Text) → split_str (c ∷ pat) s ≡ some (a, b) → length b < length s
unfolding split_str
split_str-lt c pat [] a b e = absurd (ground arith)
split_str-lt c pat (d ∷ s) a b e = elim (Bool-cases (starts_with (c ∷ pat) (d ∷ s))) [
  | inl hit ↦
      let same : drop (suc (length pat)) (d ∷ s) ≡ b = cc (rw hit at e) in
      omega (arith, ap length same, length-drop-suc (length pat) d s)
  | inr miss ↦ elim (Option-cases (split_str (c ∷ pat) s)) [
    | inl nowhere ↦ absurd (ground arith)
    | inr ((a1, b1), later) ↦
        let same : b1 ≡ b = cc (rw (miss, later) at e) in
        omega (arith, ap length same, split_str-lt c pat s a1 b1 later)
  ]
]

split_once-lt : (c : ℕ) (s a b : Text) → split_once c s ≡ some (a, b) → length b < length s
unfolding split_once
split_once-lt c [] a b e = absurd (ground arith)
split_once-lt c (d ∷ s) a b e = elim (Bool-cases (d == c)) [
  | inl hit ↦ let same : s ≡ b = cc (rw hit at e) in omega (arith, ap length same)
  | inr miss ↦ elim (Option-cases (split_once c s)) [
    | inl nowhere ↦ absurd (ground arith)
    | inr ((a1, b1), later) ↦
        let same : b1 ≡ b = cc (rw (miss, later) at e) in
        omega (arith, ap length same, split_once-lt c s a1 b1 later)
  ]
]

pub opening-lt :
    (text before after : Text) → opening text ≡ some (before, after) → length after < length text
opening-lt text before after e = split_str-lt b'$' (lit "{") text before after e

pub closing-lt :
    (text before after : Text) → closing text ≡ some (before, after) → length after < length text
closing-lt text before after e = split_once-lt b'}' text before after e

module _ (pattern : Text) where
  validate_from-returns :
      (fuel : ℕ) (text : Text) → length text < fuel → validate_from pattern fuel text ≢ out_of_fuel
  unfolding validate_from
  validate_from-returns zero text h = absurd (omega arith)
  validate_from-returns (suc fuel) text h = elim (Option-cases (opening text)) [
    | inl nowhere ↦ rw nowhere (ground arith)
    | inr ((before, after), o) ↦ elim (Option-cases (closing after)) [
      | inl unclosed ↦ rw (o, unclosed) (ground arith)
      | inr ((interior, rest), c) ↦ elim (Fallible-cases (parse_token interior)) [
        | inl (e, f) ↦ rw (o, c, f) (ground arith)
        | inr (parsed, f) ↦
            rw (o, c, f)
              (validate_from-returns fuel rest
                (omega (arith, opening-lt text before after o, closing-lt after interior rest c)))
      ]
    ]
  ]

pub validate-ne-out_of_fuel : (pattern : Text) → validate pattern ≢ out_of_fuel
unfolding validate
validate-ne-out_of_fuel pattern =
    validate_from-returns pattern (suc (length pattern)) pattern (omega arith)
