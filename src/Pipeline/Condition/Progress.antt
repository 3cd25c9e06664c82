-- ===== src/Pipeline/Condition/Progress.antt =====
-- Each reader of a condition takes at least one character, or leaves no more than there was.
use rs2_runtime.Common.{
  ℕ, zero, suc, ◌+◌, ◌<◌, ◌≤◌, ◌≡◌, ap, inl, inr, Bool, some, [], ◌∷◌, length, ◌==◌, Bool-cases,
  arith,
}
use rs2_runtime.Common.Text.{Text, strip_prefix}
use rs2_runtime.Pipeline.Condition.Parser.{
  Parsed, out_of_fuel, rejected, parsed, ◌>>=◌, skip_ws, is_space, eat, span, ident, ident_of,
  is_ident, var_path,
}

module _ {T : Type 0} (P : T → Type 0) where
  -- The reader returns, and what it accepts has the property and leaves less than `n` characters.
  abbrev pub Good : ℕ → Parsed T → Type 0
  Good n out_of_fuel = ⊥
  Good n (rejected e) = Unit
  Good n (parsed v left) = P v × (length left < n)

  pub Good-le : (m n : ℕ) (r : Parsed T) → Good m r → m ≤ n → Good n r
  Good-le m n out_of_fuel g h = g
  Good-le m n (rejected e) g h = tt
  Good-le m n (parsed v left) (p, lt) h = (p, omega arith)

module _ {T U : Type 0} (P : T → Type 0) (Q : U → Type 0) where
  pub Good-bind :
      (m n : ℕ) (r : Parsed T) (next : T → Text → Parsed U)
      → Good P m r
      → ((v : T) (left : Text) → P v → length left < m → Good Q n (next v left))
      → Good Q n (r >>= next)
  Good-bind m n out_of_fuel next g h = absurd g
  Good-bind m n (rejected e) next g h = tt
  Good-bind m n (parsed v left) next (p, lt) h = h v left p lt

abbrev pub Any : {T : Type 0} → T → Type 0
Any v = Unit

pub length-skip_ws : (s : Text) → length (skip_ws s) ≤ length s
length-skip_ws [] = omega arith
length-skip_ws (c ∷ s) = elim (Bool-cases (is_space c)) [
  | inl space ↦ rw space (omega (arith, length-skip_ws s))
  | inr solid ↦ rw solid (omega arith)
]

length-strip_prefix : (p s r : Text) → strip_prefix p s ≡ some r → length r + length p ≤ length s
unfolding strip_prefix
length-strip_prefix [] s r e = let same : s ≡ r = cc in omega (arith, ap length same)
length-strip_prefix (a ∷ p) [] r e = absurd (ground arith)
length-strip_prefix (a ∷ p) (b ∷ s) r e = elim (Bool-cases (a == b)) [
  | inl hit ↦
      let later : strip_prefix p s ≡ some r = rw hit at e in
      omega (arith, length-strip_prefix p s r later)
  | inr miss ↦ absurd (ground arith)
]

pub eat-lt : (c : ℕ) (token s left : Text) → eat (c ∷ token) s ≡ some left → length left < length s
eat-lt c token s left e =
    omega (arith, length-strip_prefix (c ∷ token) (skip_ws s) left e, length-skip_ws s)

pub length-span :
    (p : ℕ → Bool) (s : Text) → length ((span p s).0) + length ((span p s).1) ≡ length s
unfolding span
length-span p [] = omega arith
length-span p (c ∷ s) = elim (Bool-cases (p c)) [
  | inl hit ↦ rw hit (omega (arith, length-span p s))
  | inr miss ↦ rw miss (omega arith)
]

ident_of-Good : (n : ℕ) (r : Text × Text) → length r.0 + length r.1 ≤ n → Good Any n (ident_of r)
ident_of-Good n ([], left) h = tt
ident_of-Good n (c ∷ name, left) h = (tt, omega arith)

pub ident-Good : (s : Text) → Good Any (length s) (ident s)
unfolding ident
ident-Good s = ident_of-Good (length s) (span is_ident s) (omega (arith, length-span is_ident s))

pub var_path-Good :
    (fuel : ℕ) (s : Text) → length s < fuel → Good Any (suc (length s)) (var_path fuel s)
unfolding var_path
var_path-Good zero s h = absurd (omega arith)
var_path-Good (suc fuel) [] h = (tt, omega arith)
var_path-Good (suc fuel) (c ∷ s) h = elim (Bool-cases (c == b'.')) [
  | inl dot ↦ rw dot (
      Good-bind Any Any (length s) (suc (suc (length s))) (ident s) _ (ident-Good s)
        λ key left p lt.
          Good-bind Any Any (suc (length left)) (suc (suc (length s))) (var_path fuel left) _
            (var_path-Good fuel left (omega arith)) λ keys rest q le. (tt, omega arith))
  | inr none_left ↦ rw none_left (tt, omega arith)
]
