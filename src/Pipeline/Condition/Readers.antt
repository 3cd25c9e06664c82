-- ===== src/Pipeline/Condition/Readers.antt =====
-- The parts of the parser, given that the readers they call take at least one character and read
-- only built-in names that are known.
use rs2_runtime.Common.{
  ℕ, suc, ◌+◌, ◌<◌, ◌≤◌, ◌≡◌, refl, ap, inl, inr, Bool, true, false, Option, none, some, [], ◌∷◌,
  length, not, ◌==◌, ◌&&◌, if◌then◌else◌, Option-cases, arith,
}
use rs2_runtime.Common.Text.{Text, lit, contains, text_eq}
use rs2_runtime.Json.{Value}
use rs2_runtime.Json
use rs2_runtime.Pipeline.Condition.{
  CmpOp, equal, unequal, at_most, at_least, less, greater, Expr, literal, builtin, var, header_of,
  negated, both, either, comparison, builtins,
}
use rs2_runtime.Pipeline.Condition.Parser.{
  Reader, eat, span, on_taken, ident, var_path, Lead, paren, quote, dollar, numeric, word, other,
  lead_of, close_with, closed, number_from, string_of, header_arg, of_fallible, header_call,
  Keyword, constant, header_word, builtin_word, unknown, keyword_of, word_with, is_numeric,
  primary_with, primary_at, or_op, operator, compare_with, is_bang, unary_with, loop_with,
}
use rs2_runtime.Pipeline.Condition.Progress.{
  Good, Good-le, Good-bind, Any, eat-lt, length-span, ident-Good, var_path-Good,
}

-- Every built-in name of the expression is one that the evaluation knows.
abbrev pub Known : Expr → Type 0
Known (literal v) = Unit
Known (builtin name) = contains builtins name ≡ true
Known (var name path) = Unit
Known (header_of name) = Unit
Known (negated e) = Known e
Known (both l r) = Known l × Known r
Known (either l r) = Known l × Known r
Known (comparison l op r) = Known l × Known r

-- A reader at every text that has fewer than `n` characters.
abbrev pub Reads : (Expr → Type 0) → ℕ → Reader → Type 0
Reads P n read = (s : Text) → length s < n → Good P (length s) (read s)

closed-Good :
    (e : Text) (n : ℕ) (inner : Expr) (o : Option Text)
    → Known inner
    → ((left : Text) → o ≡ some left → length left < n)
    → Good Known n (closed e inner o)
closed-Good e n inner none k h = tt
closed-Good e n inner (some left) k h = (k, h left refl)

close_with-Good :
    (e : Text) (n : ℕ) (inner : Expr) (s : Text)
    → Known inner
    → length s < n
    → Good Known n (close_with e inner s)
close_with-Good e n inner s k h =
    closed-Good e n inner (eat (lit ")") s) k
      λ left found. omega (arith, eat-lt b')' [] s left found)

string_of-Good :
    (n : ℕ) (r : Text × Text) → length r.0 + length r.1 ≤ n → Good Known n (string_of r)
string_of-Good n (s, []) h = tt
string_of-Good n (s, q ∷ left) h = (tt, omega arith)

header_arg-Good :
    (n : ℕ) (left : Text) (arg : Expr)
    → length left < n
    → Good Known n (of_fallible left (header_arg arg))
header_arg-Good n left (literal (Json.string s)) h = (tt, h)
header_arg-Good n left (literal Json.null) h = tt
header_arg-Good n left (literal (Json.boolean b)) h = tt
header_arg-Good n left (literal (Json.number b)) h = tt
header_arg-Good n left (literal (Json.array b)) h = tt
header_arg-Good n left (literal (Json.object b)) h = tt
header_arg-Good n left (builtin _) h = tt
header_arg-Good n left (var _ _) h = tt
header_arg-Good n left (header_of _) h = tt
header_arg-Good n left (negated _) h = tt
header_arg-Good n left (both _ _) h = tt
header_arg-Good n left (either _ _) h = tt
header_arg-Good n left (comparison _ _ _) h = tt

header_call-Good :
    (n : ℕ) (read : Reader) (left : Text)
    → Reads Known n read
    → length left < n
    → Good Known n (header_call read (eat (lit "(") left))
header_call-Good n read left reads h = elim (Option-cases (eat (lit "(") left)) [
  | inl missing ↦ rw missing tt
  | inr (s, opened) ↦
      let lt = eat-lt b'(' [] left s opened in
      rw opened (
        Good-bind Known Known (length s) n (read s) _ (reads s (omega arith)) λ arg after k lt1.
          Good-bind Known Known n n
            (close_with (lit "expected ')' after header argument") arg after) _
            (close_with-Good _ n arg after k (omega arith))
            λ inner rest k2 lt2. header_arg-Good n rest inner lt2)
]

number_from-Good :
    (n : ℕ) (text left : Text) (o : Option Value)
    → length left < n
    → Good Known n (number_from text left o)
number_from-Good n text left none h = tt
number_from-Good n text left (some v) h = (tt, h)

-- Only the last test gives a built-in name.
if_builtin :
    (a b c d e : Bool) (u v w : Value)
    → (if a
        then constant u
        else if b
        then constant v
        else if c
        then constant w
        else if d
        then header_word
        else if e
        then builtin_word
        else unknown)
      ≡ builtin_word
    → e ≡ true
if_builtin true b c d e u v w h = absurd (ground arith)
if_builtin false true c d e u v w h = absurd (ground arith)
if_builtin false false true d e u v w h = absurd (ground arith)
if_builtin false false false true e u v w h = absurd (ground arith)
if_builtin false false false false true u v w h = refl
if_builtin false false false false false u v w h = absurd (ground arith)

keyword_of-builtin : (name : Text) → keyword_of name ≡ builtin_word → contains builtins name ≡ true
unfolding keyword_of
keyword_of-builtin name e =
    if_builtin (text_eq name (lit "true")) (text_eq name (lit "false")) (text_eq name (lit "null"))
      (text_eq name (lit "header")) (contains builtins name) _ _ _ e

word_with-Good :
    (n : ℕ) (read : Reader) (name left : Text) (k : Keyword)
    → (k ≡ builtin_word → contains builtins name ≡ true)
    → Reads Known n read
    → length left < n
    → Good Known n (word_with read name left k)
word_with-Good n read name left (constant v) h reads lt = (tt, lt)
word_with-Good n read name left header_word h reads lt = header_call-Good n read left reads lt
word_with-Good n read name left builtin_word h reads lt = (h refl, lt)
word_with-Good n read name left unknown h reads lt = tt

or_op-lt :
    (n : ℕ) (o : Option Text) (op : CmpOp) (later : Option (CmpOp × Text))
    → ((left : Text) → o ≡ some left → length left < n)
    → ((r : CmpOp × Text) → later ≡ some r → length r.1 < n)
    → (r : CmpOp × Text) → or_op o op later ≡ some r
    → length r.1 < n
or_op-lt n none op later h k r e = k r e
or_op-lt n (some left) op later h k r e =
    let same : left ≡ r.1 = cc e in omega (arith, h left refl, ap length same)

pub operator-lt : (s : Text) (r : CmpOp × Text) → operator s ≡ some r → length r.1 < length s
operator-lt s = or_op-lt (length s) _ equal _ (eat-lt _ _ s) (
    or_op-lt (length s) _ unequal _ (eat-lt _ _ s) (
      or_op-lt (length s) _ at_most _ (eat-lt _ _ s) (
        or_op-lt (length s) _ at_least _ (eat-lt _ _ s) (
          or_op-lt (length s) _ less _ (eat-lt _ _ s)
            (or_op-lt (length s) _ greater none (eat-lt _ _ s) λ r e. absurd (ground arith))))))

pub compare_with-Good :
    (n : ℕ) (prim : Reader) (l : Expr) (s : Text) (o : Option (CmpOp × Text))
    → Known l
    → length s < n
    → ((r : CmpOp × Text) → o ≡ some r → length r.1 < length s)
    → Reads Known n prim
    → Good Known n (compare_with prim l s o)
compare_with-Good n prim l s none k lt h reads = (k, lt)
compare_with-Good n prim l s (some (op, left)) k lt h reads =
    let shorter = h (op, left) refl in
    Good-bind Known Known (length left) n (prim left) _ (reads left (omega arith))
      λ r rest k2 lt2. ((k, k2), omega arith)

pub loop_with-Good :
    (n : ℕ) (operand : Reader) (next : Expr → Reader) (join : Expr → Expr → Expr) (l : Expr)
    (s : Text) (o : Option Text)
    → ((a b : Expr) → Known a → Known b → Known (join a b))
    → Known l
    → length s ≤ n
    → ((left : Text) → o ≡ some left → length left < n)
    → Reads Known n operand
    → ((e : Expr) (t : Text)
        → Known e
        → suc (length t) < n
        → Good Known (suc (length t)) (next e t))
    → Good Known (suc n) (loop_with operand next join l s o)
loop_with-Good n operand next join l s none h k le lt reads more = (k, omega arith)
loop_with-Good n operand next join l s (some left) h k le lt reads more =
    let shorter = lt left refl in
    Good-bind Known Known (length left) (suc n) (operand left) _ (reads left shorter)
      λ r rest k2 lt2.
        Good-le Known (suc (length rest)) (suc n) _
          (more (join l r) rest (h l r k k2) (omega arith)) (omega arith)

if_some : {A : Type 0} (b : Bool) (a c : A) → (if b then some a else none) ≡ some c → a ≡ c
if_some true a c e = cc
if_some false a c e = absurd (ground arith)

pub is_bang-lt : (s left : Text) → is_bang s ≡ some left → length left < length s
is_bang-lt [] left e = absurd (ground arith)
is_bang-lt (c ∷ []) left e = omega (arith, ap length (if_some (c == b'!') [] left e))
is_bang-lt (c ∷ d ∷ s) left e =
    omega (arith, ap length (if_some ((c == b'!') && not (d == b'=')) (d ∷ s) left e))

pub unary_with-Good :
    (n : ℕ) (un cm : Reader) (s : Text) (o : Option Text)
    → length s ≤ n
    → ((left : Text) → o ≡ some left → length left < n)
    → Reads Known n un
    → Reads Known (suc n) cm
    → Good Known n (unary_with un cm s o)
unary_with-Good n un cm s none le h reads below =
    Good-le Known (length s) n _ (below s (omega arith)) le
unary_with-Good n un cm s (some left) le h reads below =
    let shorter = h left refl in
    Good-bind Known Known (length left) n (un left) _ (reads left shorter)
      λ e rest k lt. (k, omega arith)

module _ (parse_f64 : Text → Option Value) where
  primary_with-Good :
      (fuel : ℕ) (inner prim : Reader) (c : ℕ) (s : Text) (lead : Lead)
      → length s < fuel
      → Reads Known (suc (length s)) inner
      → Reads Known (suc (length s)) prim
      → Good Known (suc (length s)) (primary_with parse_f64 fuel inner prim c s lead)
  primary_with-Good fuel inner prim c s paren h e p =
      Good-bind Known Known (length s) (suc (length s)) (inner s) _ (e s (omega arith))
        λ e1 left k lt. close_with-Good _ (suc (length s)) e1 left k (omega arith)
  primary_with-Good fuel inner prim c s quote h e p =
      string_of-Good (suc (length s)) _ (omega (arith, length-span (λ d. not (d == c)) s))
  primary_with-Good fuel inner prim c s dollar h e p =
      Good-bind Any Known (length s) (suc (length s)) (ident s) _ (ident-Good s) λ name left k lt.
        Good-bind Any Known (suc (length left)) (suc (length s)) (var_path fuel left) _
          (var_path-Good fuel left (omega arith)) λ path rest q lt2. (tt, omega arith)
  primary_with-Good fuel inner prim c s numeric h e p =
      let taken = on_taken c (span is_numeric s) in
      number_from-Good (suc (length s)) taken.0 taken.1 (parse_f64 taken.0)
        (omega (arith, length-span is_numeric s))
  primary_with-Good fuel inner prim c s word h e p =
      Good-bind Any Known (suc (length s)) (suc (length s)) (ident (c ∷ s)) _ (ident-Good (c ∷ s))
        λ name left k lt.
          word_with-Good (suc (length s)) prim name left (keyword_of name) (keyword_of-builtin name)
            p lt
  primary_with-Good fuel inner prim c s other h e p = tt

  pub primary_at-Good :
      (fuel n : ℕ) (inner prim : Reader) (s : Text)
      → length s ≤ fuel
      → length s ≤ n
      → Reads Known n inner
      → Reads Known n prim
      → Good Known n (primary_at parse_f64 fuel inner prim s)
  primary_at-Good fuel n inner prim [] h le e p = tt
  primary_at-Good fuel n inner prim (c ∷ s) h le e p =
      Good-le Known (suc (length s)) n _
        (primary_with-Good fuel inner prim c s (lead_of c) (omega arith) (λ t lt. e t (omega arith))
          (λ t lt. p t (omega arith)))
        (omega arith)
