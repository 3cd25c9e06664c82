-- ===== src/Pipeline/Condition/Parser.antt =====
-- The recursive descent that reads a condition. The text left takes the place of the position; a
-- byte beyond ASCII stands only within a string, or is the first of an unexpected character. Fuel
-- bounds the calls. The reading of a number as `f64`, with its JSON value, is a parameter.
use rs2_runtime.Common.{
  ℕ, zero, suc, ◌+◌, ◌-◌, ◌*◌, ◌/◌, Bool, true, false, Option, none, some, List, [], ◌∷◌, ◌++◌,
  length, not, if◌then◌else◌, ◌&&◌, ◌||◌, ◌==◌, ltb,
}
use rs2_runtime.Common.Text.{
  Text, lit, text_eq, contains, strip_prefix, is_ascii_digit, is_ascii_alphabetic, byte_len, join,
}
use rs2_runtime.Common.Text.Decimal.{decimal}
use rs2_runtime.Common.Fallible.{Fallible, failed, passed}
use rs2_runtime.Json.{Value, null, boolean, string}
use rs2_runtime.Pipeline.Condition.{
  CmpOp, equal, unequal, less, greater, at_most, at_least, Expr, literal, builtin, var, header_of,
  negated, both, either, comparison, Condition, builtins,
}

-- What a parser gives: an error, a value with the text that is left, or that its fuel is used up.
pub data Parsed (T : Type 0) : Type 0 where
  out_of_fuel : Parsed T
  rejected : Text → Parsed T
  parsed : T → Text → Parsed T

module _ {T U : Type 0} where
  infixl 5 ◌>>=◌
  abbrev pub ◌>>=◌ : Parsed T → (T → Text → Parsed U) → Parsed U
  out_of_fuel >>= next = out_of_fuel
  rejected e >>= next = rejected e
  parsed v s >>= next = next v s

abbrev pub Reader : Type 0
Reader = Text → Parsed Expr

-- `u8::is_ascii_whitespace`.
abbrev pub is_space : ℕ → Bool
is_space c = (c == 32) || ((c == 9) || ((c == 10) || ((c == 12) || (c == 13))))

abbrev pub skip_ws : Text → Text
skip_ws [] = []
skip_ws (c ∷ s) = let later = skip_ws s in if is_space c then later else c ∷ s

-- The text after a token, past the white space before it.
abbrev pub eat : Text → Text → Option Text
eat token s = strip_prefix token (skip_ws s)

-- The longest prefix of characters that pass, and the rest.
abbrev pub on_taken : ℕ → Text × Text → Text × Text
on_taken c (taken, left) = (c ∷ taken, left)

unfoldable pub span : (ℕ → Bool) → Text → Text × Text
span p [] = ([], [])
span p (c ∷ s) = let later = span p s in if p c then on_taken c later else ([], c ∷ s)

abbrev pub is_ident : ℕ → Bool
is_ident c = is_ascii_alphabetic c || (is_ascii_digit c || (c == b'_'))

abbrev pub ident_of : Text × Text → Parsed Text
ident_of ([], left) = rejected (lit "expected identifier")
ident_of (c ∷ name, left) = parsed (c ∷ name) left

unfoldable pub ident : Text → Parsed Text
ident s = ident_of (span is_ident s)

-- The identifiers after the name of a variable, each after a full stop.
unfoldable pub var_path : ℕ → Text → Parsed (List Text)
var_path zero s = out_of_fuel
var_path (suc fuel) [] = parsed [] []
var_path (suc fuel) (c ∷ s) =
    let later =
      ident s >>= λ key left. var_path fuel left >>= λ keys rest. parsed (key ∷ keys) rest in
    if c == b'.' then later else parsed [] (c ∷ s)

-- The first byte of a character, as the character that the byte alone would be.
abbrev pub first_byte : ℕ → ℕ
first_byte c =
    if ltb c 0x80
    then c
    else if ltb c 0x800
    then 0xC0 + c / 0x40
    else if ltb c 0x10000
    then 0xE0 + c / 0x1000
    else 0xF0 + c / 0x40000

-- What a primary begins with.
pub data Lead : Type 0 where
  paren quote dollar numeric word other : Lead

unfoldable pub lead_of : ℕ → Lead
lead_of c =
    if c == b'('
    then paren
    else if (c == 39) || (c == 34)
    then quote
    else if c == b'$'
    then dollar
    else if is_ascii_digit c || (c == b'-')
    then numeric
    else if is_ascii_alphabetic c || (c == b'_')
    then word
    else other

abbrev pub closed : Text → Expr → Option Text → Parsed Expr
closed e inner none = rejected e
closed e inner (some left) = parsed inner left

abbrev pub close_with : Text → Expr → Text → Parsed Expr
close_with e inner s = closed e inner (eat (lit ")") s)

abbrev pub string_of : Text × Text → Parsed Expr
string_of (s, []) = rejected (lit "unterminated string")
string_of (s, q ∷ left) = parsed (literal (string s)) left

abbrev pub header_arg : Expr → Fallible Expr
header_arg (literal (string s)) = passed (header_of s)
header_arg _ = failed (lit "header argument must be a string literal")

abbrev pub of_fallible : Text → Fallible Expr → Parsed Expr
of_fallible left (failed e) = rejected e
of_fallible left (passed e) = parsed e left

abbrev pub header_call : Reader → Option Text → Parsed Expr
header_call primary none = rejected (lit "header requires '(\"name\")'")
header_call primary (some s) = primary s >>= λ arg left.
    close_with (lit "expected ')' after header argument") arg left >>= λ inner rest.
    of_fallible rest (header_arg inner)

pub data Keyword : Type 0 where
  constant : Value → Keyword
  header_word builtin_word unknown : Keyword

unfoldable pub keyword_of : Text → Keyword
keyword_of name =
    if text_eq name (lit "true")
    then constant (boolean true)
    else if text_eq name (lit "false")
    then constant (boolean false)
    else if text_eq name (lit "null")
    then constant null
    else if text_eq name (lit "header")
    then header_word
    else if contains builtins name
    then builtin_word
    else unknown

abbrev pub word_with : Reader → Text → Text → Keyword → Parsed Expr
word_with primary name left (constant v) = parsed (literal v) left
word_with primary name left header_word = header_call primary (eat (lit "(") left)
word_with primary name left builtin_word = parsed (builtin name) left
word_with primary name left unknown = rejected (
    lit "unknown identifier '"
    ++ (name ++ (lit "' (builtins: " ++ (join (lit ", ") builtins ++ lit ")"))))

abbrev pub number_from : Text → Text → Option Value → Parsed Expr
number_from text left none = rejected (lit "bad number '" ++ (text ++ lit "'"))
number_from text left (some v) = parsed (literal v) left

abbrev pub is_numeric : ℕ → Bool
is_numeric c = is_ascii_digit c || (c == b'.')

-- The operator at the head of a text, and what follows it.
abbrev pub or_op : Option Text → CmpOp → Option (CmpOp × Text) → Option (CmpOp × Text)
or_op none op later = later
or_op (some left) op later = some (op, left)

abbrev pub operator : Text → Option (CmpOp × Text)
operator s = or_op (eat (lit "==") s) equal (
    or_op (eat (lit "!=") s) unequal (
      or_op (eat (lit "<=") s) at_most (
        or_op (eat (lit ">=") s) at_least
          (or_op (eat (lit "<") s) less (or_op (eat (lit ">") s) greater none)))))

abbrev pub compare_with : Reader → Expr → Text → Option (CmpOp × Text) → Parsed Expr
compare_with primary l s none = parsed l s
compare_with primary l s (some (op, left)) =
    primary left >>= λ r rest. parsed (comparison l op r) rest

-- `!`, but not `!=`.
abbrev pub is_bang : Text → Option Text
is_bang [] = none
is_bang (c ∷ []) = if c == b'!' then some [] else none
is_bang (c ∷ d ∷ s) = if (c == b'!') && not (d == b'=') then some (d ∷ s) else none

abbrev pub unary_with : Reader → Reader → Text → Option Text → Parsed Expr
unary_with unary cmp s none = cmp s
unary_with unary cmp s (some left) = unary left >>= λ e rest. parsed (negated e) rest

-- One turn of the loop of `expr` or of `and`: the next operand, after its operator.
abbrev pub loop_with :
    Reader → (Expr → Reader) → (Expr → Expr → Expr) → Expr → Text → Option Text → Parsed Expr
loop_with operand next join l s none = parsed l s
loop_with operand next join l s (some left) = operand left >>= λ r rest. next (join l r) rest

abbrev pub finish : Text → Expr → Text → Parsed Condition
finish source e [] = parsed (record { expr = e; source = source }) []
finish source e (c ∷ s) =
    rejected (lit "unexpected input at position " ++ decimal (byte_len source - byte_len (c ∷ s)))

module _ (parse_f64 : Text → Option Value) where
  abbrev pub number_of : Text × Text → Parsed Expr
  number_of (text, left) = number_from text left (parse_f64 text)

  -- A primary that begins with the character `c` and goes on with `s`.
  abbrev pub primary_with : ℕ → Reader → Reader → ℕ → Text → Lead → Parsed Expr
  primary_with fuel expr primary c s paren = expr s >>= close_with (lit "expected ')'")
  primary_with fuel expr primary c s quote = string_of (span (λ d. not (d == c)) s)
  primary_with fuel expr primary c s dollar =
      ident s >>= λ name left. var_path fuel left >>= λ path rest. parsed (var name path) rest
  primary_with fuel expr primary c s numeric = number_of (on_taken c (span is_numeric s))
  primary_with fuel expr primary c s word =
      ident (c ∷ s) >>= λ name left. word_with primary name left (keyword_of name)
  primary_with fuel expr primary c s other =
      rejected (lit "unexpected character '" ++ (first_byte c ∷ lit "'"))

  abbrev pub primary_at : ℕ → Reader → Reader → Text → Parsed Expr
  primary_at fuel expr primary [] = rejected (lit "unexpected end of expression")
  primary_at fuel expr primary (c ∷ s) = primary_with fuel expr primary c s (lead_of c)

  unfoldable mutual
    pub primary : ℕ → Reader
    primary zero s = out_of_fuel
    primary (suc fuel) s = primary_at fuel (expr fuel) (primary fuel) (skip_ws s)

    pub cmp : ℕ → Reader
    cmp zero s = out_of_fuel
    cmp (suc fuel) s = primary fuel s >>= λ l left.
        compare_with (primary fuel) l (skip_ws left) (operator (skip_ws left))

    pub unary : ℕ → Reader
    unary zero s = out_of_fuel
    unary (suc fuel) s = unary_with (unary fuel) (cmp fuel) (skip_ws s) (is_bang (skip_ws s))

    pub and_expr : ℕ → Reader
    and_expr zero s = out_of_fuel
    and_expr (suc fuel) s = unary fuel s >>= and_loop fuel

    pub and_loop : ℕ → Expr → Reader
    and_loop zero l s = out_of_fuel
    and_loop (suc fuel) l s =
        loop_with (unary fuel) (and_loop fuel) both l (skip_ws s) (eat (lit "&&") s)

    pub expr : ℕ → Reader
    expr zero s = out_of_fuel
    expr (suc fuel) s = and_expr fuel s >>= or_loop fuel

    pub or_loop : ℕ → Expr → Reader
    or_loop zero l s = out_of_fuel
    or_loop (suc fuel) l s =
        loop_with (and_expr fuel) (or_loop fuel) either l (skip_ws s) (eat (lit "||") s)

  -- `Condition::parse`.
  unfoldable pub parse : Text → Parsed Condition
  parse source = expr (6 * length source + 5) source >>= λ e left. finish source e (skip_ws left)
