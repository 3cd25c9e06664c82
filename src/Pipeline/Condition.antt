-- ===== src/Pipeline/Condition.antt =====
-- rs2-core/src/pipeline/condition.rs: the conditions of steps, and their evaluation. The comparison
-- of numbers as `f64` is a parameter (`Numbers`), and so is the header map.
pub mod Parser
pub mod Progress
pub mod Readers
pub mod Accepted
mod Tests
use rs2_runtime.Common.{
  ℕ, Ordering, Bool, true, false, Option, none, some, List, [], ◌∷◌, ◌++◌, not, if◌then◌else◌, ◌&&◌,
  any,
}
use rs2_runtime.Common.Text.{Text, lit, text_eq, contains, is_empty}
use rs2_runtime.Common.Text.Order.{compare_text}
use rs2_runtime.Json.{
  Value, null, boolean, number, string, array, object, Items, nil, cons, Fields, lookup, Number,
  pos_int,
}
use rs2_runtime.Error.{Result, ok, err, internal, ◌>>=◌}
use rs2_runtime.Message.{Message, HeaderApi, header, is_ok, shown, Body, MediaType}
use rs2_runtime.Message.Url.{is_directory}
use rs2_runtime.Message.MediaTypes.{is_json, is_text}
use rs2_runtime.Json.Equality.{value_eq}

pub data CmpOp : Type 0 where
  equal unequal less greater at_most at_least : CmpOp

pub data Expr : Type 0 where
  literal : Value → Expr
  builtin : Text → Expr
  var : Text → List Text → Expr
  header_of : Text → Expr
  negated : Expr → Expr
  both : Expr → Expr → Expr
  either : Expr → Expr → Expr
  comparison : Expr → CmpOp → Expr → Expr

abbrev pub builtins : List Text
builtins =
    lit "status"
    ∷ lit "ok"
    ∷ lit "method"
    ∷ lit "mime"
    ∷ lit "isJson"
    ∷ lit "isText"
    ∷ lit "isBinary"
    ∷ lit "name"
    ∷ lit "isDirectory"
    ∷ []

pub record Condition : Type 0 where
  pub expr : Expr
  pub source : Text

-- Numbers of JSON as `f64`: whether one is not zero, `partial_cmp` of two, and their equality.
pub record Numbers : Type 0 where
  pub is_nonzero : Number → Bool
  pub partial_cmp : Number → Number → Option Ordering
  pub number_eq : Number → Number → Bool

abbrev pub no_items : Items → Bool
no_items nil = true
no_items (cons v vs) = false

module _ (numbers : Numbers) where
  unfoldable pub truthy : Value → Bool
  truthy null = false
  truthy (boolean b) = b
  truthy (number n) = numbers.is_nonzero n
  truthy (string s) = not (is_empty s)
  truthy (array items) = not (no_items items)
  truthy (object fields) = true

  abbrev pub order_of : Value → Value → Option Ordering
  order_of (number a) (number b) = numbers.partial_cmp a b
  order_of (string a) (string b) = some (compare_text a b)
  order_of _ _ = none

  abbrev pub is_eq : Ordering → Bool
  is_eq Ordering.eq = true
  is_eq _ = false

  abbrev pub is_lt : Option Ordering → Bool
  is_lt (some Ordering.lt) = true
  is_lt _ = false

  abbrev pub is_gt : Option Ordering → Bool
  is_gt (some Ordering.gt) = true
  is_gt _ = false

  abbrev pub eq_or : Option Ordering → Bool → Bool
  eq_or none same = same
  eq_or (some o) same = is_eq o

  abbrev pub ne_or : Option Ordering → Bool → Bool
  ne_or none same = not same
  ne_or (some o) same = not (is_eq o)

  abbrev pub is_le : Option Ordering → Bool
  is_le (some Ordering.gt) = false
  is_le (some _) = true
  is_le none = false

  abbrev pub is_ge : Option Ordering → Bool
  is_ge (some Ordering.lt) = false
  is_ge (some _) = true
  is_ge none = false

  unfoldable pub compare_values : Value → CmpOp → Value → Bool
  compare_values l equal r = eq_or (order_of l r) (value_eq numbers.number_eq l r)
  compare_values l unequal r = ne_or (order_of l r) (value_eq numbers.number_eq l r)
  compare_values l less r = is_lt (order_of l r)
  compare_values l greater r = is_gt (order_of l r)
  compare_values l at_most r = is_le (order_of l r)
  compare_values l at_least r = is_ge (order_of l r)

abbrev pub or_null : Option Text → Value
or_null none = null
or_null (some s) = string s

abbrev pub field_of : Text → Value → Value
field_of key (object o) = elim (lookup key o) [ none ↦ null | some v ↦ v ]
field_of key _ = null

abbrev pub walk : List Text → Value → Value
walk [] v = v
walk (key ∷ path) v = walk path (field_of key v)

abbrev pub media_test : (MediaType → Bool) → Option Body → Value
media_test p none = boolean false
media_test p (some b) = boolean (p b.media_type)

abbrev pub mime_of : Option Body → Value
mime_of none = null
mime_of (some b) = string b.media_type.essence

abbrev pub status_of : Option ℕ → Value
status_of none = number (pos_int 200)
status_of (some s) = number (pos_int s)

module _ (numbers : Numbers) (api : HeaderApi) (msg : Message (api.Map)) (vars : Fields) where
  unfoldable pub eval_builtin : Text → Result Value
  eval_builtin name =
      if text_eq name (lit "status")
      then ok (status_of msg.status)
      else if text_eq name (lit "ok")
      then ok (boolean (is_ok msg))
      else if text_eq name (lit "method")
      then ok (string (shown msg.method))
      else if text_eq name (lit "mime")
      then ok (mime_of msg.body)
      else if text_eq name (lit "isJson")
      then ok (media_test is_json msg.body)
      else if text_eq name (lit "isText")
      then ok (media_test is_text msg.body)
      else if text_eq name (lit "isBinary")
      then ok (media_test (λ mt. not (is_json mt) && not (is_text mt)) msg.body)
      else if text_eq name (lit "name")
      then ok (or_null msg.name)
      else if text_eq name (lit "isDirectory")
      then ok (boolean (is_directory msg.url))
      else err (internal (lit "unknown builtin '" ++ (name ++ lit "'")))

  abbrev pub var_root : Option Value → Value
  var_root none = null
  var_root (some v) = v

  -- The right side of `&&` and `||` is evaluated only where the left side does not decide.
  unfoldable pub eval : Expr → Result Value
  eval (literal v) = ok v
  eval (builtin name) = eval_builtin name
  eval (var name path) = ok (walk path (var_root (lookup name vars)))
  eval (header_of name) = ok (or_null (header api name msg))
  eval (negated e) = eval e >>= λ v. ok (boolean (not (truthy numbers v)))
  eval (both l r) =
      let right = eval r in
      eval l >>= λ v.
      if truthy numbers v
      then (right >>= λ w. ok (boolean (truthy numbers w)))
      else ok (boolean false)
  eval (either l r) =
      let right = eval r in
      eval l >>= λ v.
      if truthy numbers v
      then ok (boolean true)
      else (right >>= λ w. ok (boolean (truthy numbers w)))
  eval (comparison l op r) =
      let right = eval r in
      eval l >>= λ v. right >>= λ w. ok (boolean (compare_values numbers v op w))

  -- `Condition::evaluate`.
  unfoldable pub evaluate : Condition → Result Bool
  evaluate condition = eval condition.expr >>= λ v. ok (truthy numbers v)
