-- ===== src/Json.antt =====
-- serde_json's `Value`, as the runtime uses it: an object keeps the order of insertion
-- (`preserve_order`), and a number is a u64, a negative i64 or the bit pattern of an f64.
pub mod Equality
use rs2_runtime.Common.{ℕ, Bool, Option, none, some, if◌then◌else◌}
use rs2_runtime.Common.Text.{Text, text_eq}

pub data Number : Type 0 where
  pos_int : ℕ → Number
  -- `neg_int n` is -(n + 1).
  neg_int : ℕ → Number
  float : ℕ → Number

mutual
  pub data Value : Type 0 where
    null : Value
    boolean : Bool → Value
    number : Number → Value
    string : Text → Value
    array : Items → Value
    object : Fields → Value

  pub data Items : Type 0 where
    nil : Items
    cons : Value → Items → Items

  pub data Fields : Type 0 where
    end : Fields
    field : Text → Value → Fields → Fields

-- `Map::get`.
unfoldable pub lookup : Text → Fields → Option Value
unfolding text_eq
lookup k end = none
lookup k (field j v fs) = if text_eq j k then some v else lookup k fs

-- `Value::get` with a key.
unfoldable pub get : Text → Value → Option Value
unfolding lookup
get k (object fs) = lookup k fs
get k _ = none

abbrev pub as_str : Value → Option Text
as_str (string s) = some s
as_str _ = none

-- `o.and_then(|v| v.as_str())`.
abbrev pub opt_str : Option Value → Option Text
opt_str none = none
opt_str (some v) = as_str v

abbrev pub unwrap_or {ℓ} : {A : Type ℓ} → Option A → A → A
unwrap_or none d = d
unwrap_or (some a) d = a
