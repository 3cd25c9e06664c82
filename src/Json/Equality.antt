-- ===== src/Json/Equality.antt =====
-- The equality of JSON values: that of objects goes by their fields, in any order. The equality of
-- numbers is a parameter.
use rs2_runtime.Common.{ℕ, suc, Bool, true, false, none, some, ◌&&◌, ◌==◌}
use rs2_runtime.Common.Text.{text_eq}
use rs2_runtime.Json.{
  Value, null, boolean, number, string, array, object, Items, nil, cons, Fields, end, field, lookup,
  Number,
}

abbrev pub bool_eq : Bool → Bool → Bool
bool_eq true true = true
bool_eq false false = true
bool_eq _ _ = false

abbrev pub size : Fields → ℕ
size end = 0
size (field k v fs) = suc (size fs)

module _ (number_eq : Number → Number → Bool) where
  unfoldable mutual
    unfolding text_eq lookup

    pub value_eq : Value → Value → Bool
    value_eq null null = true
    value_eq (boolean a) (boolean b) = bool_eq a b
    value_eq (number a) (number b) = number_eq a b
    value_eq (string a) (string b) = text_eq a b
    value_eq (array a) (array b) = items_eq a b
    value_eq (object a) (object b) = (size a == size b) && fields_in a b
    value_eq _ _ = false

    pub items_eq : Items → Items → Bool
    items_eq nil nil = true
    items_eq (cons a xs) (cons b ys) = value_eq a b && items_eq xs ys
    items_eq _ _ = false

    -- Each field of the first object has an equal one in the second.
    pub fields_in : Fields → Fields → Bool
    fields_in end b = true
    fields_in (field k v fs) b =
        elim (lookup k b) [ none ↦ false | some w ↦ value_eq v w ] && fields_in fs b
