-- ===== src/Pipeline/Transform.antt =====
-- The templates of transforms: `apply` and `mentions` of rs2-core/src/pipeline/transform.rs. The
-- evaluation of one JSONata expression, a call of a library, is a parameter.
use rs2_runtime.Common.{Bool, false, ◌||◌}
use rs2_runtime.Common.Text.{Text, contains_str}
use rs2_runtime.Error.{Result, ok, ◌>>=◌}
use rs2_runtime.Error.Problem.{put}
use rs2_runtime.Json.{Value, string, array, object, Items, nil, cons, Fields, end, field}

module _ (evaluate_str : Text → Text → Fields → Result Value) (input : Text) (vars : Fields) where
  -- The fields and items are evaluated in their order; a failure leaves out those that follow.
  unfoldable mutual
    pub apply_inner : Value → Result Value
    apply_inner (string expr) = evaluate_str expr input vars
    apply_inner (object fs) = apply_fields fs end
    apply_inner (array items) = apply_items items >>= λ done. ok (array done)
    apply_inner v = ok v

    pub apply_fields : Fields → Fields → Result Value
    apply_fields end out = ok (object out)
    apply_fields (field k v fs) out = apply_inner v >>= λ w. apply_fields fs (put k w out)

    pub apply_items : Items → Result Items
    apply_items nil = ok nil
    apply_items (cons v items) = apply_inner v >>= λ w. apply_items items >>= λ ws. ok (cons w ws)

abbrev pub transform :
    (Text → Text → Fields → Result Value) → (Value → Text) → Value → Value → Fields → Result Value
transform evaluate_str display template input vars =
    apply_inner evaluate_str (display input) vars template

module _ (name : Text) where
  unfoldable mutual
    pub mentions : Value → Bool
    mentions (string s) = contains_str name s
    mentions (object fs) = fields_mention fs
    mentions (array items) = items_mention items
    mentions v = false

    pub fields_mention : Fields → Bool
    fields_mention end = false
    fields_mention (field k v fs) = mentions v || fields_mention fs

    pub items_mention : Items → Bool
    items_mention nil = false
    items_mention (cons v items) = mentions v || items_mention items
