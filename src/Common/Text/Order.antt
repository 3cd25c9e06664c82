-- ===== src/Common/Text/Order.antt =====
-- `str::cmp`: the order of the code points, which is that of the UTF-8 bytes.
use rs2_runtime.Common.{compare, Ordering, [], ◌∷◌}
use rs2_runtime.Common.Text.{Text}

-- `Ordering::then`.
abbrev pub then_with : Ordering → Ordering → Ordering
then_with Ordering.eq later = later
then_with Ordering.lt later = Ordering.lt
then_with Ordering.gt later = Ordering.gt

unfoldable pub compare_text : Text → Text → Ordering
compare_text [] [] = Ordering.eq
compare_text [] (b ∷ t) = Ordering.lt
compare_text (a ∷ s) [] = Ordering.gt
compare_text (a ∷ s) (b ∷ t) = then_with (compare a b) (compare_text s t)
