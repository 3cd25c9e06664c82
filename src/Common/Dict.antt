-- ===== src/Common/Dict.antt =====
-- A hash map with text keys, as the function that looks a key up.
use mathlib.Core.Path.{◌≡◌}
use mathlib.Core.Logic.{◌≢◌}
use mathlib.Core.Option.{Option, none, some}
use native.Mathlib.Omega.{arith}
use rs2_runtime.Common.Tests.{if◌then◌else◌}
use rs2_runtime.Common.Text.{Text, text_eq, text_eq_iff, text_eq_refl}

abbrev pub Dict : Type 0 → Type 0
Dict V = Text → Option V

module _ {V : Type 0} where
  abbrev pub insert : Text → V → Dict V → Dict V
  insert k v m j = if text_eq k j then some v else m j

  abbrev pub remove : Text → Dict V → Dict V
  remove k m j = if text_eq k j then none else m j

  pub insert_self : (k : Text) (v : V) (m : Dict V) → insert k v m k ≡ some v
  insert_self k v m = rw text_eq_refl

  pub insert_ne : (k j : Text) (v : V) (m : Dict V) → k ≢ j → insert k v m j ≡ m j
  insert_ne k j v m h = ground (arith, text_eq_iff k j)

  pub remove_self : (k : Text) (m : Dict V) → remove k m k ≡ none
  remove_self k m = rw text_eq_refl

  pub remove_ne : (k j : Text) (m : Dict V) → k ≢ j → remove k m j ≡ m j
  remove_ne k j m h = ground (arith, text_eq_iff k j)
