-- ===== src/Common/Fallible.antt =====
-- `Result<T, String>`, and the integers that signed types range over.
use rs2_runtime.Common.{ℕ, ◌≡◌, ◌⊎◌, inl, inr, refl}
use rs2_runtime.Common.Text.{Text}

pub data Fallible {ℓ} (T : Type ℓ) : Type ℓ where
  failed : Text → Fallible T
  passed : T → Fallible T

module _ {ℓ κ} {T : Type ℓ} {U : Type κ} where
  infixl 5 ◌>>=◌
  abbrev pub ◌>>=◌ : Fallible T → (T → Fallible U) → Fallible U
  failed e >>= next = failed e
  passed value >>= next = next value

pub Fallible-cases {ℓ} :
    {T : Type ℓ} (r : Fallible T) → ((e : Text) × (r ≡ failed e)) ⊎ ((a : T) × (r ≡ passed a))
Fallible-cases (failed e) = inl (e, refl)
Fallible-cases (passed a) = inr (a, refl)

-- `negsuc n` is -(n + 1).
pub data ℤ : Type 0 where
  pos negsuc : ℕ → ℤ
