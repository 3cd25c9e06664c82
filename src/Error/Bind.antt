-- ===== src/Error/Bind.antt =====
-- Results that are successes, and what they came from.
use rs2_runtime.Common.{◌≡◌, refl, Bool, true, false, if◌then◌else◌}
use rs2_runtime.Error.{Result, ok, err, RsError, ◌>>=◌}

pub bind-ok :
    {T U : Type 0} (r : Result T) (next : T → Result U) (u : U)
    → (r >>= next) ≡ ok u
    → (a : T) × (r ≡ ok a) × (next a ≡ ok u)
bind-ok (ok a) next u h = (a, refl, h)
bind-ok (err e) next u h = absurd (cc)

pub ok-injective : {T : Type 0} (a b : T) → ok a ≡ ok b → a ≡ b
ok-injective a b h = cc

pub if-ok :
    {T : Type 0} (c : Bool) (r : Result T) (e : RsError) (u : T)
    → (if c then r else err e) ≡ ok u
    → (c ≡ true) × (r ≡ ok u)
if-ok true r e u h = (refl, h)
if-ok false r e u h = absurd (cc)
