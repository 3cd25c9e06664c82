-- ===== src/Common/Lists.antt =====
-- Lists over the native numbers, predicates on lists, and a stable insertion sort.
use Prim.Native.Nat.{ℕ, zero, suc, ◌+◌, ◌≤◌}
use mathlib.Core.Path.{◌≡◌, refl, subst, sym, ap}
use mathlib.Core.Bool.{Bool, true, false, ◌&&◌, ◌||◌}
use mathlib.Core.List.{List, [], ◌∷◌, ◌++◌, map}
use mathlib.Core.Option.{Option, none, some}
use mathlib.Core.Logic.{◌⊎◌, inl, inr}
use native.Mathlib.Omega.{arith}
use rs2_runtime.Common.Tests.{if◌then◌else◌, Bool-cases, or_true}

module _ {ℓ} {A : Type ℓ} where
  abbrev pub length : List A → ℕ
  length [] = 0
  length (x ∷ xs) = suc (length xs)

  abbrev pub get_elem? : List A → ℕ → Option A
  get_elem? [] i = none
  get_elem? (x ∷ xs) zero = some x
  get_elem? (x ∷ xs) (suc i) = get_elem? xs i

  abbrev pub take : ℕ → List A → List A
  take zero xs = []
  take (suc n) [] = []
  take (suc n) (x ∷ xs) = x ∷ take n xs

  abbrev pub drop : ℕ → List A → List A
  drop zero xs = xs
  drop (suc n) [] = []
  drop (suc n) (x ∷ xs) = drop n xs

  abbrev pub any : (A → Bool) → List A → Bool
  any p [] = false
  any p (x ∷ xs) = p x || any p xs

  abbrev pub all : (A → Bool) → List A → Bool
  all p [] = true
  all p (x ∷ xs) = p x && all p xs

  -- The elements that pass a Boolean test (`retain`, `filter`).
  abbrev pub keep : (A → Bool) → List A → List A
  keep p [] = []
  keep p (x ∷ xs) = let rest = keep p xs in if p x then x ∷ rest else rest

  -- `Iterator::find`.
  abbrev pub find : (A → Bool) → List A → Option A
  find p [] = none
  find p (x ∷ xs) = let rest = find p xs in if p x then some x else rest

module _ {A : Type 0} where
  abbrev pub In : A → List A → Type 0
  In a [] = ⊥
  In a (x ∷ xs) = (a ≡ x) ⊎ In a xs

module _ {ℓ κ} {A : Type ℓ} (P : A → Type κ) where
  abbrev pub All : List A → Type κ
  All [] = Unit
  All (x ∷ xs) = P x × All xs

module _ {ℓ} {A : Type ℓ} where
  pub append-eq-nil : (xs ys : List A) → xs ++ ys ≡ [] → (xs ≡ []) × (ys ≡ [])
  append-eq-nil [] ys e = (refl, e)
  append-eq-nil (x ∷ xs) ys e = absurd (ground arith)

  pub length-append : (xs ys : List A) → length (xs ++ ys) ≡ length xs + length ys
  length-append [] ys = omega arith
  length-append (x ∷ xs) ys = omega (arith, length-append xs ys)

  pub length-keep : (p : A → Bool) (xs : List A) → length (keep p xs) ≤ length xs
  length-keep p [] = omega arith
  length-keep p (x ∷ xs) = ground (arith, length-keep p xs)

module _ {A : Type 0} where
  pub All-In {κ} : (P : A → Type κ) (xs : List A) → ((a : A) → In a xs → P a) → All P xs
  All-In P [] h = tt
  All-In P (x ∷ xs) h = (h x (inl refl), All-In P xs (λ a m. h a (inr m)))

  pub All-append {κ} : (P : A → Type κ) (xs ys : List A) → All P xs → All P ys → All P (xs ++ ys)
  All-append P [] ys h k = k
  All-append P (x ∷ xs) ys (p, h) k = (p, All-append P xs ys h k)

  pub All_of_append {κ} : (P : A → Type κ) (xs ys : List A) → All P (xs ++ ys) → All P xs × All P ys
  All_of_append P [] ys h = (tt, h)
  All_of_append P (x ∷ xs) ys (p, h) = let (hs, ks) = All_of_append P xs ys h in ((p, hs), ks)

  pub find-eq-some :
      (p : A → Bool) (xs : List A) (a : A) → find p xs ≡ some a → (p a ≡ true) × In a xs
  find-eq-some p [] a e = ground arith
  find-eq-some p (x ∷ xs) a e = elim (Bool-cases (p x)) [
    | inl hit ↦ ground arith
    | inr miss ↦ let (q, m) = find-eq-some p xs a (ground arith) in (q, inr m)
  ]

  pub find-eq-none : (p : A → Bool) (xs : List A) → find p xs ≡ none → All (λ a. p a ≡ false) xs
  find-eq-none p [] e = tt
  find-eq-none p (x ∷ xs) e = elim (Bool-cases (p x)) [
    | inl hit ↦ absurd (ground arith)
    | inr miss ↦ (miss, find-eq-none p xs (ground arith))
  ]

  pub All-at {κ} : (P : A → Type κ) (xs : List A) (a : A) → All P xs → In a xs → P a
  All-at P [] a h m = elim m [ ]
  All-at P (x ∷ xs) a (p, h) (inl e) = subst P (sym e) p
  All-at P (x ∷ xs) a (p, h) (inr m) = All-at P xs a h m

  pub any-eq-false : (p : A → Bool) (xs : List A) → any p xs ≡ false → All (λ a. p a ≡ false) xs
  any-eq-false p [] e = tt
  any-eq-false p (x ∷ xs) e = (ground arith, any-eq-false p xs (ground arith))

  pub any-eq-true :
      (p : A → Bool) (xs : List A) → any p xs ≡ true → (a : A) × In a xs × (p a ≡ true)
  any-eq-true p [] e = absurd (cc)
  any-eq-true p (x ∷ xs) e = elim (Bool-cases (p x)) [
    | inl hit ↦ (x, inl refl, hit)
    | inr miss ↦ let (a, m, h) = any-eq-true p xs (rw miss at e) in (a, inr m, h)
  ]

  pub any_of_In : (p : A → Bool) (xs : List A) (a : A) → In a xs → p a ≡ true → any p xs ≡ true
  any_of_In p [] a m h = elim m [ ]
  any_of_In p (x ∷ xs) a (inl e) h = rw (subst (λ b. p b ≡ true) e h) refl
  any_of_In p (x ∷ xs) a (inr m) h = rw (any_of_In p xs a m h) (or_true (p x))

  pub All-map {κ μ} :
      (P : A → Type κ) (Q : A → Type μ) (xs : List A) → ((a : A) → P a → Q a) → All P xs → All Q xs
  All-map P Q [] f h = tt
  All-map P Q (x ∷ xs) f (p, h) = (f x p, All-map P Q xs f h)

module _ {A B : Type 0} (f : A → B) where
  pub In-map : (a : A) (xs : List A) → In a xs → In (f a) (map f xs)
  In-map a [] m = elim m [ ]
  In-map a (x ∷ xs) (inl e) = inl (ap f e)
  In-map a (x ∷ xs) (inr m) = inr (In-map a xs m)

  pub map-In : (b : B) (xs : List A) → In b (map f xs) → (a : A) × In a xs × (b ≡ f a)
  map-In b [] m = elim m [ ]
  map-In b (x ∷ xs) (inl e) = (x, inl refl, e)
  map-In b (x ∷ xs) (inr m) = let (a, k, e) = map-In b xs m in (a, inr k, e)

  -- Lists with the same members have images with the same members.
  pub In-map_mono :
      (xs ys : List A) → ((a : A) → In a xs → In a ys) → (b : B) → In b (map f xs) → In b (map f ys)
  In-map_mono xs ys h b m =
      let (a, k, e) = map-In b xs m in subst (λ c. In c (map f ys)) (sym e) (In-map a ys (h a k))
