-- ===== src/Listing/Flip.antt =====
-- The comparison of records the other way round.
use rs2_runtime.Common.{
  ℕ, ◌≡◌, refl, inl, inr, compare, Ordering, Bool, Option, none, some, List, [], ◌∷◌, ◌==◌,
  Bool-cases, arith, ==_iff,
}
use rs2_runtime.Common.Text.{Text}
use rs2_runtime.Common.Text.Order.{compare_text, then_with}
use rs2_runtime.Common.Fallible.{ℤ, pos, negsuc}
use rs2_runtime.Json.{Value, null, boolean, number, string, array, object, Number}
use rs2_runtime.Listing.{
  FieldPath, Dir, asc, desc, lookup_path, type_rank, as_i64, as_u64, compare_int, or_equal, flip,
  directed, ValueApi, unsigned_or_float, signed_or, compare_numbers, same_rank, compare_present,
  compare_optional, compare_records,
}

compare-flip : (a b : ℕ) → compare b a ≡ flip (compare a b)
compare-flip a b = ground arith

==-sym : (a b : ℕ) {c : Bool} → (a == b) ≡ c → (b == a) ≡ c
==-sym a b h = ground (arith, ==_iff a b)

then_with-flip : (o p : Ordering) → flip (then_with o p) ≡ then_with (flip o) (flip p)
then_with-flip Ordering.lt p = refl
then_with-flip Ordering.eq p = refl
then_with-flip Ordering.gt p = refl

directed-flip : (d : Dir) (o : Ordering) → directed d (flip o) ≡ flip (directed d o)
directed-flip asc o = refl
directed-flip desc o = refl

compare_text-swap : (s t : Text) → compare_text t s ≡ flip (compare_text s t)
unfolding compare_text
compare_text-swap [] [] = refl
compare_text-swap [] (b ∷ t) = refl
compare_text-swap (a ∷ s) [] = refl
compare_text-swap (a ∷ s) (b ∷ t) =
    rw (compare-flip a b, compare_text-swap s t, then_with-flip (compare a b) (compare_text s t))
      refl

compare_int-flip : (a b : ℤ) → compare_int b a ≡ flip (compare_int a b)
compare_int-flip (pos a) (pos b) = compare-flip a b
compare_int-flip (pos a) (negsuc b) = refl
compare_int-flip (negsuc a) (pos b) = refl
compare_int-flip (negsuc a) (negsuc b) = compare-flip b a

abbrev pub IsSymmetric : ValueApi → Type 0
IsSymmetric api =
    (x y : Number) → or_equal (api.partial_cmp y x) ≡ flip (or_equal (api.partial_cmp x y))

module _ (api : ValueApi) (symmetric : IsSymmetric api) where
  unsigned_or_float-flip :
      (x y : Number) (a b : Option ℕ)
      → unsigned_or_float api y x b a ≡ flip (unsigned_or_float api x y a b)
  unsigned_or_float-flip x y (some a) (some b) = compare-flip a b
  unsigned_or_float-flip x y (some a) none = symmetric x y
  unsigned_or_float-flip x y none (some b) = symmetric x y
  unsigned_or_float-flip x y none none = symmetric x y

  signed_or-flip :
      (x y : Number) (a b : Option ℤ) → signed_or api y x b a ≡ flip (signed_or api x y a b)
  signed_or-flip x y (some a) (some b) = compare_int-flip a b
  signed_or-flip x y (some a) none = unsigned_or_float-flip x y (as_u64 x) (as_u64 y)
  signed_or-flip x y none (some b) = unsigned_or_float-flip x y (as_u64 x) (as_u64 y)
  signed_or-flip x y none none = unsigned_or_float-flip x y (as_u64 x) (as_u64 y)

  same_rank-flip : (a b : Value) → same_rank api b a ≡ flip (same_rank api a b)
  unfolding compare_numbers
  same_rank-flip null null = refl
  same_rank-flip null (boolean w) = refl
  same_rank-flip null (number w) = refl
  same_rank-flip null (string w) = refl
  same_rank-flip null (array w) = refl
  same_rank-flip null (object w) = refl
  same_rank-flip (boolean u) null = refl
  same_rank-flip (boolean u) (boolean w) = refl
  same_rank-flip (boolean u) (number w) = refl
  same_rank-flip (boolean u) (string w) = refl
  same_rank-flip (boolean u) (array w) = refl
  same_rank-flip (boolean u) (object w) = refl
  same_rank-flip (number u) null = refl
  same_rank-flip (number u) (boolean w) = refl
  same_rank-flip (number u) (number w) = signed_or-flip u w (as_i64 u) (as_i64 w)
  same_rank-flip (number u) (string w) = refl
  same_rank-flip (number u) (array w) = refl
  same_rank-flip (number u) (object w) = refl
  same_rank-flip (string u) null = refl
  same_rank-flip (string u) (boolean w) = refl
  same_rank-flip (string u) (number w) = refl
  same_rank-flip (string u) (string w) = compare_text-swap u w
  same_rank-flip (string u) (array w) = refl
  same_rank-flip (string u) (object w) = refl
  same_rank-flip (array u) null = refl
  same_rank-flip (array u) (boolean w) = refl
  same_rank-flip (array u) (number w) = refl
  same_rank-flip (array u) (string w) = refl
  same_rank-flip (array u) (array w) =
      compare_text-swap (api.display (array u)) (api.display (array w))
  same_rank-flip (array u) (object w) = refl
  same_rank-flip (object u) null = refl
  same_rank-flip (object u) (boolean w) = refl
  same_rank-flip (object u) (number w) = refl
  same_rank-flip (object u) (string w) = refl
  same_rank-flip (object u) (array w) = refl
  same_rank-flip (object u) (object w) =
      compare_text-swap (api.display (object u)) (api.display (object w))

  compare_present-flip : (a b : Value) → compare_present api b a ≡ flip (compare_present api a b)
  unfolding compare_present
  compare_present-flip a b = elim (Bool-cases (type_rank a == type_rank b)) [
    | inl same ↦ rw (same, ==-sym (type_rank a) (type_rank b) same) (same_rank-flip a b)
    | inr differ ↦
        rw (differ, ==-sym (type_rank a) (type_rank b) differ)
          (compare-flip (type_rank a) (type_rank b))
  ]

  compare_optional-flip :
      (a b : Option Value) → compare_optional api b a ≡ flip (compare_optional api a b)
  unfolding compare_optional
  compare_optional-flip none none = refl
  compare_optional-flip none (some b) = refl
  compare_optional-flip (some a) none = refl
  compare_optional-flip (some a) (some b) = compare_present-flip a b

-- The comparison of two records by sort keys is the converse of their comparison the other way
-- round, if the comparison of numbers as f64 is so.
pub compare_records-flip :
    (api : ValueApi)
    → IsSymmetric api
    → (a b : Value) (keys : List (FieldPath × Dir))
    → compare_records api b a keys ≡ flip (compare_records api a b keys)
unfolding compare_records
compare_records-flip api h a b [] = refl
compare_records-flip api h a b ((path, d) ∷ keys) =
    let here = directed d (compare_optional api (lookup_path path a) (lookup_path path b)) in
    rw
      (
        compare_optional-flip api h (lookup_path path a) (lookup_path path b),
        directed-flip d (compare_optional api (lookup_path path a) (lookup_path path b)),
        compare_records-flip api h a b keys,
        then_with-flip here (compare_records api a b keys),
      )
      refl
