-- ===== src/PathPattern/Select/Bounds.antt =====
-- Indices from the end, and slices: they stay within the segments.
use mathlib.Core.List.{reverse-append}
use rs2_runtime.Common.{
  ℕ, zero, suc, ◌-◌, ◌<◌, ◌≤◌, ◌≡◌, refl, sym, ap, inl, inr, false, none, some, List, [], ◌∷◌, ◌++◌,
  reverse, length, get_elem?, take, drop, ltb, leb, Bool-cases, arith, length-append,
}
use rs2_runtime.Common.Text.{Text}
use rs2_runtime.Common.Fallible.{ℤ, pos, negsuc}
use rs2_runtime.PathPattern.Parse.{at}
use rs2_runtime.PathPattern.Select.{norm_index, norm_bound, slice_of, pick, range}

module _ {A : Type 0} where
  reverse-cons : (x : A) (xs : List A) → reverse (x ∷ xs) ≡ reverse xs ++ (x ∷ [])
  reverse-cons x xs = reverse-append (x ∷ []) xs

  length-reverse : (xs : List A) → length (reverse xs) ≡ length xs
  length-reverse [] = refl
  length-reverse (x ∷ xs) =
      rw (reverse-cons x xs, length-append (reverse xs) (x ∷ []), length-reverse xs) (omega arith)

  get_elem?-append_left :
      (xs ys : List A) (k : ℕ) → k < length xs → get_elem? (xs ++ ys) k ≡ get_elem? xs k
  get_elem?-append_left [] ys k h = absurd (omega arith)
  get_elem?-append_left (x ∷ xs) ys zero h = refl
  get_elem?-append_left (x ∷ xs) ys (suc k) h = get_elem?-append_left xs ys k (omega arith)

  get_elem?-last :
      (xs : List A) (x : A) (k : ℕ) → k ≡ length xs → get_elem? (xs ++ (x ∷ [])) k ≡ some x
  get_elem?-last [] x zero h = refl
  get_elem?-last [] x (suc k) h = absurd (omega arith)
  get_elem?-last (y ∷ xs) x zero h = absurd (omega arith)
  get_elem?-last (y ∷ xs) x (suc k) h = get_elem?-last xs x k (omega arith)

  get_elem?-none : (xs : List A) (k : ℕ) → length xs ≤ k → get_elem? xs k ≡ none
  get_elem?-none [] k h = refl
  get_elem?-none (x ∷ xs) zero h = absurd (omega arith)
  get_elem?-none (x ∷ xs) (suc k) h = get_elem?-none xs k (omega arith)

  -- Element `k` of the reverse is element `length - 1 - k`.
  get_elem?-reverse :
      (xs : List A) (k : ℕ)
      → k < length xs
      → get_elem? (reverse xs) k ≡ get_elem? xs (length xs - suc k)
  get_elem?-reverse [] k h = absurd (omega arith)
  get_elem?-reverse (x ∷ xs) k h = elim (Bool-cases (ltb k (length xs))) [
    | inl inner ↦
        let index : (suc (length xs) - suc k) ≡ suc (length xs - suc k) = ground arith in
        rw
          (
            reverse-cons x xs,
            get_elem?-append_left (reverse xs) (x ∷ []) k (ground (arith, length-reverse xs)),
            index,
          )
          (get_elem?-reverse xs k (ground arith))
    | inr outer ↦
        let index : (suc (length xs) - suc k) ≡ 0 = ground arith in
        rw (reverse-cons x xs, index)
          (get_elem?-last (reverse xs) x k (ground (arith, length-reverse xs)))
  ]

  take_all : (n : ℕ) (xs : List A) → length xs ≤ n → take n xs ≡ xs
  take_all zero [] h = refl
  take_all zero (x ∷ xs) h = absurd (omega arith)
  take_all (suc n) [] h = refl
  take_all (suc n) (x ∷ xs) h = ap (λ ys. x ∷ ys) (take_all n xs (omega arith))

  take-append-drop : (n : ℕ) (xs : List A) → take n xs ++ drop n xs ≡ xs
  take-append-drop zero xs = refl
  take-append-drop (suc n) [] = refl
  take-append-drop (suc n) (x ∷ xs) = ap (λ ys. x ∷ ys) (take-append-drop n xs)

  length-drop : (n : ℕ) (xs : List A) → length (drop n xs) ≡ length xs - n
  length-drop zero xs = omega arith
  length-drop (suc n) [] = omega arith
  length-drop (suc n) (x ∷ xs) = omega (arith, length-drop n xs)

  drop_all : (n : ℕ) (xs : List A) → length xs ≤ n → drop n xs ≡ []
  drop_all zero [] h = refl
  drop_all zero (x ∷ xs) h = absurd (omega arith)
  drop_all (suc n) [] h = refl
  drop_all (suc n) (x ∷ xs) h = drop_all n xs (omega arith)

norm_index-negsuc : (k n : ℕ) → suc k ≤ n → norm_index (negsuc k) n ≡ some (n - suc k)
unfolding norm_index
norm_index-negsuc k n h = ground arith

norm_index-beyond : (k n : ℕ) → n < suc k → norm_index (negsuc k) n ≡ none
unfolding norm_index
norm_index-beyond k n h = ground arith

-- A negative index selects the segment that it counts from the end, if there is one.
pub pick-from_end :
    (segs : List Text) (k : ℕ) → pick segs (some (at (negsuc k))) ≡ get_elem? (reverse segs) k
unfolding pick
pick-from_end segs k = elim (Bool-cases (leb (suc k) (length segs))) [
  | inl within ↦
      rw (norm_index-negsuc k (length segs) (ground arith))
        (sym (get_elem?-reverse segs k (ground arith)))
  | inr beyond ↦
      rw (norm_index-beyond k (length segs) (ground arith))
        (sym (get_elem?-none (reverse segs) k (ground (arith, length-reverse segs))))
]

norm_bound-le : (i : ℤ) (n : ℕ) → norm_bound i n ≤ n
unfolding norm_bound
norm_bound-le (pos k) n = omega arith
norm_bound-le (negsuc k) n = ground arith

range-prefix : (segs : List Text) (n : ℕ) → range segs 0 n ≡ take n segs
range-prefix segs zero = refl
range-prefix segs (suc n) =
    let some_left : leb (suc n) 0 ≡ false = ground arith in
    let all_of : (suc n - 0) ≡ suc n = omega arith in rw (some_left, all_of) refl

range-suffix :
    (segs : List Text) (n : ℕ) → n ≤ length segs → range segs n (length segs) ≡ drop n segs
range-suffix segs n h = elim (Bool-cases (leb (length segs) n)) [
  | inl full ↦ rw full (sym (drop_all n segs (ground arith)))
  | inr part ↦
      rw part (take_all (length segs - n) (drop n segs) (omega (arith, length-drop n segs)))
]

-- The slice up to an index and the slice from it on make up the segments, for a negative index
-- and one out of range too.
pub slice_of-append :
    (segs : List Text) (i : ℤ) → slice_of segs none (some i) ++ slice_of segs (some i) none ≡ segs
unfolding slice_of
slice_of-append segs i =
    let n = norm_bound i (length segs) in
    let first : norm_bound (pos 0) (length segs) ≡ 0 = unfold norm_bound in omega arith in
    let last : norm_bound (pos (length segs)) (length segs) ≡ length segs =
      unfold norm_bound in omega arith in
    rw (first, last, range-prefix segs n, range-suffix segs n (norm_bound-le i (length segs)))
      (take-append-drop n segs)
