-- ===== src/Common/Arrangement.antt =====
-- Arrangements of the numbers below a bound, and the sort of a list that is taken in such an order.
use rs2_runtime.Common.{
  ℕ, zero, suc, ◌≡◌, refl, sym, ap, ◌∙◌, subst, inl, inr, Bool, true, false, Bool-cases, Option,
  none, some, List, [], ◌∷◌, ◌++◌, All, All-append, All_of_append, ◌<◌, length, get_elem?, arith,
}
use rs2_runtime.Common.Sort.{insert_by, sort_by}

-- `is` has every number below `n` once: without the last one it is an arrangement of the others.
abbrev pub IsArrangement : ℕ → List ℕ → Type 0
IsArrangement zero is = is ≡ []
IsArrangement (suc n) is =
    (xs : List ℕ) × (ys : List ℕ) × (is ≡ xs ++ n ∷ ys) × IsArrangement n (xs ++ ys)

abbrev pub added : {A : Type 0} → Option A → List A → List A
added none l = l
added (some a) l = a ∷ l

-- The elements of a list at these indexes.
unfoldable pub in_order : {A : Type 0} → List ℕ → List A → List A
in_order [] xs = []
in_order (i ∷ is) xs = added (get_elem? xs i) (in_order is xs)

IsArrangement-below : (n : ℕ) (is : List ℕ) → IsArrangement n is → All (λ i. i < n) is
IsArrangement-below zero is h = subst (All (λ i. i < 0)) (sym h) tt
IsArrangement-below (suc n) is (xs, ys, e, h) =
    let (left, right) = All_of_append (λ i. i < n) xs ys (IsArrangement-below n (xs ++ ys) h) in
    subst (All (λ i. i < suc n)) (sym e)
      (All-append (λ i. i < suc n) xs (n ∷ ys) (weaken xs left) (omega arith, weaken ys right))
  where
    weaken : (zs : List ℕ) → All (λ i. i < n) zs → All (λ i. i < suc n) zs
    weaken [] k = tt
    weaken (z ∷ zs) (k, ks) = (omega arith, weaken zs ks)

module _ {A : Type 0} where
  get_elem?-append : (l t : List A) (i : ℕ) → i < length l → get_elem? (l ++ t) i ≡ get_elem? l i
  get_elem?-append [] t i h = absurd (omega arith)
  get_elem?-append (a ∷ l) t zero h = refl
  get_elem?-append (a ∷ l) t (suc i) h = get_elem?-append l t i (omega arith)

  get_elem?-last : (l : List A) (z : A) → get_elem? (l ++ z ∷ []) (length l) ≡ some z
  get_elem?-last [] z = refl
  get_elem?-last (a ∷ l) z = get_elem?-last l z

  added-append : (o : Option A) (l t : List A) → added o l ++ t ≡ added o (l ++ t)
  added-append none l t = refl
  added-append (some a) l t = refl

  in_order-append :
      (xs ys : List ℕ) (l : List A) → in_order (xs ++ ys) l ≡ in_order xs l ++ in_order ys l
  unfolding in_order
  in_order-append [] ys l = refl
  in_order-append (i ∷ xs) ys l =
      ap (added (get_elem? l i)) (in_order-append xs ys l)
      ∙ sym (added-append (get_elem? l i) (in_order xs l) (in_order ys l))

  in_order-below :
      (is : List ℕ) (l t : List A)
      → All (λ i. i < length l) is
      → in_order is (l ++ t) ≡ in_order is l
  unfolding in_order
  in_order-below [] l t h = refl
  in_order-below (i ∷ is) l t (h, hs) =
      ap (λ o. added o (in_order is (l ++ t))) (get_elem?-append l t i h)
      ∙ ap (added (get_elem? l i)) (in_order-below is l t hs)

  get_elem?-All :
      (P : A → Type 0) (l : List A) (i : ℕ) (a : A) → All P l → get_elem? l i ≡ some a → P a
  get_elem?-All P [] i a h e = absurd (cc)
  get_elem?-All P (b ∷ l) zero a (h, hs) e = subst P (cc) h
  get_elem?-All P (b ∷ l) (suc i) a (h, hs) e = get_elem?-All P l i a hs e

  added-All :
      (P : A → Type 0) (o : Option A) (l : List A)
      → ((a : A) → o ≡ some a → P a)
      → All P l
      → All P (added o l)
  added-All P none l f h = h
  added-All P (some a) l f h = (f a refl, h)

  in_order-All : (P : A → Type 0) (is : List ℕ) (l : List A) → All P l → All P (in_order is l)
  unfolding in_order
  in_order-All P [] l h = tt
  in_order-All P (i ∷ is) l h =
      added-All P (get_elem? l i) (in_order is l) (λ a e. get_elem?-All P l i a h e)
        (in_order-All P is l h)

  -- The last element is taken between the others.
  in_order-last :
      (xs ys : List ℕ) (l : List A) (z : A)
      → All (λ i. i < length l) xs
      → All (λ i. i < length l) ys
      → in_order (xs ++ length l ∷ ys) (l ++ z ∷ []) ≡ in_order xs l ++ z ∷ in_order ys l
  unfolding in_order
  in_order-last xs ys l z h k =
      in_order-append xs (length l ∷ ys) (l ++ z ∷ [])
      ∙ rw (in_order-below xs l (z ∷ []) h, get_elem?-last l z, in_order-below ys l (z ∷ []) k) refl

module _ {A : Type 0} (before : A → A → Bool) where
  abbrev Follows : A → A → Type 0
  Follows a z = (before a z ≡ true) × (before z a ≡ false)

  -- Each element stands in front of all that follow, and not the other way round.
  abbrev pub IsAscending : List A → Type 0
  IsAscending [] = Unit
  IsAscending (a ∷ l) = All (λ b. Follows a b) l × IsAscending l

  insert_by-last :
      (z : A) (s : List A) → All (λ a. Follows a z) s → insert_by before z s ≡ s ++ z ∷ []
  unfolding insert_by
  insert_by-last z [] h = refl
  insert_by-last z (a ∷ s) ((first, later), hs) = rw later (ap (λ t. a ∷ t) (insert_by-last z s hs))

  insert_by-before :
      (a z : A) (s : List A)
      → before a z ≡ true
      → insert_by before a (s ++ z ∷ []) ≡ insert_by before a s ++ z ∷ []
  unfolding insert_by
  insert_by-before a z [] h = rw h refl
  insert_by-before a z (b ∷ s) h = elim (Bool-cases (before a b)) [
    | inl first ↦ rw first refl
    | inr later ↦ rw later (ap (λ t. b ∷ t) (insert_by-before a z s h))
  ]

  insert_by-Follows :
      (z a : A) (s : List A)
      → Follows a z
      → All (λ b. Follows b z) s
      → All (λ b. Follows b z) (insert_by before a s)
  unfolding insert_by
  insert_by-Follows z a [] f h = (f, tt)
  insert_by-Follows z a (b ∷ s) f (g, h) = elim (Bool-cases (before a b)) [
    | inl first ↦ rw first (f, (g, h))
    | inr later ↦ rw later (g, insert_by-Follows z a s f h)
  ]

  sort_by-Follows :
      (z : A) (xs : List A) → All (λ b. Follows b z) xs → All (λ b. Follows b z) (sort_by before xs)
  unfolding sort_by
  sort_by-Follows z [] h = tt
  sort_by-Follows z (a ∷ xs) (f, h) =
      insert_by-Follows z a (sort_by before xs) f (sort_by-Follows z xs h)

  -- An element that all others stand in front of comes last.
  sort_by-last :
      (z : A) (xs ys : List A)
      → All (λ b. Follows b z) xs
      → All (λ b. Follows b z) ys
      → sort_by before (xs ++ z ∷ ys) ≡ sort_by before (xs ++ ys) ++ z ∷ []
  unfolding sort_by
  sort_by-last z [] ys h k = insert_by-last z (sort_by before ys) (sort_by-Follows z ys k)
  sort_by-last z (a ∷ xs) ys ((first, later), h) k =
      ap (insert_by before a) (sort_by-last z xs ys h k)
      ∙ insert_by-before a z (sort_by before (xs ++ ys)) first

  split_last :
      (l : List A) (n : ℕ)
      → length l ≡ suc n
      → IsAscending l
      → (l' : List A) × (z : A) × (l ≡ l' ++ z ∷ [])
        × (length l' ≡ n)
        × All (λ a. Follows a z) l'
        × IsAscending l'
  split_last [] n h k = absurd (ground arith)
  split_last (a ∷ []) n h k = ([], a, refl, ground arith, tt, tt)
  split_last (a ∷ b ∷ l) zero h k = absurd (ground arith)
  split_last (a ∷ b ∷ l) (suc n) h (f, k) =
      let (l', z, e, len, fs, asc) = split_last (b ∷ l) n (ground arith) k in
      let (here, there) =
        All_of_append (λ b. Follows a b) l' (z ∷ []) (subst (All (λ b. Follows a b)) e f) in
      (a ∷ l', z, ap (λ t. a ∷ t) e, ap suc len, (there.0, fs), (here, asc))

  -- A list that is taken in any order is put back by a sort that it is ascending for.
  pub sort_by-in_order :
      (n : ℕ) (is : List ℕ) (l : List A)
      → length l ≡ n
      → IsArrangement n is
      → IsAscending l
      → sort_by before (in_order is l) ≡ l
  unfolding in_order sort_by
  sort_by-in_order zero is [] len h asc = rw h refl
  sort_by-in_order zero is (a ∷ l) len h asc = absurd (ground arith)
  sort_by-in_order (suc n) is l len (xs, ys, e, h) asc =
      let (l', z, whole, len', fs, asc') = split_last l n len asc in
      let (left, right) = All_of_append (λ i. i < n) xs ys (IsArrangement-below n (xs ++ ys) h) in
      let at : (is : List ℕ) → All (λ i. i < n) is → All (λ i. i < length l') is =
        λ is k. rw len' k in
      let taken : in_order is l ≡ in_order xs l' ++ z ∷ in_order ys l' =
        rw (e, whole, ← len') (in_order-last xs ys l' z (at xs left) (at ys right)) in
      rw taken (
        sort_by-last z (in_order xs l') (in_order ys l') (in_order-All _ xs l' fs)
          (in_order-All _ ys l' fs)
        ∙ (ap (λ t. sort_by before t ++ z ∷ []) (sym (in_order-append xs ys l'))
            ∙ (ap (λ t. t ++ z ∷ []) (sort_by-in_order n (xs ++ ys) l' len' h asc') ∙ sym whole)))
