-- ===== src/Common/Sort.antt =====
-- A stable sort by a Boolean comparison, and the laws that every stable sort has. `before a b` says
-- that `a` may stand in front of `b`: the comparison gives less or equal.
use mathlib.Core.Path.{◌≡◌, refl, subst, sym, ap, ◌∙◌}
use mathlib.Core.Logic.{◌↔◌, ◌⊎◌, inl, inr}
use mathlib.Core.Bool.{Bool, true, false, false≢true}
use mathlib.Core.Option.{some}
use native.Mathlib.Omega.{arith}
use mathlib.Core.List.{List, [], ◌∷◌, Perm}
use mathlib.Core.List.Perm
use rs2_runtime.Common.Tests.{if◌then◌else◌, Bool-cases}
use rs2_runtime.Common.Lists.{All, All-In, In, All-at, find}

module _ {A : Type 0} (before : A → A → Bool) where
  unfoldable pub insert_by : A → List A → List A
  insert_by a [] = a ∷ []
  insert_by a (b ∷ bs) = let rest = insert_by a bs in if before a b then a ∷ b ∷ bs else b ∷ rest

  unfoldable pub sort_by : List A → List A
  unfolding insert_by
  sort_by [] = []
  sort_by (a ∷ xs) = insert_by a (sort_by xs)

  -- Each element may stand in front of all that follow.
  abbrev pub IsSorted : List A → Type 0
  IsSorted [] = Unit
  IsSorted (a ∷ xs) = All (λ b. before a b ≡ true) xs × IsSorted xs

  insert_by-first :
      (a : A) (bs : List A) → All (λ b. before a b ≡ true) bs → insert_by a bs ≡ a ∷ bs
  unfolding insert_by
  insert_by-first a [] h = refl
  insert_by-first a (b ∷ bs) (first, h) = rw first refl

  -- A sorted list is its own sort.
  pub sort_by-id : (xs : List A) → IsSorted xs → sort_by xs ≡ xs
  unfolding sort_by
  sort_by-id [] h = refl
  sort_by-id (a ∷ xs) (f, h) = rw (sort_by-id xs h) (insert_by-first a xs f)

  insert_by-perm : (a : A) (bs : List A) → Perm (insert_by a bs) (a ∷ bs)
  unfolding insert_by
  insert_by-perm a [] = Perm.refl _
  insert_by-perm a (b ∷ bs) = elim (Bool-cases (before a b)) [
    | inl first ↦ rw first (Perm.refl _)
    | inr later ↦ rw later (Perm.trans (Perm.cons b (insert_by-perm a bs)) (Perm.swap a b bs))
  ]

  pub sort_by-perm : (xs : List A) → Perm (sort_by xs) xs
  unfolding sort_by
  sort_by-perm [] = Perm.refl _
  sort_by-perm (a ∷ xs) = Perm.trans (insert_by-perm a (sort_by xs)) (Perm.cons a (sort_by-perm xs))

  pub insert_by-All {κ} :
      (P : A → Type κ) (a : A) (bs : List A) → P a → All P bs → All P (insert_by a bs)
  unfolding insert_by
  insert_by-All P a [] p h = (p, tt)
  insert_by-All P a (b ∷ bs) p (q, h) = elim (Bool-cases (before a b)) [
    | inl first ↦ rw first (p, (q, h))
    | inr later ↦ rw later (q, insert_by-All P a bs p h)
  ]

  insert_by-In : (x a : A) (bs : List A) → In x (insert_by a bs) → In x (a ∷ bs)
  unfolding insert_by
  insert_by-In x a [] h = h
  insert_by-In x a (b ∷ bs) h = elim (Bool-cases (before a b)) [
    | inl first ↦ rw first at h
    | inr later ↦
        let h' : In x (b ∷ insert_by a bs) = rw later at h in
        elim h' [
          | inl e ↦ inr (inl e)
          | inr k ↦ elim (insert_by-In x a bs k) [ inl e ↦ inl e | inr j ↦ inr (inr j) ]
        ]
  ]

  In-insert_by : (x a : A) (bs : List A) → In x (a ∷ bs) → In x (insert_by a bs)
  unfolding insert_by
  In-insert_by x a [] h = h
  In-insert_by x a (b ∷ bs) h = elim (Bool-cases (before a b)) [
    | inl first ↦ rw first h
    | inr later ↦ rw later (elim h [
      | inl e ↦ inr (In-insert_by x a bs (inl e))
      | inr k ↦ elim k [ inl e ↦ inl e | inr j ↦ inr (In-insert_by x a bs (inr j)) ]
    ])
  ]

  -- Sorting changes no membership.
  pub sort_by-In : (x : A) (xs : List A) → In x (sort_by xs) ↔ In x xs
  unfolding sort_by
  sort_by-In x [] = (λ h. h, λ h. h)
  sort_by-In x (a ∷ xs) =
      let (to, from) = sort_by-In x xs in
      (
        λ h. elim (insert_by-In x a (sort_by xs) h) [ inl e ↦ inl e | inr k ↦ inr (to k) ],
        elim [
          | inl e ↦ In-insert_by x a (sort_by xs) (inl e)
          | inr k ↦ In-insert_by x a (sort_by xs) (inr (from k))
        ],
      )

  pub sort_by-All {κ} : (P : A → Type κ) (xs : List A) → All P xs → All P (sort_by xs)
  unfolding sort_by
  sort_by-All P [] h = tt
  sort_by-All P (a ∷ xs) (p, h) = insert_by-All P a (sort_by xs) p (sort_by-All P xs h)

  -- A comparison that is total and transitive on the elements of a list.
  module _ (P : A → Type 0) (total : (a b : A) → P a → P b → before a b ≡ false → before b a ≡ true)
      (trans : (a b c : A)
        → P a
        → P b
        → P c
        → before a b ≡ true
        → before b c ≡ true
        → before a c ≡ true) where
    All-trans :
        (a b : A) (cs : List A)
        → P a
        → P b
        → All P cs
        → before a b ≡ true
        → All (λ c. before b c ≡ true) cs
        → All (λ c. before a c ≡ true) cs
    All-trans a b [] p q r h k = tt
    All-trans a b (c ∷ cs) p q (r, rs) h (k, ks) =
        (trans a b c p q r h k, All-trans a b cs p q rs h ks)

    insert_by-IsSorted :
        (a : A) (bs : List A) → P a → All P bs → IsSorted bs → IsSorted (insert_by a bs)
    unfolding insert_by
    insert_by-IsSorted a [] p q h = (tt, tt)
    insert_by-IsSorted a (b ∷ bs) p (q, qs) (h, k) = elim (Bool-cases (before a b)) [
      | inl first ↦ rw first ((first, All-trans a b bs p q qs first h), (h, k))
      | inr later ↦ rw later (
        insert_by-All (λ c. before b c ≡ true) a bs (total a b p q later) h,
        insert_by-IsSorted a bs p qs k,
      )
    ]

    pub sort_by-IsSorted_among : (xs : List A) → All P xs → IsSorted (sort_by xs)
    unfolding sort_by
    sort_by-IsSorted_among [] h = tt
    sort_by-IsSorted_among (a ∷ xs) (p, h) =
        insert_by-IsSorted a (sort_by xs) p (sort_by-All P xs h) (sort_by-IsSorted_among xs h)

  pub sort_by-IsSorted :
      (total : (a b : A) → before a b ≡ false → before b a ≡ true)
      (trans : (a b c : A) → before a b ≡ true → before b c ≡ true → before a c ≡ true)
      (xs : List A)
      → IsSorted (sort_by xs)
  sort_by-IsSorted total trans xs =
      sort_by-IsSorted_among (λ a. Unit) (λ a b p q. total a b) (λ a b c p q r. trans a b c) xs
        (All-In (λ a. Unit) xs (λ a m. tt))

-- The first hit in a sorted list may stand in front of every other hit.
pub find-IsSorted :
    {A : Type 0} (before : A → A → Bool) (p : A → Bool) (xs : List A) (a b : A)
    → IsSorted before xs
    → find p xs ≡ some a
    → In b xs
    → p b ≡ true
    → (a ≡ b) ⊎ (before a b ≡ true)
find-IsSorted before p [] a b s e m h = elim m [ ]
find-IsSorted before p (x ∷ xs) a b (f, s) e m h = elim (Bool-cases (p x)) [
  | inl hit ↦ elim m [
    | inl same ↦ inl (ground arith)
    | inr k ↦
        let q : x ≡ a = ground arith in inr (subst (λ y. before y b ≡ true) q (All-at _ xs b f k))
  ]
  | inr miss ↦ elim m [
    | inl same ↦ absurd (false≢true (sym miss ∙ (ap p (sym same) ∙ h)))
    | inr k ↦ find-IsSorted before p xs a b s (rw miss at e) k h
  ]
]
