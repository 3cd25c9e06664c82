-- ===== src/Common/Tree.antt =====
-- `BTreeMap` with text keys, as its entries in the order of the keys.
use rs2_runtime.Common.{
  ◌≡◌, ◌≢◌, ◌⊎◌, refl, ◌∙◌, sym, subst, inl, inr, Ordering, false, Option, none, some, List, [],
  ◌∷◌, All, if◌then◌else◌, Bool-cases, arith,
}
use rs2_runtime.Common.Text.{Text, text_eq, text_eq_iff, text_eq_refl}
use rs2_runtime.Common.Text.Order.{compare_text}
use rs2_runtime.Common.Text.Ordered.{
  compare_text-eq, compare_text_refl, compare_text-flip, compare_text_trans,
}

pub text_eq-ne : (s t : Text) → s ≢ t → text_eq s t ≡ false
text_eq-ne s t ne = ground (arith, text_eq_iff s t)

gt-ne : (k j : Text) → compare_text k j ≡ Ordering.gt → text_eq j k ≡ false
gt-ne k j g = text_eq-ne j k λ e.
    absurd (ground (arith, subst (λ t. compare_text k t ≡ Ordering.gt) e g, compare_text_refl k))

Ordering-cases : (o : Ordering) → (o ≡ Ordering.lt) ⊎ ((o ≡ Ordering.eq) ⊎ (o ≡ Ordering.gt))
Ordering-cases Ordering.lt = inl refl
Ordering-cases Ordering.eq = inr (inl refl)
Ordering-cases Ordering.gt = inr (inr refl)

module _ {V : Type 0} where
  abbrev pub lookup : Text → List (Text × V) → Option V
  lookup k [] = none
  lookup k ((j, v) ∷ es) = let later = lookup k es in if text_eq j k then some v else later

  -- The entry goes before the first greater key, or in the place of its own.
  abbrev pub place :
      Text → V → Text → V → List (Text × V) → List (Text × V) → Ordering → List (Text × V)
  place k v j w es later Ordering.lt = (k, v) ∷ (j, w) ∷ es
  place k v j w es later Ordering.eq = (k, v) ∷ es
  place k v j w es later Ordering.gt = (j, w) ∷ later

  unfoldable pub insert : Text → V → List (Text × V) → List (Text × V)
  insert k v [] = (k, v) ∷ []
  insert k v ((j, w) ∷ es) = place k v j w es (insert k v es) (compare_text k j)

  unfoldable pub remove : Text → List (Text × V) → List (Text × V)
  remove k [] = []
  remove k ((j, w) ∷ es) = let later = remove k es in if text_eq j k then es else (j, w) ∷ later

  abbrev pub Above : Text → List (Text × V) → Type 0
  Above k es = All (λ e. compare_text k e.0 ≡ Ordering.lt) es

  -- Each key is less than all that follow.
  abbrev pub IsOrdered : List (Text × V) → Type 0
  IsOrdered [] = Unit
  IsOrdered ((k, v) ∷ es) = Above k es × IsOrdered es

  Above-trans :
      (k j : Text) (es : List (Text × V)) → compare_text k j ≡ Ordering.lt → Above j es → Above k es
  Above-trans k j [] h a = tt
  Above-trans k j ((i, v) ∷ es) h (a, as_) =
      (compare_text_trans k j i h a, Above-trans k j es h as_)

  insert-Above :
      (i k : Text) (v : V) (es : List (Text × V))
      → compare_text i k ≡ Ordering.lt
      → Above i es
      → Above i (insert k v es)
  unfolding insert
  insert-Above i k v [] h a = (h, tt)
  insert-Above i k v ((j, w) ∷ es) h (a, rest) = elim (Ordering-cases (compare_text k j)) [
    | inl l ↦ rw l (h, (a, rest))
    | inr (inl e) ↦ rw e (h, rest)
    | inr (inr g) ↦ rw g (a, insert-Above i k v es h rest)
  ]

  pub insert-IsOrdered :
      (k : Text) (v : V) (es : List (Text × V)) → IsOrdered es → IsOrdered (insert k v es)
  unfolding insert
  insert-IsOrdered k v [] h = (tt, tt)
  insert-IsOrdered k v ((j, w) ∷ es) (a, h) = elim (Ordering-cases (compare_text k j)) [
    | inl l ↦ rw l ((l, Above-trans k j es l a), (a, h))
    | inr (inl e) ↦ rw e (subst (λ t. Above t es) (sym (compare_text-eq k j e)) a, h)
    | inr (inr g) ↦
        rw g (insert-Above j k v es (compare_text-flip k j g) a, insert-IsOrdered k v es h)
  ]

  remove-Above : (i k : Text) (es : List (Text × V)) → Above i es → Above i (remove k es)
  unfolding remove
  remove-Above i k [] a = tt
  remove-Above i k ((j, w) ∷ es) (a, rest) = elim (Bool-cases (text_eq j k)) [
    | inl hit ↦ rw hit rest
    | inr miss ↦ rw miss (a, remove-Above i k es rest)
  ]

  pub remove-IsOrdered : (k : Text) (es : List (Text × V)) → IsOrdered es → IsOrdered (remove k es)
  unfolding remove
  remove-IsOrdered k [] h = tt
  remove-IsOrdered k ((j, w) ∷ es) (a, h) = elim (Bool-cases (text_eq j k)) [
    | inl hit ↦ rw hit h
    | inr miss ↦ rw miss (remove-Above j k es a, remove-IsOrdered k es h)
  ]

  pub lookup-insert_self :
      (k : Text) (v : V) (es : List (Text × V)) → lookup k (insert k v es) ≡ some v
  unfolding insert
  lookup-insert_self k v [] = rw text_eq_refl refl
  lookup-insert_self k v ((j, w) ∷ es) = elim (Ordering-cases (compare_text k j)) [
    | inl l ↦ rw (l, text_eq_refl k) refl
    | inr (inl e) ↦ rw (e, text_eq_refl k) refl
    | inr (inr g) ↦ rw (g, gt-ne k j g) (lookup-insert_self k v es)
  ]

  pub lookup-insert_ne :
      (i k : Text) (v : V) (es : List (Text × V)) → k ≢ i → lookup i (insert k v es) ≡ lookup i es
  unfolding insert
  lookup-insert_ne i k v [] ne = rw (text_eq-ne k i ne) refl
  lookup-insert_ne i k v ((j, w) ∷ es) ne = elim (Ordering-cases (compare_text k j)) [
    | inl l ↦ rw (l, text_eq-ne k i ne) refl
    | inr (inl e) ↦
        rw (e, text_eq-ne k i ne, text_eq-ne j i λ q. ne (compare_text-eq k j e ∙ q)) refl
    | inr (inr g) ↦ elim (Bool-cases (text_eq j i)) [
      | inl hit ↦ rw (g, hit) refl
      | inr miss ↦ rw (g, miss) (lookup-insert_ne i k v es ne)
    ]
  ]

  module _ (P : V → Type 0) where
    pub insert-All :
        (k : Text) (v : V) (es : List (Text × V))
        → P v
        → All (λ e. P e.1) es
        → All (λ e. P e.1) (insert k v es)
    unfolding insert
    insert-All k v [] p h = (p, tt)
    insert-All k v ((j, w) ∷ es) p (q, h) = elim (Ordering-cases (compare_text k j)) [
      | inl l ↦ rw l (p, (q, h))
      | inr (inl e) ↦ rw e (p, h)
      | inr (inr g) ↦ rw g (q, insert-All k v es p h)
    ]

    pub remove-All :
        (k : Text) (es : List (Text × V)) → All (λ e. P e.1) es → All (λ e. P e.1) (remove k es)
    unfolding remove
    remove-All k [] h = tt
    remove-All k ((j, w) ∷ es) (q, h) = elim (Bool-cases (text_eq j k)) [
      | inl hit ↦ rw hit h
      | inr miss ↦ rw miss (q, remove-All k es h)
    ]

    pub lookup-All :
        (k : Text) (es : List (Text × V)) (v : V) → All (λ e. P e.1) es → lookup k es ≡ some v → P v
    lookup-All k [] v h e = absurd (ground arith)
    lookup-All k ((j, w) ∷ es) v (q, h) e = elim (Bool-cases (text_eq j k)) [
      | inl hit ↦ let same : w ≡ v = cc (rw hit at e) in subst P same q
      | inr miss ↦ lookup-All k es v h (rw miss at e)
    ]
