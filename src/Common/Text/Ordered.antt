-- ===== src/Common/Text/Ordered.antt =====
-- The order of texts is a strict total order.
use rs2_runtime.Common.{
  ℕ, ◌<◌, ◌≡◌, refl, sym, ◌∙◌, inl, inr, compare, Ordering, [], ◌∷◌, arith, ◌⊎◌,
}
use rs2_runtime.Common.Text.{Text}
use rs2_runtime.Common.Text.Order.{compare_text}

compare-cases :
    (a b : ℕ)
    → ((a < b) × (compare a b ≡ Ordering.lt))
      ⊎ (((a ≡ b) × (compare a b ≡ Ordering.eq)) ⊎ ((b < a) × (compare a b ≡ Ordering.gt)))
compare-cases a b = ground arith

compare-lt : (a b : ℕ) → a < b → compare a b ≡ Ordering.lt
compare-lt a b h = ground arith

compare_refl : (a : ℕ) → compare a a ≡ Ordering.eq
compare_refl a = ground arith

pub compare_text-eq : (s t : Text) → compare_text s t ≡ Ordering.eq → s ≡ t
unfolding compare_text
compare_text-eq [] [] h = refl
compare_text-eq [] (b ∷ t) h = absurd (ground arith)
compare_text-eq (a ∷ s) [] h = absurd (ground arith)
compare_text-eq (a ∷ s) (b ∷ t) h = elim (compare-cases a b) [
  | inl (lt, l) ↦ absurd (ground (arith, rw l at h))
  | inr (inl (same, e)) ↦ cc (same, compare_text-eq s t (rw e at h))
  | inr (inr (gt, g)) ↦ absurd (ground (arith, rw g at h))
]

pub compare_text_refl : (s : Text) → compare_text s s ≡ Ordering.eq
unfolding compare_text
compare_text_refl [] = refl
compare_text_refl (a ∷ s) = rw (compare_refl a) (compare_text_refl s)

pub compare_text-flip :
    (s t : Text) → compare_text s t ≡ Ordering.gt → compare_text t s ≡ Ordering.lt
unfolding compare_text
compare_text-flip [] [] h = absurd (ground arith)
compare_text-flip [] (b ∷ t) h = absurd (ground arith)
compare_text-flip (a ∷ s) [] h = refl
compare_text-flip (a ∷ s) (b ∷ t) h = elim (compare-cases a b) [
  | inl (lt, l) ↦ absurd (ground (arith, rw l at h))
  | inr (inl (same, e)) ↦
      let later : compare_text s t ≡ Ordering.gt = rw e at h in
      rw (sym same, compare_refl a) (compare_text-flip s t later)
  | inr (inr (gt, g)) ↦ rw (compare-lt b a gt) refl
]

pub compare_text_trans :
    (s t u : Text)
    → compare_text s t ≡ Ordering.lt
    → compare_text t u ≡ Ordering.lt
    → compare_text s u ≡ Ordering.lt
unfolding compare_text
compare_text_trans [] [] u h k = k
compare_text_trans [] (b ∷ t) [] h k = absurd (ground arith)
compare_text_trans [] (b ∷ t) (c ∷ u) h k = refl
compare_text_trans (a ∷ s) [] u h k = absurd (ground arith)
compare_text_trans (a ∷ s) (b ∷ t) [] h k = absurd (ground arith)
compare_text_trans (a ∷ s) (b ∷ t) (c ∷ u) h k = elim (compare-cases a b) [
  | inl (lt, l) ↦ elim (compare-cases b c) [
    | inl (lt2, l2) ↦ rw (compare-lt a c (omega arith)) refl
    | inr (inl (same, e)) ↦ rw (compare-lt a c (omega arith)) refl
    | inr (inr (gt, g)) ↦ absurd (ground (arith, rw g at k))
  ]
  | inr (inl (same, e)) ↦ elim (compare-cases b c) [
    | inl (lt2, l2) ↦ rw (compare-lt a c (omega arith)) refl
    | inr (inl (same2, e2)) ↦
        let tail : compare_text s t ≡ Ordering.lt = rw e at h in
        let tail2 : compare_text t u ≡ Ordering.lt = rw e2 at k in
        rw (same ∙ same2, compare_refl c) (compare_text_trans s t u tail tail2)
    | inr (inr (gt, g)) ↦ absurd (ground (arith, rw g at k))
  ]
  | inr (inr (gt, g)) ↦ absurd (ground (arith, rw g at h))
]
