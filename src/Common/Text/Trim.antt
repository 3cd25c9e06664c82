-- ===== src/Common/Text/Trim.antt =====
-- Trimming one character off a text.
use mathlib.Core.List.{reverse-append, reverse-reverse, reverse}
use rs2_runtime.Common.Tests.{◌==◌, Bool-cases}
use rs2_runtime.Common.Lists.{All, All-append}
use mathlib.Core.Bool.{false}
use rs2_runtime.Common.Text.{
  trim, trim_start, is_whitespace, Text, trim_start_matches, trim_end_matches, trim_matches,
}
use Prim.Native.Nat.{ℕ}
use mathlib.Core.Path.{◌≡◌, refl, sym, ap, ◌∙◌, subst}
use mathlib.Core.Logic.{◌≢◌, inl, inr}
use mathlib.Core.List.{[], ◌∷◌, ◌++◌}
use native.Mathlib.Omega.{arith}

module _ (sep : ℕ) where
  -- The text does not begin with the separator.
  abbrev pub NotHead : Text → Type 0
  NotHead [] = Unit
  NotHead (c ∷ s) = c ≢ sep

  pub trim_start-NotHead : (s : Text) → NotHead (trim_start_matches sep s)
  unfolding trim_start_matches
  trim_start-NotHead [] = tt
  trim_start-NotHead (c ∷ s) = elim (Bool-cases (c == sep)) [
    | inl hit ↦ rw hit (trim_start-NotHead s)
    | inr miss ↦ rw miss (ground arith)
  ]

  pub trim_start_of_NotHead : (s : Text) → NotHead s → trim_start_matches sep s ≡ s
  unfolding trim_start_matches
  trim_start_of_NotHead [] h = refl
  trim_start_of_NotHead (c ∷ s) h = ground arith

  -- What is trimmed off the start.
  pub trim_start_split : (s : Text) → (q : Text) × (s ≡ q ++ trim_start_matches sep s)
  unfolding trim_start_matches
  trim_start_split [] = ([], refl)
  trim_start_split (c ∷ s) = elim (Bool-cases (c == sep)) [
    | inl hit ↦ let (q, e) = trim_start_split s in (c ∷ q, rw hit (ap (λ t. c ∷ t) e))
    | inr miss ↦ ([], rw miss)
  ]

  pub NotHead-prefix : (a b : Text) → NotHead (a ++ b) → NotHead a
  NotHead-prefix [] b h = tt
  NotHead-prefix (c ∷ a) b h = h

  pub trim_end_split : (s : Text) → (q : Text) × (s ≡ trim_end_matches sep s ++ q)
  unfolding trim_end_matches
  trim_end_split s =
      let (q, e) = trim_start_split (reverse s) in
      (
        reverse q,
        sym (reverse-reverse s)
            ∙ (ap reverse e ∙ reverse-append q (trim_start_matches sep (reverse s))),
      )

  pub trim_end_idem :
      (s : Text) → trim_end_matches sep (trim_end_matches sep s) ≡ trim_end_matches sep s
  unfolding trim_end_matches
  trim_end_idem s =
      rw reverse-reverse (ap reverse (trim_start_of_NotHead _ (trim_start-NotHead (reverse s))))

  pub trim_matches-NotHead : (s : Text) → NotHead (trim_matches sep s)
  unfolding trim_matches
  trim_matches-NotHead s =
      let (q, e) = trim_end_split (trim_start_matches sep s) in
      NotHead-prefix _ q (rw e at (trim_start-NotHead s))

  trim_start-cons : (s : Text) → trim_start_matches sep (sep ∷ s) ≡ trim_start_matches sep s
  unfolding trim_start_matches
  trim_start-cons s = ground arith

  pub trim_end-trim_matches :
      (s : Text) → trim_end_matches sep (trim_matches sep s) ≡ trim_matches sep s
  unfolding trim_matches
  trim_end-trim_matches s = trim_end_idem (trim_start_matches sep s)

  -- A separator put back in front is trimmed off again.
  pub trim_matches-cons :
      (s : Text) → trim_matches sep (sep ∷ trim_matches sep s) ≡ trim_matches sep s
  trim_matches-cons s =
      let t = trim_matches sep s in
      unfold trim_matches in
      (ap (trim_end_matches sep)
          (trim_start-cons t ∙ trim_start_of_NotHead t (trim_matches-NotHead s))
        ∙ trim_end-trim_matches s)

-- The text does not begin with whitespace.
abbrev pub NotSpaceHead : Text → Type 0
NotSpaceHead [] = Unit
NotSpaceHead (c ∷ s) = is_whitespace c ≡ false

trim_start-NotSpaceHead : (s : Text) → NotSpaceHead s → trim_start s ≡ s
unfolding trim_start
trim_start-NotSpaceHead [] h = refl
trim_start-NotSpaceHead (c ∷ s) h = rw h refl

-- A text with no whitespace at its ends is trimmed to itself.
pub trim-NotSpaceHead : (s : Text) → NotSpaceHead s → NotSpaceHead (reverse s) → trim s ≡ s
unfolding trim
trim-NotSpaceHead s h k =
    rw (trim_start-NotSpaceHead s h, trim_start-NotSpaceHead (reverse s) k) (reverse-reverse s)

NotSpaceHead-All : (s : Text) → All (λ c. is_whitespace c ≡ false) s → NotSpaceHead s
NotSpaceHead-All [] h = tt
NotSpaceHead-All (c ∷ s) (h, hs) = h

All-reverse : (P : ℕ → Type 0) (s : Text) → All P s → All P (reverse s)
All-reverse P [] h = tt
All-reverse P (c ∷ s) (h, hs) =
    rw (reverse-append (c ∷ []) s) (All-append P (reverse s) (c ∷ []) (All-reverse P s hs) (h, tt))

pub trim-All : (s : Text) → All (λ c. is_whitespace c ≡ false) s → trim s ≡ s
trim-All s h =
    trim-NotSpaceHead s (NotSpaceHead-All s h)
      (NotSpaceHead-All (reverse s) (All-reverse (λ c. is_whitespace c ≡ false) s h))

All-trim_start : (P : ℕ → Type 0) (s : Text) → All P s → All P (trim_start s)
unfolding trim_start
All-trim_start P [] h = tt
All-trim_start P (c ∷ s) (h, hs) = elim (Bool-cases (is_whitespace c)) [
  | inl space ↦ rw space (All-trim_start P s hs)
  | inr other ↦ rw other (h, hs)
]

pub All-trim : (P : ℕ → Type 0) (s : Text) → All P s → All P (trim s)
unfolding trim
All-trim P s h = All-reverse P _ (All-trim_start P _ (All-reverse P _ (All-trim_start P s h)))

reverse-snoc : (s : Text) (c : ℕ) → reverse (s ++ c ∷ []) ≡ c ∷ reverse s
reverse-snoc s c = reverse-append s (c ∷ [])

trim_end-snoc :
    (sep : ℕ) (s : Text) → NotHead sep (reverse s) → trim_end_matches sep (s ++ sep ∷ []) ≡ s
unfolding trim_end_matches
trim_end-snoc sep s k =
    ap (λ r. reverse (trim_start_matches sep r)) (reverse-snoc s sep)
    ∙ (ap reverse (trim_start-cons sep (reverse s) ∙ trim_start_of_NotHead sep (reverse s) k)
        ∙ reverse-reverse s)

-- A text put between two separators, with none at its ends, is what trimming them off leaves.
pub trim_matches-wrap :
    (sep : ℕ) (s : Text)
    → NotHead sep s
    → NotHead sep (reverse s)
    → trim_matches sep (sep ∷ (s ++ sep ∷ [])) ≡ s
unfolding trim_matches
trim_matches-wrap sep [] h k =
    ap (trim_end_matches sep) (trim_start-cons sep (sep ∷ []) ∙ trim_start-cons sep [])
trim_matches-wrap sep (c ∷ s) h k =
    ap (trim_end_matches sep)
      (trim_start-cons sep (c ∷ s ++ sep ∷ []) ∙ trim_start_of_NotHead sep (c ∷ s ++ sep ∷ []) h)
    ∙ trim_end-snoc sep (c ∷ s) k

-- A text between two characters that are no whitespace is not trimmed.
pub trim-wrap :
    (c : ℕ) (s : Text) → is_whitespace c ≡ false → trim (c ∷ (s ++ c ∷ [])) ≡ c ∷ (s ++ c ∷ [])
trim-wrap c s h =
    trim-NotSpaceHead (c ∷ (s ++ c ∷ [])) h
      (subst NotSpaceHead (sym (reverse-append (c ∷ s) (c ∷ []))) h)
