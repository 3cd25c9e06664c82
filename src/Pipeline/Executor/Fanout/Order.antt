-- ===== src/Pipeline/Executor/Fanout/Order.antt =====
-- The elements of a split are joined in their order, whatever order they complete in.
use rs2_runtime.Common.{
  ℕ, zero, suc, ◌≡◌, refl, sym, ap, ◌∙◌, false, Option, none, some, List, [], ◌∷◌, length, ltb,
  get_elem?,
}
use rs2_runtime.Common.Text.{Text}
use rs2_runtime.Common.Arrangement.{IsArrangement, IsAscending, in_order, added, sort_by-in_order}
use rs2_runtime.Json.{Value, Fields}
use rs2_runtime.Pipeline.Spec.{SpecParts, Steps}
use rs2_runtime.Pipeline.Executor.Base.{World, Executor, Place, Flow, gives, Msg, clone_with_body}
use rs2_runtime.Pipeline.Executor.Step.{Runner}
use rs2_runtime.Pipeline.Executor.Fanout.{
  Finished, name_before, message_of, any_panics, join, run_elements, named_results, exits,
  split_elements, concurrency_of,
}

module _ (w : World) (x : Executor (w.floats.F)) where
  -- A future gave this name and message.
  abbrev pub Gave : Finished w → Text × Msg w → Type 0
  Gave f a =
      (r : Fields × Flow (Msg w)) × (f.outcome.1 ≡ gives r)
      × ((f.finished_name, message_of r.1) ≡ a)

  -- All did.
  abbrev pub AllGave : List (Finished w) → List (Text × Msg w) → Type 0
  AllGave [] [] = Unit
  AllGave (f ∷ fs) (a ∷ as_) = Gave f a × AllGave fs as_
  AllGave _ _ = ⊥

  AllGave-length :
      (fs : List (Finished w)) (as_ : List (Text × Msg w)) → AllGave fs as_ → length fs ≡ length as_
  AllGave-length [] [] h = refl
  AllGave-length [] (a ∷ as_) h = absurd h
  AllGave-length (f ∷ fs) [] h = absurd h
  AllGave-length (f ∷ fs) (a ∷ as_) (h, hs) = ap suc (AllGave-length fs as_ hs)

  abbrev OptionGave : Option (Finished w) → Option (Text × Msg w) → Type 0
  OptionGave none none = Unit
  OptionGave (some f) (some a) = Gave f a
  OptionGave _ _ = ⊥

  AllGave-get_elem? :
      (fs : List (Finished w)) (as_ : List (Text × Msg w)) (i : ℕ)
      → AllGave fs as_
      → OptionGave (get_elem? fs i) (get_elem? as_ i)
  AllGave-get_elem? [] [] i h = tt
  AllGave-get_elem? [] (a ∷ as_) i h = absurd h
  AllGave-get_elem? (f ∷ fs) [] i h = absurd h
  AllGave-get_elem? (f ∷ fs) (a ∷ as_) zero (h, hs) = h
  AllGave-get_elem? (f ∷ fs) (a ∷ as_) (suc i) (h, hs) = AllGave-get_elem? fs as_ i hs

  added-AllGave :
      (o : Option (Finished w)) (p : Option (Text × Msg w)) (fs : List (Finished w))
      (as_ : List (Text × Msg w))
      → OptionGave o p
      → AllGave fs as_
      → AllGave (added o fs) (added p as_)
  added-AllGave none none fs as_ h hs = hs
  added-AllGave none (some a) fs as_ h hs = absurd h
  added-AllGave (some f) none fs as_ h hs = absurd h
  added-AllGave (some f) (some a) fs as_ h hs = (h, hs)

  in_order-AllGave :
      (is : List ℕ) (fs : List (Finished w)) (as_ : List (Text × Msg w))
      → AllGave fs as_
      → AllGave (in_order is fs) (in_order is as_)
  unfolding in_order
  in_order-AllGave [] fs as_ h = tt
  in_order-AllGave (i ∷ is) fs as_ h =
      added-AllGave (get_elem? fs i) (get_elem? as_ i) _ _ (AllGave-get_elem? fs as_ i h)
        (in_order-AllGave is fs as_ h)

  named_results-gives :
      (fs : List (Finished w)) (as_ : List (Text × Msg w))
      → AllGave fs as_
      → named_results w x fs ≡ gives as_
  unfolding named_results
  named_results-gives [] [] h = refl
  named_results-gives [] (a ∷ as_) h = absurd h
  named_results-gives (f ∷ fs) [] h = absurd h
  named_results-gives (f ∷ fs) (a ∷ as_) ((r, e, same), hs) =
      rw (e, named_results-gives fs as_ hs) (ap (λ b. gives (b ∷ as_)) same)

  any_panics-AllGave :
      (fs : List (Finished w)) (as_ : List (Text × Msg w)) → AllGave fs as_ → any_panics fs ≡ false
  any_panics-AllGave [] [] h = refl
  any_panics-AllGave [] (a ∷ as_) h = absurd h
  any_panics-AllGave (f ∷ fs) [] h = absurd h
  any_panics-AllGave (f ∷ fs) (a ∷ as_) ((r, e, same), hs) =
      rw (e, any_panics-AllGave fs as_ hs) refl

  run_elements-length :
      (nested : Runner w) (parts : SpecParts) (rest : Steps (w.floats.F)) (place : Place)
      (msg : Msg w) (vars : Fields) (i : ℕ) (es : List (Text × Value))
      → length (run_elements w x nested parts rest place msg vars i es) ≡ length es
  unfolding run_elements
  run_elements-length nested parts rest place msg vars i [] = refl
  run_elements-length nested parts rest place msg vars i (e ∷ es) =
      ap suc (run_elements-length nested parts rest place msg vars (suc i) es)

-- If the elements of a split are no more than the fan-out allows, the order of their completion
-- is an arrangement of them, each gives a message, and their names ascend for the comparison of
-- the split, then the split ends with the join of the messages in the order of the elements,
-- whatever the order of completion.
pub split_elements-order :
    (w : World) (x : Executor (w.floats.F)) (nested : Runner w) (parts : SpecParts)
    (rest : Steps (w.floats.F)) (place : Place) (msg : Msg w) (vars : Fields)
    (es : List (Text × Value)) (named : List (Text × Msg w))
    → ltb x.limits.max_fanout (length es) ≡ false
    → IsArrangement (length es) (w.completion (concurrency_of w x parts) place (length es))
    → AllGave w x (run_elements w x nested parts rest place msg vars 0 es) named
    → IsAscending (λ a b. name_before a.0 b.0) named
    → (split_elements w x nested parts rest place msg vars es).1
      ≡ exits w x vars (join w x named (clone_with_body msg none))
split_elements-order w x nested parts rest place msg vars es named few order h asc =
    let runs = run_elements w x nested parts rest place msg vars 0 es in
    let is = w.completion (concurrency_of w x parts) place (length es) in
    let len : length named ≡ length es =
      sym (AllGave-length w x runs named h)
      ∙ run_elements-length w x nested parts rest place msg vars 0 es in
    rw
      (
        few,
        any_panics-AllGave w x runs named h,
        named_results-gives w x (in_order is runs) (in_order is named)
            (in_order-AllGave w x is runs named h),
        sort_by-in_order (λ a b. name_before a.0 b.0) (length es) is named len order asc,
      )
      refl
