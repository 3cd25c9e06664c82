-- ===== src/Router/Table/Routes.antt =====
-- Which mount a path is routed to.
use rs2_runtime.Common.{
  ◌≤◌, ◌≡◌, ◌↔◌, refl, sym, ap, ◌∙◌, ◌⊎◌, inl, inr, true, none, some, List, [], ◌∷◌, ◌++◌, In,
  arith, Option-cases, map, find-eq-some, find-eq-none, or-cases, subst, All-at, or_right,
  In-map_mono,
}
use mathlib.Core.List.{append-nil, append_assoc}
use mathlib.Core.Bool.{false≢true}
use rs2_runtime.Common.Text.{
  Text, lit, text_eq, text_eq_iff, text_eq_refl, is_empty, starts_with-eq-true, starts_with-append,
  byte_len,
}
use rs2_runtime.Common.Text.Pieces.{prefix_unique}
use rs2_runtime.Common.Sort.{find-IsSorted}
use rs2_runtime.Error.{ok}
use rs2_runtime.Router.{Mount, normalized, longer_first, new, matches, route}
use rs2_runtime.Router.Table.{Distinct-DistinctPaths, new_sound, new_table}

-- What is left of a path below a mount: nothing, or a slash and more.
abbrev pub AtBoundary : Text → Text → Type 0
AtBoundary base r = (base ≡ []) ⊎ (r ≡ []) ⊎ ((s : Text) × (r ≡ lit "/" ++ s))

-- The path is the mount's path or lies below it, at a segment boundary.
abbrev pub Below : Text → Mount → Type 0
Below path m = (r : Text) × (path ≡ m.base_path ++ r) × AtBoundary m.base_path r

is_empty→nil : (s : Text) → is_empty s ≡ true → s ≡ []
is_empty→nil [] h = refl
is_empty→nil (c ∷ s) h = cc

-- `matches` decides `Below`.
pub matches_iff : (path : Text) (m : Mount) → (matches path m ≡ true) ↔ Below path m
unfolding matches
matches_iff path m = (
  λ e. elim (or-cases (is_empty m.base_path) _ e) [
    | inl root ↦
        let q = is_empty→nil m.base_path root in (path, ap (λ (b : Text). b ++ path) (sym q), inl q)
    | inr rest ↦ elim (or-cases (text_eq path m.base_path) _ rest) [
      | inl same ↦
          ([], (text_eq_iff path m.base_path).0 same ∙ sym (append-nil m.base_path), inr (inl refl))
      | inr deeper ↦
          let (s, q) = starts_with-eq-true (m.base_path ++ lit "/") path deeper in
          (lit "/" ++ s, q ∙ append_assoc m.base_path (lit "/") s, inr (inr (s, refl)))
    ]
  ],
  λ (r, q, b). elim b [
    | inl root ↦ rw root refl
    | inr other ↦ or_right (is_empty m.base_path) (elim other [
      | inl none_left ↦
          rw (q ∙ ap (λ (t : Text). m.base_path ++ t) none_left ∙ append-nil m.base_path)
            (rw text_eq_refl refl)
      | inr (s, more) ↦ or_right (text_eq path m.base_path) (
          rw
            (q
              ∙ ap (λ (t : Text). m.base_path ++ t) more
              ∙ sym (append_assoc m.base_path (lit "/") s))
            (starts_with-append (m.base_path ++ lit "/") s))
    ])
  ],
)

-- The mount that a path is routed to matches it, and has the longest path of all that do.
abbrev pub IsLongest : List Mount → Text → Mount → Type 0
IsLongest ms path m =
    In m ms
    × Below path m
    × ((n : Mount) → In n ms → Below path n → byte_len n.base_path ≤ byte_len m.base_path)

module _ (mounts t : List Mount) (made : new mounts ≡ ok t) where
  -- A path is routed to a mount of the configuration that matches it at a segment boundary and
  -- has the longest path of all the mounts that do.
  pub route-IsLongest :
      (path : Text) (m : Mount) → route t path ≡ some m → IsLongest (map normalized mounts) path m
  unfolding route
  route-IsLongest path m e =
      let (hit, listed) = find-eq-some (matches path) t m e in
      let (same, sorted) = new_table mounts t made in
      (
        (same m).0 listed,
        (matches_iff path m).0 hit,
        λ n k b.
            elim (find-IsSorted longer_first (matches path) t m n sorted e ((same n).1 k)
              ((matches_iff path n).1 b)) [
                | inl q ↦
                    subst (λ (x : Mount). byte_len x.base_path ≤ byte_len m.base_path) q
                      (omega arith)
                | inr h ↦ ground arith
              ],
      )

  -- Any mount that matches a path as well as the routed one does is the routed one.
  longest_unique :
      (path : Text) (m n : Mount)
      → IsLongest (map normalized mounts) path m
      → IsLongest (map normalized mounts) path n
      → m ≡ n
  longest_unique path m n (i, (r, p, a), f) (j, (s, q, b), g) =
      Distinct-DistinctPaths (map normalized mounts) ((new_sound mounts t made).0) m n i j (
        prefix_unique m.base_path n.base_path r s (sym p ∙ q)
          (omega (arith, f n j (s, q, b), g m i (r, p, a))))

  pub route-none :
      (path : Text)
      → route t path ≡ none
      → (n : Mount) → In n (map normalized mounts)
      → ¬ Below path n
  unfolding route
  route-none path e n k b =
      let (same, sorted) = new_table mounts t made in
      false≢true (
        sym (All-at _ t n (find-eq-none (matches path) t e) ((same n).1 k))
        ∙ (matches_iff path n).1 b)

-- Two configurations with the same mounts route every path alike, in whatever order they list
-- them.
pub route_order :
    (xs ys t u : List Mount)
    → ((m : Mount) → In m xs ↔ In m ys)
    → new xs ≡ ok t
    → new ys ≡ ok u
    → (path : Text) → route t path ≡ route u path
route_order xs ys t u same made made' path =
    let fore = In-map_mono normalized xs ys (λ m. (same m).0) in
    let back = In-map_mono normalized ys xs (λ m. (same m).1) in
    elim (Option-cases (route t path)) [
      | inl lost ↦ elim (Option-cases (route u path)) [
        | inl lost' ↦ lost ∙ sym lost'
        | inr (n, found) ↦
            let (j, b, _) = route-IsLongest ys u made' path n found in
            absurd (route-none xs t made path lost n (back n j) b)
      ]
      | inr (m, found) ↦ elim (Option-cases (route u path)) [
        | inl lost ↦
            let (i, a, _) = route-IsLongest xs t made path m found in
            absurd (route-none ys u made' path lost m (fore m i) a)
        | inr (n, found') ↦
            let (j, b, g) = route-IsLongest ys u made' path n found' in
            found
            ∙ (ap some (
                  longest_unique xs t made path m n (route-IsLongest xs t made path m found)
                    (back n j, b, λ k l. g k (fore k l)))
                ∙ sym found')
      ]
    ]
