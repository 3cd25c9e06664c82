-- ===== src/Router/Table.antt =====
-- The mount table: which mount a path is routed to.
pub mod Routes
use rs2_runtime.Common.{
  ℕ, ◌≤◌, ◌≡◌, ◌≢◌, ◌↔◌, refl, sym, ap, ◌∙◌, ◌⊎◌, inl, inr, Bool, true, false, Option, none, some,
  List, [], ◌∷◌, ◌++◌, find, In, All, leb, arith, Bool-cases, Option-cases, map, any, if◌then◌else◌,
  find-eq-some, find-eq-none, or-cases, ◌||◌, subst, All-at, or_right,
}
use mathlib.Core.List.{append-nil, append_assoc}
use rs2_runtime.Common.Text.{
  Text, lit, text_eq, text_eq_iff, is_empty, contains, starts_with, starts_with-eq-true, byte_len,
  trim_matches,
}
use mathlib.Core.Bool.{false≢true}
use rs2_runtime.Common.Text.Pieces.{prefix_unique}
use rs2_runtime.Common.Text.Trim.{trim_matches-cons}
use rs2_runtime.Common.Sort.{sort_by, sort_by-In, sort_by-IsSorted, IsSorted}
use rs2_runtime.Error.{Result, ok, err, RsError, bad_request}
use rs2_runtime.Router.{
  Mount, normalize_base_path, normalized, longer_first, find_duplicate, table_of, new, rooted,
  matches, route, shown,
}

rooted_idem :
    (t : Text)
    → trim_matches b'/' (lit "/" ++ t) ≡ t
    → rooted (lit "/" ++ trim_matches b'/' (rooted (lit "/" ++ t))) ≡ rooted (lit "/" ++ t)
unfolding text_eq trim_matches
rooted_idem [] e = refl
rooted_idem (c ∷ s) e = ap (λ u. rooted (lit "/" ++ u)) e

-- Normalising a mount path a second time changes nothing.
pub normalize_idem :
    (path : Text) → normalize_base_path (normalize_base_path path) ≡ normalize_base_path path
unfolding normalize_base_path
normalize_idem path = rooted_idem (trim_matches b'/' path) (trim_matches-cons b'/' path)

-- The mounts of a table have different paths.
abbrev pub DistinctPaths : List Mount → Type 0
DistinctPaths ms = (m n : Mount) → In m ms → In n ms → m.base_path ≡ n.base_path → m ≡ n

abbrev pub Distinct : List Mount → Type 0
Distinct [] = Unit
Distinct (m ∷ ms) = All (λ n. n.base_path ≢ m.base_path) ms × Distinct ms

Distinct-DistinctPaths : (ms : List Mount) → Distinct ms → DistinctPaths ms
Distinct-DistinctPaths [] d m n i j e = elim i [ ]
Distinct-DistinctPaths (x ∷ ms) (f, d) m n (inl p) (inl q) e = p ∙ sym q
Distinct-DistinctPaths (x ∷ ms) (f, d) m n (inl p) (inr j) e =
    absurd (All-at _ ms n f j (sym e ∙ ap (λ (k : Mount). k.base_path) p))
Distinct-DistinctPaths (x ∷ ms) (f, d) m n (inr i) (inl q) e =
    absurd (All-at _ ms m f i (e ∙ ap (λ (k : Mount). k.base_path) q))
Distinct-DistinctPaths (x ∷ ms) (f, d) m n (inr i) (inr j) e = Distinct-DistinctPaths ms d m n i j e

contains_iff : (seen : List Text) (t : Text) → (contains seen t ≡ true) ↔ In t seen
contains_iff [] t = (λ e. absurd (cc), λ m. elim m [ ])
contains_iff (s ∷ seen) t = (
  λ e. elim (or-cases (text_eq s t) (contains seen t) e) [
    | inl h ↦ inl (sym ((text_eq_iff s t).0 h))
    | inr h ↦ inr ((contains_iff seen t).0 h)
  ],
  elim [
    | inl e ↦ rw ((text_eq_iff s t).1 (sym e)) refl
    | inr m ↦ or_right (text_eq s t) ((contains_iff seen t).1 m)
  ],
)

Fresh : List Text → List Mount → Type 0
Fresh seen ms = All (λ m. ¬ In m.base_path seen) ms

Fresh-cons :
    (t : Text) (seen : List Text) (ms : List Mount)
    → Fresh seen ms
    → All (λ n. n.base_path ≢ t) ms
    → Fresh (t ∷ seen) ms
unfolding Fresh
Fresh-cons t seen [] f d = tt
Fresh-cons t seen (m ∷ ms) (f, fs) (d, ds) =
    (elim [ inl e ↦ d e | inr k ↦ f k ], Fresh-cons t seen ms fs ds)

Fresh-uncons :
    (t : Text) (seen : List Text) (ms : List Mount)
    → Fresh (t ∷ seen) ms
    → Fresh seen ms × All (λ n. n.base_path ≢ t) ms
unfolding Fresh
Fresh-uncons t seen [] f = (tt, tt)
Fresh-uncons t seen (m ∷ ms) (f, fs) =
    let (a, b) = Fresh-uncons t seen ms fs in ((λ k. f (inr k), a), (λ e. f (inl e), b))

find_duplicate_iff :
    (seen : List Text) (ms : List Mount)
    → (find_duplicate seen ms ≡ none) ↔ (Distinct ms × Fresh seen ms)
unfolding find_duplicate Fresh
find_duplicate_iff seen [] = (λ e. (tt, tt), λ h. refl)
find_duplicate_iff seen (m ∷ ms) = elim (Bool-cases (contains seen m.base_path)) [
  | inl old ↦
      rw old (λ e. absurd (cc), λ (d, (f, fs)). absurd (f ((contains_iff seen m.base_path).0 old)))
  | inr new_one ↦
      let (to, from) = find_duplicate_iff (m.base_path ∷ seen) ms in
      rw new_one (
        λ e.
            let (d, f) = to e in
            let (fs, ds) = Fresh-uncons m.base_path seen ms f in
            ((ds, d), (λ k. false≢true (sym new_one ∙ (contains_iff seen m.base_path).1 k), fs)),
        λ ((ds, d), (f, fs)). from (d, Fresh-cons m.base_path seen ms fs ds),
      )
]

longer_total : (a b : Mount) → longer_first a b ≡ false → longer_first b a ≡ true
longer_total a b h = ground arith

longer_trans :
    (a b c : Mount) → longer_first a b ≡ true → longer_first b c ≡ true → longer_first a c ≡ true
longer_trans a b c h k = ground arith

module _ (mounts : List Mount) where
  new_sound :
      (t : List Mount)
      → new mounts ≡ ok t
      → Distinct (map normalized mounts) × (sort_by longer_first (map normalized mounts) ≡ t)
  unfolding new
  new_sound t e = elim (Option-cases (find_duplicate [] (map normalized mounts))) [
    | inl fresh ↦ (((find_duplicate_iff [] (map normalized mounts)).0 fresh).0, ground arith)
    | inr (path, dup) ↦ absurd (ground arith)
  ]

  nothing_seen : (ms : List Mount) → Fresh [] ms
  unfolding Fresh
  nothing_seen [] = tt
  nothing_seen (m ∷ ms) = (λ k. k, nothing_seen ms)

  -- A mount table is made exactly when the normalised paths of the mounts are all different.
  pub new_iff : ((t : List Mount) × (new mounts ≡ ok t)) ↔ Distinct (map normalized mounts)
  new_iff = (
    λ (t, e). (new_sound t e).0,
    λ d.
        let fresh =
          (find_duplicate_iff [] (map normalized mounts)).1
            (d, nothing_seen (map normalized mounts)) in
        (sort_by longer_first (map normalized mounts), unfold new in rw fresh),
  )

  -- A table has the normalised mounts, no more and no fewer, the longest path first.
  pub new_table :
      (t : List Mount)
      → new mounts ≡ ok t
      → ((m : Mount) → In m t ↔ In m (map normalized mounts)) × IsSorted longer_first t
  new_table t e =
      subst (λ s. ((m : Mount) → In m s ↔ In m (map normalized mounts)) × IsSorted longer_first s)
        ((new_sound t e).1)
        (
          λ m. sort_by-In longer_first m (map normalized mounts),
          sort_by-IsSorted longer_first longer_total longer_trans (map normalized mounts),
        )
