-- ===== src/MemData/Records.antt =====
-- What a store gives back: the records that were put, and the pages of their keys.
use rs2_runtime.Common.{
  ℕ, zero, suc, ◌+◌, ◌≡◌, ◌≢◌, ◌⊎◌, refl, sym, ap, subst, inl, inr, some, List, [], ◌∷◌, ◌++◌,
  length, take, drop, Option-cases, Bool-cases, arith,
}
use rs2_runtime.Common.Text.{Text, text_eq, text_eq_iff, text_ne}
use rs2_runtime.Common.Tree.{lookup, insert, lookup-insert_self, lookup-insert_ne}
use rs2_runtime.Json.{Value}
use rs2_runtime.Error.{ok}
use rs2_runtime.Listing.{page_of}
use rs2_runtime.MemData.{
  Dataset, Store, no_dataset, or_default, find_dataset, update, get, put, list_keys, keys_of,
}

-- A dataset after a change of it, and any other dataset.
find_dataset-update_self :
    (t d : Text) (f : Dataset → Dataset) (st : Store)
    → find_dataset t d (update t d f st) ≡ some (f (or_default (find_dataset t d st) no_dataset))
unfolding find_dataset update
find_dataset-update_self t d f st = elim (Option-cases (lookup t st)) [
  | inl missing ↦ rw (lookup-insert_self t _ st, missing, lookup-insert_self d _ []) refl
  | inr (x, found) ↦ rw (lookup-insert_self t _ st, found, lookup-insert_self d _ x) refl
]

find_dataset-update_tenant :
    (t d u e : Text) (f : Dataset → Dataset) (st : Store)
    → t ≢ u
    → find_dataset u e (update t d f st) ≡ find_dataset u e st
unfolding find_dataset update
find_dataset-update_tenant t d u e f st ne = rw (lookup-insert_ne u t _ st ne) refl

find_dataset-update_dataset :
    (t d e : Text) (f : Dataset → Dataset) (st : Store)
    → d ≢ e
    → find_dataset t e (update t d f st) ≡ find_dataset t e st
unfolding find_dataset update
find_dataset-update_dataset t d e f st ne = elim (Option-cases (lookup t st)) [
  | inl missing ↦ rw (lookup-insert_self t _ st, missing, lookup-insert_ne e d _ [] ne) refl
  | inr (x, found) ↦ rw (lookup-insert_self t _ st, found, lookup-insert_ne e d _ x ne) refl
]

text-cases : (s t : Text) → (s ≡ t) ⊎ (s ≢ t)
text-cases s t = elim (Bool-cases (text_eq s t)) [
  | inl hit ↦ inl ((text_eq_iff s t).0 hit)
  | inr miss ↦ inr (text_ne s t miss)
]

module _ (t d k : Text) (v : Value) (st : Store) where
  abbrev stored : Dataset → Dataset
  stored ds = record ds { records = insert k v ds.records }

  get-put_self : get t d k ((put t d k v st).1) ≡ ok v
  unfolding get put
  get-put_self =
      rw
        (
          find_dataset-update_self t d stored st,
          lookup-insert_self k v ((or_default (find_dataset t d st) no_dataset).records),
        )
        refl

  get-put_tenant : (u e j : Text) → t ≢ u → get u e j ((put t d k v st).1) ≡ get u e j st
  unfolding get put
  get-put_tenant u e j ne = rw (find_dataset-update_tenant t d u e stored st ne) refl

  get-put_dataset : (e j : Text) → d ≢ e → get t e j ((put t d k v st).1) ≡ get t e j st
  unfolding get put
  get-put_dataset e j ne = rw (find_dataset-update_dataset t d e stored st ne) refl

  get-put_key : (j : Text) → k ≢ j → get t d j ((put t d k v st).1) ≡ get t d j st
  unfolding get put
  get-put_key j ne = elim (Option-cases (find_dataset t d st)) [
    | inl missing ↦
        rw (find_dataset-update_self t d stored st, missing, lookup-insert_ne j k v [] ne) refl
    | inr (x, found) ↦
        rw (find_dataset-update_self t d stored st, found, lookup-insert_ne j k v x.records ne) refl
  ]

  get-put_ne :
      (u e j : Text) → (t ≢ u) ⊎ ((d ≢ e) ⊎ (k ≢ j)) → get u e j ((put t d k v st).1) ≡ get u e j st
  get-put_ne u e j ne = elim (text-cases t u) [
    | inr other ↦ get-put_tenant u e j other
    | inl same ↦ elim (text-cases d e) [
      | inr other ↦
          subst (λ w. get w e j ((put t d k v st).1) ≡ get w e j st) same
            (get-put_dataset e j other)
      | inl alike ↦
          let differ : k ≢ j = ground arith in
          subst (λ w. get w e j ((put t d k v st).1) ≡ get w e j st) same
            (subst (λ w. get t w j ((put t d k v st).1) ≡ get t w j st) alike
              (get-put_key j differ))
    ]
  ]

-- A record that was put is given back, and every other record, of the dataset, of another dataset
-- or of another tenant, is what it was.
pub get-put :
    (t d k u e j : Text) (v : Value) (st : Store)
    → (get t d k ((put t d k v st).1) ≡ ok v)
      × ((t ≢ u) ⊎ ((d ≢ e) ⊎ (k ≢ j)) → get u e j ((put t d k v st).1) ≡ get u e j st)
get-put t d k u e j v st = (get-put_self t d k v st, get-put_ne t d k v st u e j)

drop-drop : {A : Type 0} (m n : ℕ) (xs : List A) → drop n (drop m xs) ≡ drop (m + n) xs
drop-drop zero n xs = let same : (0 + n) ≡ n = omega arith in rw same refl
drop-drop (suc m) zero [] = let same : (suc m + 0) ≡ suc m = omega arith in rw same refl
drop-drop (suc m) (suc n) [] =
    let same : (suc m + suc n) ≡ suc (m + suc n) = omega arith in rw same refl
drop-drop (suc m) n (x ∷ xs) =
    let same : (suc m + n) ≡ suc (m + n) = omega arith in rw same (drop-drop m n xs)

take-add : {A : Type 0} (m n : ℕ) (xs : List A) → take m xs ++ take n (drop m xs) ≡ take (m + n) xs
take-add zero n xs = let same : (0 + n) ≡ n = omega arith in rw same refl
take-add (suc m) zero [] = let same : (suc m + 0) ≡ suc m = omega arith in rw same refl
take-add (suc m) (suc n) [] =
    let same : (suc m + suc n) ≡ suc (m + suc n) = omega arith in rw same refl
take-add (suc m) n (x ∷ xs) =
    let same : (suc m + n) ≡ suc (m + n) = omega arith in
    rw same (ap (λ ys. x ∷ ys) (take-add m n xs))

page_of-append :
    {A : Type 0} (m n skipped : ℕ) (xs : List A)
    → page_of m skipped xs ++ page_of n (skipped + m) xs ≡ page_of (m + n) skipped xs
page_of-append m n skipped xs = rw (sym (drop-drop skipped m xs)) (take-add m n (drop skipped xs))

-- Two pages of keys, the second from the end of the first on, make up the page of both, with the
-- same total.
pub list_keys-append :
    (t d : Text) (m n skipped total total2 : ℕ) (first second : List Text) (st : Store)
    → list_keys t d m skipped st ≡ ok (first, total)
    → list_keys t d n (skipped + m) st ≡ ok (second, total2)
    → list_keys t d (m + n) skipped st ≡ ok (first ++ second, total)
unfolding list_keys
list_keys-append t d m n skipped total total2 first second st h k =
    elim (Option-cases (find_dataset t d st)) [
      | inl missing ↦ absurd (ground (arith, rw missing at h))
      | inr (ds, found) ↦
          let page : page_of m skipped (keys_of ds.records) ≡ first = cc (rw found at h) in
          let next : page_of n (skipped + m) (keys_of ds.records) ≡ second = cc (rw found at k) in
          let all_ : length ds.records ≡ total = cc (rw found at h) in
          rw (found, sym page, sym next, sym all_, page_of-append m n skipped (keys_of ds.records))
            refl
    ]
