-- ===== src/MemQuery/Selection.antt =====
-- The records that a query selects, and the rows that it makes of them.
use rs2_runtime.Common.{
  ◌≡◌, ◌≢◌, ◌↔◌, ◌⊎◌, ◌∙◌, refl, sym, subst, inl, inr, Bool, true, false, Option, some,
  Option-cases, List, [], ◌∷◌, map, In, if◌then◌else◌,
}
use rs2_runtime.Common.Text.{Text, lit}
use mathlib.Core.Bool.{false≢true}
use rs2_runtime.Json.{
  Value, null, boolean, number, string, array, object, Fields, end, field, lookup, unwrap_or,
}
use rs2_runtime.Error.{Result, ok, ◌>>=◌}
use rs2_runtime.Error.Bind.{ok-injective}
use rs2_runtime.Error.Problem.{put, lookup-put_self, lookup-put_ne}
use rs2_runtime.MemData.{scan_records}
use rs2_runtime.MemQuery.{QueryApi, field_at, clause_of, test, clause_matches, passes, with_key}
use rs2_runtime.MemQuery.Meets.{Operator, spelled, Meets, test-Meets}

-- The operator of each clause is a known one.
abbrev pub KnownClauses : Fields → Type 0
KnownClauses end = Unit
KnownClauses (field path clause clauses) =
    ((op : Operator) × ((clause_of clause).0 ≡ spelled op)) × KnownClauses clauses

module _ (api : QueryApi) where
  -- A record satisfies a clause, and all of them.
  abbrev pub MeetsClause : Value → Text → Value → Type 0
  MeetsClause r path clause =
      (op : Operator) × ((clause_of clause).0 ≡ spelled op)
      × Meets api op (field_at r path) (clause_of clause).1

  abbrev pub MeetsAll : Fields → Value → Type 0
  MeetsAll end r = Unit
  MeetsAll (field path clause clauses) r = MeetsClause r path clause × MeetsAll clauses r

  abbrev Decides : Result Bool → Type 0 → Type 0
  Decides r P = (b : Bool) × (r ≡ ok b) × ((b ≡ true) ↔ P)

  test-Decides :
      (op : Operator) (spelling : Text) (a : Option Value) (e : Value)
      → spelling ≡ spelled op
      → Decides (test api spelling a e) (Meets api op a e)
  test-Decides op spelling a e same =
      subst (λ t. Decides (test api t a e) (Meets api op a e)) (sym same) (test-Meets api op a e)

  clause_matches-Decides :
      (r : Value) (path : Text) (clause : Value)
      → (op : Operator) × ((clause_of clause).0 ≡ spelled op)
      → Decides (clause_matches api r path clause) (MeetsClause r path clause)
  unfolding clause_matches
  clause_matches-Decides r path clause (op, same) =
      let (b, e, (to, from)) =
        test-Decides op (clause_of clause).0 (field_at r path) (clause_of clause).1 same in
      (
        b,
        e,
        (
          λ h. (op, same, to h),
          λ (op', same', m).
              let (b', e', (to', from')) =
                test-Decides op' (clause_of clause).0 (field_at r path) (clause_of clause).1
                  same' in
              ok-injective b b' (sym e ∙ e') ∙ from' m,
        ),
      )

  bind-Decides :
      {P Q : Type 0} (r later : Result Bool)
      → Decides r P
      → Decides later Q
      → Decides (r >>= λ hit. if hit then later else ok false) (P × Q)
  bind-Decides r later (false, e, (to, from)) (c, k, iff) =
      rw e (false, refl, (λ h. absurd (cc), λ (p, q). from p))
  bind-Decides r later (true, e, (to, from)) (c, k, (into, out)) =
      rw e (c, k, (λ h. (to refl, into h), λ (p, q). out q))

  passes-Decides :
      (clauses : Fields) (r : Value)
      → KnownClauses clauses
      → Decides (passes api clauses r) (MeetsAll clauses r)
  unfolding passes
  passes-Decides end r known = (true, refl, (λ h. tt, λ h. refl))
  passes-Decides (field path clause clauses) r (op, known) =
      bind-Decides (clause_matches api r path clause) (passes api clauses r)
        (clause_matches-Decides r path clause op) (passes-Decides clauses r known)

  -- The records that satisfy all the clauses, in their order.
  abbrev pub Selected : Fields → List (Text × Value) → List (Text × Value) → Type 0
  Selected clauses [] kept = kept ≡ []
  Selected clauses (e ∷ es) kept =
      (MeetsAll clauses e.1
        × ((rest : List (Text × Value)) × (kept ≡ e ∷ rest) × Selected clauses es rest))
      ⊎ ((MeetsAll clauses e.1 → ⊥) × Selected clauses es kept)

  -- A scan of records that gives those which are selected.
  abbrev Selects : Fields → List (Text × Value) → Result (List (Text × Value)) → Type 0
  Selects clauses es out =
      (kept : List (Text × Value)) × (out ≡ ok kept)
      × Selected clauses es kept
      × ((e : Text × Value) → In e kept → In e es)

  step-Selects :
      (clauses : Fields) (e : Text × Value) (es : List (Text × Value)) (hit : Result Bool)
      (later : Result (List (Text × Value)))
      → Decides hit (MeetsAll clauses e.1)
      → Selects clauses es later
      → Selects clauses
          (e ∷ es)
          (hit >>= λ kept. later >>= λ out. ok (if kept then e ∷ out else out))
  step-Selects clauses e es hit later (true, h, (to, from)) (kept, same, chosen, among) =
      rw (h, same)
        (
          e ∷ kept,
          refl,
          inl (to refl, (kept, refl, chosen)),
          λ a m. elim m [ inl q ↦ inl q | inr n ↦ inr (among a n) ],
        )
  step-Selects clauses e es hit later (false, h, (to, from)) (kept, same, chosen, among) =
      rw (h, same) (kept, refl, inr (λ p. false≢true (from p), chosen), λ a m. inr (among a m))

  pub scan_records-Selects :
      (clauses : Fields) (es : List (Text × Value))
      → KnownClauses clauses
      → Selects clauses es (scan_records (passes api clauses) es)
  unfolding scan_records
  scan_records-Selects clauses [] known = ([], refl, refl, λ e m. m)
  scan_records-Selects clauses ((k, r) ∷ es) known =
      step-Selects clauses (k, r) es (passes api clauses r) (scan_records (passes api clauses) es)
        (passes-Decides clauses r known) (scan_records-Selects clauses es known)

  -- A row has the fields of its record, and its key under `_key`, if it has no such field.
  abbrev pub Keyed : Text × Value → Value → Type 0
  Keyed (key, object o) row =
      (o' : Fields) × (row ≡ object o')
      × (lookup (lit "_key") o' ≡ some (unwrap_or (lookup (lit "_key") o) (string key)))
      × ((j : Text) → j ≢ lit "_key" → lookup j o' ≡ lookup j o)
  Keyed (key, v) row = row ≡ v

  abbrev pub AllKeyed : List (Text × Value) → List Value → Type 0
  AllKeyed [] rows = rows ≡ []
  AllKeyed (e ∷ es) [] = ⊥
  AllKeyed (e ∷ es) (row ∷ rows) = Keyed e row × AllKeyed es rows

  with_key-Keyed : (e : Text × Value) → Keyed e (with_key api e)
  with_key-Keyed (key, null) = refl
  with_key-Keyed (key, boolean b) = refl
  with_key-Keyed (key, number n) = refl
  with_key-Keyed (key, string s) = refl
  with_key-Keyed (key, array items) = refl
  with_key-Keyed (key, object o) = elim (Option-cases (lookup (lit "_key") o)) [
    | inl e ↦ rw e (
      put (lit "_key") (string key) o,
      refl,
      lookup-put_self (lit "_key") (string key) o,
      λ j h. lookup-put_ne (lit "_key") j (string key) o (λ same. h (sym same)),
    )
    | inr (own, e) ↦ rw e (o, refl, e, λ j h. refl)
  ]

  pub map-AllKeyed : (es : List (Text × Value)) → AllKeyed es (map (with_key api) es)
  map-AllKeyed [] = refl
  map-AllKeyed (e ∷ es) = (with_key-Keyed e, map-AllKeyed es)
