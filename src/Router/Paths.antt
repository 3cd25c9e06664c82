-- ===== src/Router/Paths.antt =====
-- What an accepted path cannot do.
use rs2_runtime.Common.{
  ◌≡◌, ◌≢◌, refl, sym, ◌∙◌, inl, inr, Bool, true, false, List, [], ◌∷◌, ◌++◌, All, any-eq-false,
  Bool-cases, if◌then◌else◌, arith, ◌||◌, ◌==◌, ap,
}
use mathlib.Core.Bool.{false≢true}
use mathlib.Core.List.{append_assoc}
use rs2_runtime.Common.Text.{Text, lit, text_eq, text_eq_iff, split, is_empty, is_control, texts}
use rs2_runtime.Error.{Result, ok, err, RsError, ◌>>◌}
use rs2_runtime.Router.{first_fault, faults, check_candidate, validate_path, is_dots, is_drive}

-- How a file system walks the segments of a path from a directory, whose own segments are on a
-- stack, the last one at its head: the empty segment and "." stay, ".." goes up.
abbrev pub up : List Text → List Text
up [] = []
up (d ∷ ds) = ds

abbrev pub visit : List Text → Text → List Text
visit stack seg =
    if is_empty seg || text_eq seg (lit ".")
    then stack
    else if text_eq seg (lit "..")
    then up stack
    else seg ∷ stack

abbrev pub walk : List Text → List Text → List Text
walk stack [] = stack
walk stack (seg ∷ segs) = walk (visit stack seg) segs

-- No character is a control character or a backslash, no segment is a drive, and a walk from any
-- directory ends in that directory or below it.
pub record IsConfined (path : Text) : Type 0 where
  pub printable : All (λ c. (is_control c ≡ false) × (c ≢ 92)) path
  pub no_drive : All (λ seg. is_drive seg ≡ false) (split b'/' path)
  pub below :
      (root : List Text) → (inside : List Text) × (walk root (split b'/' path) ≡ inside ++ root)

visit-below :
    (root inside : List Text) (seg : Text)
    → is_dots seg ≡ false
    → (more : List Text) × (visit (inside ++ root) seg ≡ more ++ (inside ++ root))
visit-below root inside seg h = elim (Bool-cases (is_empty seg || text_eq seg (lit "."))) [
  | inl stays ↦ ([], rw stays refl)
  | inr moves ↦ elim (Bool-cases (text_eq seg (lit ".."))) [
    | inl dots ↦
        absurd
          (false≢true (sym h ∙ rw ((text_eq_iff seg (lit "..")).0 dots) (unfold texts in refl)))
    | inr name ↦ (seg ∷ [], rw (moves, name) refl)
  ]
]

walk-below :
    (root inside segs : List Text)
    → All (λ seg. is_dots seg ≡ false) segs
    → (more : List Text) × (walk (inside ++ root) segs ≡ more ++ root)
walk-below root inside [] h = (inside, refl)
walk-below root inside (seg ∷ segs) (h, hs) =
    let (m, e) = visit-below root inside seg h in
    let (n, f) = walk-below root (m ++ inside) segs hs in
    (n, ap (λ s. walk s segs) (e ∙ sym (append_assoc m inside root)) ∙ f)

first_fault-eq-ok :
    (tests : List (Bool × RsError)) → first_fault tests ≡ ok tt → All (λ t. t.0 ≡ false) tests
first_fault-eq-ok [] h = tt
first_fault-eq-ok ((true, e) ∷ tests) h = absurd (ground arith)
first_fault-eq-ok ((false, e) ∷ tests) h = (refl, first_fault-eq-ok tests h)

printable-All :
    (path : Text)
    → All (λ c. (c == 92) ≡ false) path
    → All (λ c. is_control c ≡ false) path
    → All (λ c. (is_control c ≡ false) × (c ≢ 92)) path
printable-All [] h k = tt
printable-All (c ∷ path) (h, hs) (k, ks) = ((k, ground arith), printable-All path hs ks)

check_candidate-IsConfined : (path : Text) → check_candidate path ≡ ok tt → IsConfined path
unfolding check_candidate
check_candidate-IsConfined path h =
    let (_, (slash, (control, (dots, (drive, _))))) = first_fault-eq-ok (faults path) h in
    record {
      printable =
          printable-All path (any-eq-false _ path slash) (any-eq-false is_control path control);
      no_drive = any-eq-false is_drive (split b'/' path) drive;
      below = λ root.
          walk-below root [] (split b'/' path) (any-eq-false is_dots (split b'/' path) dots);
    }

both : (a b : Result (Unit {0})) → (a >> b) ≡ ok tt → (a ≡ ok tt) × (b ≡ ok tt)
both (ok x) b h = (refl, h)
both (err e) b h = absurd (ground arith)

-- An accepted path has, as it was sent and as it is decoded, no control character, backslash or
-- drive, and a file system that walks it from any directory ends there or below.
pub validate_path-IsConfined :
    (decode : Text → Text) (path : Text)
    → validate_path decode path ≡ ok tt
    → IsConfined path × IsConfined (decode path)
unfolding validate_path
validate_path-IsConfined decode path h =
    let (a, b) = both (check_candidate path) (check_candidate (decode path)) h in
    (check_candidate-IsConfined path a, check_candidate-IsConfined (decode path) b)
