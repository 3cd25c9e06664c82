-- ===== src/Wrapper/Cors/Origins.antt =====
-- Which origins a wildcard pattern names.
use rs2_runtime.Common.{
  ℕ, ◌≡◌, ◌↔◌, ◌⊎◌, refl, sym, ap, ◌∙◌, inl, inr, Bool, true, false, some, List, [], ◌∷◌, ◌++◌,
  reverse, any, ◌==◌, Bool-cases, or-cases, or_right,
}
use rs2_runtime.Common.Text.{
  Text, lit, text_eq, text_eq_iff, split, strip_prefix, starts_with-eq-true, starts_with-append,
  ends_with, contains_str, to_ascii_lowercase, on_first,
}
use mathlib.Core.Bool.{false≢true}
use mathlib.Core.List.{reverse-append, reverse-reverse}
use rs2_runtime.Wrapper.Cors.{host_port_of, host_of, origin_matches, first_piece}

-- `ends_with` says that the suffix is the end.
pub ends_with_iff : (p s : Text) → (ends_with p s ≡ true) ↔ ((sub : Text) × (s ≡ sub ++ p))
unfolding ends_with
ends_with_iff p s = (
  λ h.
      let (r, e) = starts_with-eq-true (reverse p) (reverse s) h in
      (
        reverse r,
        sym (reverse-reverse s)
            ∙ (ap reverse e
                ∙ (reverse-append (reverse p) r ∙ ap (λ q. reverse r ++ q) (reverse-reverse p))),
      ),
  λ (sub, e). rw (e, reverse-append sub p) (starts_with-append (reverse p) (reverse sub)),
)

strip_wildcard : (suffix : Text) → strip_prefix (lit "*.") (lit "*." ++ suffix) ≡ some suffix
unfolding strip_prefix
strip_wildcard suffix = refl

-- A wildcard pattern matches an origin exactly when the host of the origin is the suffix of the
-- pattern or a sub-domain of it: the pattern in lower case is `*.` and the suffix, with no
-- scheme.
pub origin_matches_wildcard :
    (pattern origin suffix : Text)
    → to_ascii_lowercase pattern ≡ lit "*." ++ suffix
    → contains_str (lit "://") (lit "*." ++ suffix) ≡ false
    → (origin_matches pattern origin ≡ true) ↔ (
        (host_of (host_port_of (to_ascii_lowercase origin)) ≡ suffix)
        ⊎ ((sub : Text) × (host_of (host_port_of (to_ascii_lowercase origin))
              ≡ sub ++ b'.' ∷ suffix)))
unfolding origin_matches
origin_matches_wildcard pattern origin suffix lower plain =
    let host = host_of (host_port_of (to_ascii_lowercase origin)) in
    let star : text_eq (lit "*." ++ suffix) (lit "*") ≡ false = unfold text_eq in refl in
    rw (lower, star, plain, strip_wildcard suffix)
      (
        λ h. elim (or-cases (text_eq host suffix) (ends_with (b'.' ∷ suffix) host) h) [
          | inl same ↦ inl ((text_eq_iff host suffix).0 same)
          | inr below ↦ inr ((ends_with_iff (b'.' ∷ suffix) host).0 below)
        ],
        elim [
          | inl same ↦ rw ((text_eq_iff host suffix).1 same) refl
          | inr below ↦
              or_right (text_eq host suffix) ((ends_with_iff (b'.' ∷ suffix) host).1 below)
        ],
      )

first_piece-on_first :
    (sep c : ℕ) (d : Text) (ws : List Text)
    → (c == sep) ≡ false
    → ((e : Text) → any (λ b. b == sep) (first_piece ws e) ≡ false)
    → any (λ b. b == sep) (first_piece (on_first c ws) d) ≡ false
first_piece-on_first sep c d [] miss h = rw miss refl
first_piece-on_first sep c d (w ∷ ws) miss h = rw (miss, h d) refl

-- The first piece of a split has no separator.
first_piece-split :
    (sep : ℕ) (s d : Text) → any (λ c. c == sep) (first_piece (split sep s) d) ≡ false
unfolding split
first_piece-split sep [] d = refl
first_piece-split sep (c ∷ s) d = elim (Bool-cases (c == sep)) [
  | inl hit ↦ rw hit refl
  | inr miss ↦ rw miss (first_piece-on_first sep c d (split sep s) miss (first_piece-split sep s))
]

any_append_right : (p : ℕ → Bool) (s t : Text) → any p t ≡ true → any p (s ++ t) ≡ true
any_append_right p [] t h = h
any_append_right p (c ∷ s) t h = or_right (p c) (any_append_right p s t h)

-- A wildcard pattern with a port matches no origin.
pub origin_matches_port :
    (pattern origin suffix : Text)
    → to_ascii_lowercase pattern ≡ lit "*." ++ suffix
    → contains_str (lit "://") (lit "*." ++ suffix) ≡ false
    → any (λ c. c == b':') suffix ≡ true
    → origin_matches pattern origin ≡ false
origin_matches_port pattern origin suffix lower plain port =
    let host_port = host_port_of (to_ascii_lowercase origin) in
    let clean : any (λ c. c == b':') (host_of host_port) ≡ false =
      unfold host_of in first_piece-split b':' host_port host_port in
    elim (Bool-cases (origin_matches pattern origin)) [
      | inr differs ↦ differs
      | inl hit ↦ elim ((origin_matches_wildcard pattern origin suffix lower plain).0 hit) [
        | inl same ↦ absurd (false≢true (sym clean ∙ (ap (any (λ c. c == b':')) same ∙ port)))
        | inr (sub, e) ↦ absurd (
            false≢true (
              sym clean
              ∙ (ap (any (λ c. c == b':')) e
                  ∙ any_append_right (λ c. c == b':') sub (b'.' ∷ suffix) port)))
      ]
    ]
