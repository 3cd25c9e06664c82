-- ===== src/Router/Mounting.antt =====
-- The split of a path at the mount that it is routed to: `matches` of the router, and `apply_mount` of
-- the message's URL.
use rs2_runtime.Common.{
  ◌≡◌, ◌⊎◌, refl, ap, ◌∙◌, inl, inr, true, [], ◌∷◌, ◌++◌, drop, length, or-cases, ◌||◌,
}
use rs2_runtime.Common.Text.{
  Text, lit, is_empty, text_eq, text_eq_iff, starts_with, starts_with-eq-true, trim_end_matches,
}
use rs2_runtime.Message.{MsgUrl}
use rs2_runtime.Message.Url.{apply_mount, or_slash}
use rs2_runtime.Router.{Mount, matches}

drop-append : (p r : Text) → drop (length p) (p ++ r) ≡ r
drop-append [] r = refl
drop-append (c ∷ p) r = drop-append p r

drop-all : (p : Text) → drop (length p) p ≡ []
drop-all [] = refl
drop-all (c ∷ p) = drop-all p

append_assoc : (a b c : Text) → (a ++ b) ++ c ≡ a ++ (b ++ c)
append_assoc [] b c = refl
append_assoc (x ∷ a) b c = ap (λ t. x ∷ t) (append_assoc a b c)

-- The two ways to split a path at a base.
unfoldable Splits : Text → Text → Type 0
Splits base path =
    ((below : Text) × (or_slash (drop (length base) path) ≡ lit "/" ++ below)
      × (path ≡ base ++ (lit "/" ++ below)))
    ⊎ ((or_slash (drop (length base) path) ≡ lit "/") × (path ≡ base))

or_slash-Splits :
    (base path rest : Text)
    → path ≡ lit "/" ++ rest
    → (is_empty base || (text_eq path base || starts_with (base ++ lit "/") path)) ≡ true
    → Splits base path
unfolding Splits
or_slash-Splits [] path rest rooted h = inl (rest, ap or_slash rooted, rooted)
or_slash-Splits (c ∷ base) path rest rooted h =
    elim (or-cases (text_eq path (c ∷ base)) (starts_with (c ∷ base ++ lit "/") path) h) [
      | inl same ↦
          let e = (text_eq_iff path (c ∷ base)).0 same in
          inr (
            ap (λ p. or_slash (drop (length (c ∷ base)) p)) e ∙ ap or_slash (drop-all (c ∷ base)),
            e,
          )
      | inr under ↦
          let (r, e) = starts_with-eq-true (c ∷ base ++ lit "/") path under in
          let split = e ∙ append_assoc (c ∷ base) (lit "/") r in
          inl (
            r,
            ap (λ p. or_slash (drop (length (c ∷ base)) p)) split
                ∙ ap or_slash (drop-append (c ∷ base) (lit "/" ++ r)),
            split,
          )
    ]

-- A path that begins with a slash and matches a mount, whose path ends in no slash, is the
-- mount's path followed by the service path, which begins with a slash; or it is the mount's
-- path, and the service path is a slash.
pub apply_mount-splits :
    (url : MsgUrl) (m : Mount) (rest : Text)
    → url.path ≡ lit "/" ++ rest
    → trim_end_matches b'/' m.base_path ≡ m.base_path
    → matches url.path m ≡ true
    → ((below : Text) × ((apply_mount url m.base_path).service_path ≡ lit "/" ++ below)
        × (url.path ≡ m.base_path ++ (lit "/" ++ below)))
      ⊎ (((apply_mount url m.base_path).service_path ≡ lit "/") × (url.path ≡ m.base_path))
unfolding apply_mount matches Splits
apply_mount-splits url m rest rooted clean h =
    rw clean (or_slash-Splits m.base_path url.path rest rooted h)
