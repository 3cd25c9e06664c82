-- ===== src/Wrapper/Cors/Credentials.antt =====
-- To whom the CORS policy gives credentials, and whose ambient credentials it refuses.
use rs2_runtime.Common.{
  subst, In, any-eq-true, any_of_In, [], ◌∷◌, ◌≡◌, ◌↔◌, ◌⊎◌, any, refl, sym, ap, ◌∙◌, inl, inr,
  Bool, true, false, ◌||◌, ◌&&◌, not, Option, none, some, arith, Bool-cases, if◌then◌else◌,
}
use rs2_runtime.Common.Text.{trim, eq_ignore_ascii_case, Text, lit, texts, text_ne}
use mathlib.Core.Bool.{false≢true}
use rs2_runtime.Json.{unwrap_or}
use rs2_runtime.Error.{Result, ok, err, RsError}
use rs2_runtime.Message.{
  Method, get, head, options, post, put, patch, delete, connect, trace, extension, Message,
  HeaderApi, header, set_header,
}
use rs2_runtime.Wrapper.Vary.{header-set_self, header-set_ne, header-append_ne}
use rs2_runtime.Wrapper.Cors.{
  same_host, is_websocket, host_port_of, CorsPolicy, is_same_origin, is_trusted, is_allowed,
  is_safe, is_websocket_upgrade, allow_credentials, allow_origin, exposed_headers, origin_matches,
  decorate, csrf_error, check_ambient_csrf,
}

abbrev gate : Bool → Bool → Bool → Bool → Bool → RsError → Result (Unit {0})
gate same trusted safe websocket ambient refusal =
    if same || trusted
    then ok tt
    else if (not safe || websocket) && ambient
    then err refusal
    else ok tt

csrf_gate :
    (same trusted safe websocket ambient : Bool) (refusal e : RsError)
    → (gate same trusted safe websocket ambient refusal ≡ err e) ↔ (
        (same ≡ false)
        × (trusted ≡ false)
        × ((safe ≡ false) ⊎ (websocket ≡ true))
        × (ambient ≡ true)
        × (e ≡ refusal))
csrf_gate true trusted safe websocket ambient refusal e = ground arith
csrf_gate false true safe websocket ambient refusal e = ground arith
csrf_gate false false false websocket false refusal e = ground arith
csrf_gate false false false websocket true refusal e =
    (λ h. (refl, refl, inl refl, refl, ground arith), λ (a, b, c, d, q). ap err (sym q))
csrf_gate false false true false ambient refusal e = ground arith
csrf_gate false false true true false refusal e = ground arith
csrf_gate false false true true true refusal e =
    (λ h. (refl, refl, inr refl, refl, ground arith), λ (a, b, c, d, q). ap err (sym q))

-- A method other than the three that only read.
abbrev pub MayChange : Method → Type 0
MayChange m = In m (get ∷ head ∷ options ∷ []) → ⊥

only_reads : (m : Method) → is_safe m ≡ false → In m (get ∷ head ∷ options ∷ []) → ⊥
only_reads m e (inl same) = false≢true (sym e ∙ ap is_safe same)
only_reads m e (inr (inl same)) = false≢true (sym e ∙ ap is_safe same)
only_reads m e (inr (inr (inl same))) = false≢true (sym e ∙ ap is_safe same)
only_reads m e (inr (inr (inr n))) = elim n [ ]

is_safe_iff : (m : Method) → (is_safe m ≡ false) ↔ MayChange m
is_safe_iff get = (λ e. absurd (cc), λ h. absurd (h (inl refl)))
is_safe_iff head = (λ e. absurd (cc), λ h. absurd (h (inr (inl refl))))
is_safe_iff options = (λ e. absurd (cc), λ h. absurd (h (inr (inr (inl refl)))))
is_safe_iff post = (λ e m. only_reads post e m, λ h. refl)
is_safe_iff put = (λ e m. only_reads put e m, λ h. refl)
is_safe_iff patch = (λ e m. only_reads patch e m, λ h. refl)
is_safe_iff delete = (λ e m. only_reads delete e m, λ h. refl)
is_safe_iff connect = (λ e m. only_reads connect e m, λ h. refl)
is_safe_iff trace = (λ e m. only_reads trace e m, λ h. refl)
is_safe_iff (extension t) = (λ e m. only_reads (extension t) e m, λ h. refl)

some_injective : (a b : Text) → some a ≡ some b → a ≡ b
some_injective a b e = ap (λ o. unwrap_or o []) e

-- A test of an option that fails on `none`.
given_iff :
    (f : Text → Bool) (u : Text) → (f u ≡ true) ↔ ((v : Text) × (some u ≡ some v) × (f v ≡ true))
given_iff f u =
    (λ e. (u, refl, e), λ (v, same, k). subst (λ t. f t ≡ true) (sym (some_injective u v same)) k)

same_host_iff :
    (origin : Text) (request_host : Option Text)
    → (same_host origin request_host ≡ true) ↔ (
        (host : Text) × (request_host ≡ some host)
        × (eq_ignore_ascii_case (host_port_of origin) (trim host) ≡ true))
same_host_iff origin none = (λ e. absurd (cc), λ (u, e, k). absurd (cc))
same_host_iff origin (some host) =
    given_iff (λ h. eq_ignore_ascii_case (host_port_of origin) (trim h)) host

is_websocket_iff :
    (upgrade : Option Text)
    → (is_websocket upgrade ≡ true)
      ↔ ((u : Text) × (upgrade ≡ some u) × (eq_ignore_ascii_case (trim u) (lit "websocket") ≡ true))
is_websocket_iff none = (λ e. absurd (cc), λ (u, e, k). absurd (cc))
is_websocket_iff (some u) = given_iff (λ t. eq_ignore_ascii_case (trim t) (lit "websocket")) u

not_true : (b : Bool) → (b ≡ true → ⊥) → b ≡ false
not_true true h = absurd (h refl)
not_true false h = refl

module _ (api : HeaderApi) (policy : CorsPolicy) (origin : Text) (request_host : Option Text) where
  abbrev exposed : Message (api.Map) → Message (api.Map)
  exposed resp =
      set_header api (lit "access-control-expose-headers") exposed_headers
        (allow_origin api origin resp)

  exposed_credentials :
      (resp : Message (api.Map))
      → header api (lit "access-control-allow-credentials") (exposed resp)
        ≡ header api (lit "access-control-allow-credentials") resp
  exposed_credentials resp =
      header-set_ne api (lit "access-control-allow-credentials")
        (lit "access-control-expose-headers") exposed_headers (allow_origin api origin resp)
        (text_ne _ _ (unfold texts in refl))
      ∙ (header-append_ne api (lit "access-control-allow-credentials") (lit "vary") (lit "origin")
            (set_header api (lit "access-control-allow-origin") origin resp)
            (text_ne _ _ (unfold texts in refl))
          ∙ header-set_ne api (lit "access-control-allow-credentials")
              (lit "access-control-allow-origin") origin resp (text_ne _ _ (unfold texts in refl)))

  exposed_origin :
      (resp : Message (api.Map))
      → api.is_valid origin ≡ true
      → header api (lit "access-control-allow-origin") (exposed resp) ≡ some origin
  exposed_origin resp valid =
      header-set_ne api (lit "access-control-allow-origin") (lit "access-control-expose-headers")
        exposed_headers (allow_origin api origin resp) (text_ne _ _ (unfold texts in refl))
      ∙ (header-append_ne api (lit "access-control-allow-origin") (lit "vary") (lit "origin")
            (set_header api (lit "access-control-allow-origin") origin resp)
            (text_ne _ _ (unfold texts in refl))
          ∙ header-set_self api (lit "access-control-allow-origin") origin resp valid)

  -- A response with no such header gets credentials exactly if the origin is trusted and is
  -- another one than the host of the request, if `true` is a header value.
  pub decorate_credentials_iff :
      (resp : Message (api.Map))
      → api.is_valid (lit "true") ≡ true
      → header api (lit "access-control-allow-credentials") resp ≡ none
      → (header api
            (lit "access-control-allow-credentials")
            (decorate api policy resp origin request_host)
          ≡ some (lit "true"))
        ↔ ((is_same_origin origin request_host ≡ false) × (is_trusted policy origin ≡ true))
  unfolding decorate is_allowed
  decorate_credentials_iff resp valid before =
      let after = exposed_credentials resp ∙ before in
      let set =
        header-set_self api (lit "access-control-allow-credentials") (lit "true") (exposed resp)
          valid in
      elim (Bool-cases (is_same_origin origin request_host)) [
        | inl same ↦ rw same (ground (arith, before))
        | inr other ↦ elim (Bool-cases (is_trusted policy origin)) [
          | inl trusted ↦ rw (other, trusted) (λ h. (refl, refl), λ h. set)
          | inr plain ↦
              elim (Bool-cases (any (λ p. origin_matches p origin) policy.allowed_origins)) [
                | inl allowed ↦ rw (other, plain, allowed) (ground (arith, after))
                | inr denied ↦ rw (other, plain, denied) (ground (arith, before))
              ]
        ]
      ]

  allow_credentials_origin :
      (trusted : Bool) (resp : Message (api.Map))
      → header api (lit "access-control-allow-origin") (allow_credentials api trusted resp)
        ≡ header api (lit "access-control-allow-origin") resp
  allow_credentials_origin false resp = refl
  allow_credentials_origin true resp =
      header-set_ne api (lit "access-control-allow-origin") (lit "access-control-allow-credentials")
        (lit "true") resp (text_ne _ _ (unfold texts in refl))

  -- A response with no such header lets an origin read it exactly if the origin is allowed and is
  -- another one than the host of the request, if the origin is a header value; and it names no
  -- other.
  pub decorate_origin_iff :
      (resp : Message (api.Map)) (named : Text)
      → api.is_valid origin ≡ true
      → header api (lit "access-control-allow-origin") resp ≡ none
      → (header api
            (lit "access-control-allow-origin")
            (decorate api policy resp origin request_host)
          ≡ some named)
        ↔ ((named ≡ origin)
            × (is_same_origin origin request_host ≡ false)
            × (is_allowed policy origin ≡ true))
  unfolding decorate
  decorate_origin_iff resp named valid before =
      let after =
        allow_credentials_origin (is_trusted policy origin) (exposed resp)
        ∙ exposed_origin resp valid in
      elim (Bool-cases (is_same_origin origin request_host)) [
        | inl same ↦ rw same (ground (arith, before))
        | inr other ↦ elim (Bool-cases (is_allowed policy origin)) [
          | inl allowed ↦ rw (other, allowed) (ground (arith, after))
          | inr denied ↦ rw (other, denied) (ground (arith, before))
        ]
      ]

  -- The host of the request is that of the origin.
  abbrev pub IsOwnHost : Type 0
  IsOwnHost =
      (host : Text) × (request_host ≡ some host)
      × (eq_ignore_ascii_case (host_port_of origin) (trim host) ≡ true)

  -- A pattern of the trusted origins matches the origin.
  abbrev pub IsTrustedOrigin : Type 0
  IsTrustedOrigin = (p : Text) × In p policy.trusted_origins × (origin_matches p origin ≡ true)

  -- The request asks for a WebSocket.
  abbrev pub IsUpgrade : Message (api.Map) → Type 0
  IsUpgrade msg =
      (u : Text) × (header api (lit "upgrade") msg ≡ some u)
      × (eq_ignore_ascii_case (trim u) (lit "websocket") ≡ true)

  is_trusted_iff : (is_trusted policy origin ≡ true) ↔ IsTrustedOrigin
  unfolding is_trusted
  is_trusted_iff = (
    any-eq-true (λ p. origin_matches p origin) policy.trusted_origins,
    λ (p, m, h). any_of_In (λ p. origin_matches p origin) policy.trusted_origins p m h,
  )

  -- A request is refused for its ambient credential exactly if it has one; its host, where it
  -- names one, is not that of its origin, in any case of letters and without the spaces around
  -- it; no pattern of the trusted origins matches the origin; and its method is not GET, HEAD or
  -- OPTIONS, or its Upgrade header asks for a WebSocket.
  pub check_ambient_csrf_iff :
      (msg : Message (api.Map)) (ambient : Bool) (e : RsError)
      → (check_ambient_csrf api policy msg origin request_host ambient ≡ err e) ↔ (
          (IsOwnHost → ⊥)
          × (IsTrustedOrigin → ⊥)
          × (MayChange msg.method ⊎ IsUpgrade msg)
          × (ambient ≡ true)
          × (e ≡ csrf_error api origin))
  unfolding check_ambient_csrf is_same_origin is_websocket_upgrade
  check_ambient_csrf_iff msg ambient e =
      let (own, unown) = same_host_iff origin request_host in
      let (trusts, untrusts) = is_trusted_iff in
      let (upgrades, upgraded) = is_websocket_iff (header api (lit "upgrade") msg) in
      let (changes, unchanges) = is_safe_iff msg.method in
      let (to, from) =
        csrf_gate (is_same_origin origin request_host) (is_trusted policy origin)
          (is_safe msg.method) (is_websocket_upgrade api msg) ambient (csrf_error api origin) e in
      (
        λ h.
            let (a, b, c, d, k) = to h in
            (
              λ o. false≢true (sym a ∙ unown o),
              λ t. false≢true (sym b ∙ untrusts t),
              elim c [ inl m ↦ inl (changes m) | inr u ↦ inr (upgrades u) ],
              d,
              k,
            ),
        λ (a, b, c, d, k). from (
          not_true _ (λ o. a (own o)),
          not_true _ (λ t. b (trusts t)),
          elim c [ inl m ↦ inl (unchanges m) | inr u ↦ inr (upgraded u) ],
          d,
          k,
        ),
      )
