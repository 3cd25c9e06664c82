-- ===== src/Message/Materialize/Laws.antt =====
-- When a body materializes, and what it is then.
use rs2_runtime.Common.{
  ℕ, ◌+◌, ◌≤◌, ◌≡◌, ◌↔◌, refl, Option, none, some, List, [], ◌∷◌, ◌++◌, ltb, length, arith,
  Bool-cases, inl, inr, length-append, ◌∙◌, Option-cases,
}
use mathlib.Core.List.{append-nil, append_assoc}
use rs2_runtime.Error.{Result, ok, err}
use rs2_runtime.Message.{Body, Bytes, Chunk, chunk, io_error, Payload, bytes, stream}
use rs2_runtime.Message.Materialize.{gather, over, settle, of_payload, materialize}

-- The bytes that a stream carries, if no poll fails.
abbrev pub joined : List Chunk → Option Bytes
joined [] = some []
joined (io_error e ∷ cs) = none
joined (chunk b ∷ cs) = elim (joined cs) [ none ↦ none | some r ↦ some (b ++ r) ]

abbrev pub content : Payload → Option Bytes
content (bytes b) = some b
content (stream cs) = joined cs

-- A stream whose declared size is above the limit is refused before it is read.
abbrev pub Admitted : ℕ → Body → Payload → Type 0
Admitted most body (bytes b) = Unit
Admitted most body (stream cs) = over most body.size ≡ none

gather_sound :
    (most : ℕ) (buf : Bytes) (cs : List Chunk) (b : Bytes)
    → (gather most buf cs).1 ≡ ok b
    → length buf ≤ most
    → (r : Bytes) × (joined cs ≡ some r) × (b ≡ buf ++ r) × (length b ≤ most)
unfolding gather
gather_sound most buf [] b e h = ([], refl, ground (arith, append-nil buf), ground arith)
gather_sound most buf (io_error x ∷ cs) b e h = absurd (ground arith)
gather_sound most buf (chunk c ∷ cs) b e h = elim (Bool-cases (ltb most (length buf + length c))) [
  | inl big ↦ absurd (ground arith)
  | inr fits ↦
      let (r, j, q, l) =
        gather_sound most (buf ++ c) cs b (ground arith) (ground (arith, length-append buf c)) in
      (c ++ r, ground arith, q ∙ append_assoc buf c r, l)
]

gather_complete :
    (most : ℕ) (buf : Bytes) (cs : List Chunk) (r : Bytes)
    → joined cs ≡ some r
    → length (buf ++ r) ≤ most
    → (gather most buf cs).1 ≡ ok (buf ++ r)
unfolding gather
gather_complete most buf [] r j h = ground (arith, append-nil buf)
gather_complete most buf (io_error x ∷ cs) r j h = absurd (ground arith)
gather_complete most buf (chunk c ∷ cs) r j h = elim (Option-cases (joined cs)) [
  | inl broken ↦ absurd (ground arith)
  | inr (t, whole) ↦
      let q : r ≡ c ++ t = ground arith in
      ground (
        arith,
        q,
        append_assoc buf c t,
        length-append buf (c ++ t),
        length-append c t,
        gather_complete most (buf ++ c) cs t whole,
      )
]

module _ (most : ℕ) (body : Body) where
  settle-eq-ok :
      (g : List Chunk × Result Bytes) (b : Bytes) → (settle most body g).1 ≡ ok b → g.1 ≡ ok b
  settle-eq-ok (cs, ok a) b e = ground arith
  settle-eq-ok (cs, err x) b e = ground arith

  settle_of_ok :
      (g : List Chunk × Result Bytes) (b : Bytes)
      → g.1 ≡ ok b
      → length b ≤ most
      → (settle most body g).1 ≡ ok b
  settle_of_ok (cs, ok a) b e h =
      let same : a ≡ b = ground arith in
      let short : length a ≤ most = rw same h in ground (arith, same, short)
  settle_of_ok (cs, err x) b e h = ground arith

  of_payload_iff :
      (p : Payload) (b : Bytes)
      → ((of_payload most body p).1 ≡ ok b)
        ↔ ((content p ≡ some b) × (length b ≤ most) × Admitted most body p)
  of_payload_iff (bytes a) b = (
    λ e. ground arith,
    λ h.
        let same : a ≡ b = ground arith in
        let short : length a ≤ most = rw same (h.1) in ground (arith, same, short),
  )
  of_payload_iff (stream cs) b = elim (Option-cases (over most body.size)) [
    | inr (size, e) ↦ rw (e, of_payload) (λ h. ground arith, λ h. ground arith)
    | inl e ↦
        rw (e, of_payload)
          (
            λ h.
                let (r, j, q, l) =
                  gather_sound most [] cs b (settle-eq-ok (gather most [] cs) b h) (omega arith) in
                (rw q j, l, refl),
            λ (j, l, _). settle_of_ok (gather most [] cs) b (gather_complete most [] cs b j l) l,
          )
  ]

  -- A body materializes to some bytes exactly when they are what it carries, all of it delivered,
  -- are within the limit, and a stream declares no size above the limit.
  pub materialize_iff :
      (b : Bytes)
      → ((materialize most body).1 ≡ ok b)
        ↔ ((content body.payload ≡ some b) × (length b ≤ most) × Admitted most body body.payload)
  unfolding materialize
  materialize_iff b = of_payload_iff body.payload b
