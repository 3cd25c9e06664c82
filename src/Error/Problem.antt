-- ===== src/Error/Problem.antt =====
-- `RsError::to_problem_json` of rs2-core/src/error.rs: the problem-details body of an error.
use rs2_runtime.Common.{
  ℕ, ◌≡◌, ◌≢◌, refl, ◌∙◌, inl, inr, Bool-cases, Option, none, some, ◌++◌, arith, if◌then◌else◌,
}
use rs2_runtime.Common.Text.{Text, lit, text_eq, text_eq_refl, text_eq_iff}
use rs2_runtime.Json.{
  Value, null, boolean, number, string, array, object, pos_int, Fields, end, field, lookup,
}
use rs2_runtime.Json
use rs2_runtime.Error.{RsError}

-- `Map::insert`: in place of the old value, or behind.
abbrev pub put : Text → Value → Fields → Fields
put k v end = field k v end
put k v (field j w fs) =
    let rest = put k v fs in if text_eq j k then field j v fs else field j w rest

abbrev pub put_all : Fields → Fields → Fields
put_all end fs = fs
put_all (field k v rest) fs = put_all rest (put k v fs)

abbrev pub put_retry : Option ℕ → Fields → Fields
put_retry none fs = fs
put_retry (some ms) fs = put (lit "retryAfterMs") (number (pos_int ms)) fs

abbrev pub put_extra : Option Value → Fields → Fields
put_extra (some (object extra)) fs = put_all extra fs
put_extra _ fs = fs

abbrev pub fixed : RsError → Text → Text → Fields
fixed e tenant trace_id = field (lit "type") (string (lit "https://rs2.dev/errors#" ++ e.code)) (
    field (lit "title") (string e.title) (
      field (lit "status") (number (pos_int e.status)) (
        field (lit "code") (string e.code) (
          field (lit "detail") (string e.detail) (
            field (lit "tenant") (string tenant) (
              field (lit "traceId") (string trace_id)
                (field (lit "retryable") (boolean e.retryable) end)))))))

unfoldable pub to_problem_json : RsError → Text → Text → Value
to_problem_json e tenant trace_id =
    object (put_extra e.extra (put_retry e.retry_after_ms (fixed e tenant trace_id)))

pub lookup-put_self : (k : Text) (v : Value) (fs : Fields) → lookup k (put k v fs) ≡ some v
unfolding lookup
lookup-put_self k v end = rw text_eq_refl refl
lookup-put_self k v (field i w fs) = elim (Bool-cases (text_eq i k)) [
  | inl same ↦ rw (same) (rw same refl)
  | inr other ↦ rw (other) (rw other (lookup-put_self k v fs))
]

pub lookup-put_ne :
    (k j : Text) (v : Value) (fs : Fields) → k ≢ j → lookup j (put k v fs) ≡ lookup j fs
unfolding lookup
lookup-put_ne k j v end h = ground (arith, text_eq_iff k j)
lookup-put_ne k j v (field i w fs) h =
    ground (arith, lookup-put_ne k j v fs h, text_eq_iff i k, text_eq_iff i j)

-- The extra fields do not name `k`.
lookup-put_all :
    (k : Text) (extra fs : Fields)
    → lookup k extra ≡ none
    → lookup k (put_all extra fs) ≡ lookup k fs
unfolding lookup
lookup-put_all k end fs h = refl
lookup-put_all k (field j v extra) fs h = elim (Bool-cases (text_eq j k)) [
  | inl same ↦ absurd (ground (arith, rw same at h))
  | inr other ↦
      lookup-put_all k extra (put j v fs) (rw other at h)
      ∙ lookup-put_ne j k v fs (λ e. absurd (ground (arith, other, (text_eq_iff j k).1 e)))
]

abbrev pub LeavesOut : Text → Option Value → Type 0
LeavesOut k (some (object extra)) = lookup k extra ≡ none
LeavesOut k _ = Unit

lookup-put_extra :
    (k : Text) (extra : Option Value) (fs : Fields)
    → LeavesOut k extra
    → lookup k (put_extra extra fs) ≡ lookup k fs
lookup-put_extra k none fs h = refl
lookup-put_extra k (some (object extra)) fs h = lookup-put_all k extra fs h
lookup-put_extra k (some null) fs h = refl
lookup-put_extra k (some (boolean b)) fs h = refl
lookup-put_extra k (some (number n)) fs h = refl
lookup-put_extra k (some (string s)) fs h = refl
lookup-put_extra k (some (array xs)) fs h = refl

lookup-put_retry :
    (k : Text) (o : Option ℕ) (fs : Fields)
    → lit "retryAfterMs" ≢ k
    → lookup k (put_retry o fs) ≡ lookup k fs
lookup-put_retry k none fs h = refl
lookup-put_retry k (some ms) fs h = lookup-put_ne (lit "retryAfterMs") k (number (pos_int ms)) fs h

-- A field of the problem body other than the retry delay has the value that the error gives it, if the
-- extra fields of the error do not name it.
pub to_problem_json-fixed :
    (e : RsError) (tenant trace_id k : Text)
    → lit "retryAfterMs" ≢ k
    → LeavesOut k e.extra
    → Json.get k (to_problem_json e tenant trace_id) ≡ lookup k (fixed e tenant trace_id)
unfolding to_problem_json Json.get
to_problem_json-fixed e tenant trace_id k h out =
    lookup-put_extra k e.extra _ out
    ∙ lookup-put_retry k e.retry_after_ms (fixed e tenant trace_id) h
