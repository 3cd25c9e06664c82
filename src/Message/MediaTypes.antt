-- ===== src/Message/MediaTypes.antt =====
-- rs2-core/src/message/media_type.rs: media types and their wire form.
use rs2_runtime.Common.{
  All-append, ◌≡◌, ◌≢◌, refl, ap, ◌∙◌, Bool, true, Option, none, some, List, [], ◌∷◌, ◌++◌, reverse,
  ◌||◌, ◌&&◌, any, All, if◌then◌else◌,
}
use rs2_runtime.Common.Text.{
  Text, lit, text_eq, split, split_once, trim, trim_matches, to_ascii_lowercase,
  eq_ignore_ascii_case, contains_str, starts_with, texts,
}
use rs2_runtime.Common.Text.Trim.{NotHead, trim-wrap, trim_matches-wrap}
use rs2_runtime.Common.Text.Pieces.{split_one, split_first, without}
use rs2_runtime.Message.{MediaType}

abbrev pub new : Text → MediaType
new essence = record { essence = to_ascii_lowercase (trim essence); schema = none }

-- A parameter of a `Content-Type`, where it names a schema.
unfoldable pub schema_of : Option (Text × Text) → Option Text → Option Text
schema_of none before = before
schema_of (some (name, value)) before =
    if eq_ignore_ascii_case (trim name) (lit "schema")
    then some (trim_matches b'"' (trim value))
    else before

abbrev pub schema_from : List Text → Option Text → Option Text
schema_from [] before = before
schema_from (param ∷ params) before = schema_from params (schema_of (split_once b'=' param) before)

abbrev pub of_parts : List Text → MediaType
of_parts [] = new (lit "application/octet-stream")
of_parts (essence ∷ params) = record {
  essence = to_ascii_lowercase (trim essence);
  schema = schema_from params none;
}

-- `MediaType::parse`.
unfoldable pub parse : Text → MediaType
parse header_value = of_parts (split b';' header_value)

abbrev pub with_param : Text → Option Text → Text
with_param essence none = essence
with_param essence (some schema) = essence ++ (b';' ∷ lit " schema=\"" ++ (schema ++ b'"' ∷ []))

-- `Display` of a media type.
unfoldable pub to_string : MediaType → Text
to_string mt = with_param mt.essence mt.schema

abbrev pub is_json : MediaType → Bool
is_json mt = contains_str (lit "/json") mt.essence || contains_str (lit "+json") mt.essence

abbrev pub text_types : List Text
text_types =
    lit "text/"
    ∷ lit "application/javascript"
    ∷ lit "application/typescript"
    ∷ lit "application/xml"
    ∷ lit "application/xhtml+xml"
    ∷ []

abbrev pub is_text : MediaType → Bool
is_text mt = any (λ t. starts_with t mt.essence) text_types

abbrev pub is_zip : MediaType → Bool
is_zip mt = starts_with (lit "application/") mt.essence && contains_str (lit "zip") mt.essence

abbrev pub is_dir : MediaType → Bool
is_dir mt = text_eq mt.essence (lit "application/vnd.rs2.dir+json")

-- A media type whose parts can stand in a header: the essence is in lower case, trimmed and has no
-- semicolon, and the schema has no semicolon and no quote at its ends.
abbrev pub HasPlainSchema : Option Text → Type 0
HasPlainSchema none = Unit
HasPlainSchema (some s) = All (λ c. c ≢ b';') s × NotHead b'"' s × NotHead b'"' (reverse s)

pub record IsPlain (mt : MediaType) : Type 0 where
  pub lower : to_ascii_lowercase mt.essence ≡ mt.essence
  pub trimmed : trim mt.essence ≡ mt.essence
  pub one : All (λ c. c ≢ b';') mt.essence
  pub schema : HasPlainSchema mt.schema

param-schema :
    (s : Text)
    → NotHead b'"' s
    → NotHead b'"' (reverse s)
    → schema_of (split_once b'=' (lit " schema=\"" ++ (s ++ b'"' ∷ []))) none ≡ some s
unfolding schema_of split_once
param-schema s h k =
    let named : eq_ignore_ascii_case (trim (lit " schema")) (lit "schema") ≡ true =
      unfold texts in refl in
    rw (named, trim-wrap b'"' s (unfold texts in refl), trim_matches-wrap b'"' s h k) refl

All-param :
    (s : Text) → All (λ c. c ≢ b';') s → All (λ c. c ≢ b';') (lit " schema=\"" ++ (s ++ b'"' ∷ []))
All-param s h =
    All-append (λ c. c ≢ b';') (lit " schema=\"") (s ++ b'"' ∷ [])
      (without b';' (lit " schema=\"") refl)
      (All-append (λ c. c ≢ b';') s (b'"' ∷ []) h (without b';' (b'"' ∷ []) refl))

parse-with_param :
    (essence : Text) (schema : Option Text)
    → to_ascii_lowercase (trim essence) ≡ essence
    → All (λ c. c ≢ b';') essence
    → HasPlainSchema schema
    → parse (with_param essence schema) ≡ record { essence = essence; schema = schema }
unfolding parse
parse-with_param essence none canonical one h = rw (split_one b';' essence one, canonical) refl
parse-with_param essence (some s) canonical one (h, k, j) =
    rw
      (
        split_first b';' essence (lit " schema=\"" ++ (s ++ b'"' ∷ [])) one,
        split_one b';' (lit " schema=\"" ++ (s ++ b'"' ∷ [])) (All-param s h),
        canonical,
        param-schema s k j,
      )
      refl

-- The wire form of a media type is read back as the media type: if the essence is in lower case,
-- trimmed and has no semicolon, and the schema has no semicolon and no quote at its ends.
pub parse-to_string : (mt : MediaType) → IsPlain mt → parse (to_string mt) ≡ mt
unfolding to_string
parse-to_string mt plain =
    parse-with_param mt.essence mt.schema (ap to_ascii_lowercase plain.trimmed ∙ plain.lower)
      plain.one plain.schema
