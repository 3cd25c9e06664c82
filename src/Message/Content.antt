-- ===== src/Message/Content.antt =====
-- The content of a body as JSON or as a text, and the bodies made of those: `from_string`, `from_json`,
-- `as_json`, `as_any` and `as_raw_string` of rs2-core/src/message/body.rs. UTF-8, base64 and serde_json's
-- reading and writing are parameters.
use rs2_runtime.Common.{ℕ, Bool, Option, none, some, [], ◌∷◌, ◌++◌, length, if◌then◌else◌}
use rs2_runtime.Common.Text.{Text, lit, strip_prefix}
use rs2_runtime.Common.Fallible.{Fallible, failed, passed}
use rs2_runtime.Error.{Result, ok, err, bad_request}
use rs2_runtime.Json.{Value, string, unwrap_or}
use rs2_runtime.Message.{Body, Bytes, bytes, stream, MediaType, materialized}
use rs2_runtime.Message.MediaTypes.{new, is_json, is_text}
use rs2_runtime.Message.Materialize.{materialize}

pub record Codec : Type 0 where
  pub encode : Text → Bytes
  pub from_utf8 : Bytes → Option Text
  pub from_utf8_lossy : Bytes → Text
  pub base64 : Bytes → Text
  pub from_slice : Bytes → Fallible Value
  pub display : Value → Text

-- `Body::from_bytes` of a text.
abbrev pub from_string : (Text → Bytes) → Text → MediaType → Body
from_string encode t mt = record {
  payload = bytes (encode t);
  media_type = mt;
  size = some (length (encode t));
  last_modified = none;
  provenance = materialized;
}

abbrev pub is_stream : Body → Bool
is_stream b = elim b.payload [ bytes raw ↦ Bool.false | stream cs ↦ Bool.true ]

-- A leading byte order mark.
abbrev pub strip_bom : Bytes → Bytes
unfolding strip_prefix
strip_bom bs = unwrap_or (strip_prefix (239 ∷ 187 ∷ 191 ∷ []) bs) bs

module _ (codec : Codec) where
  abbrev pub from_json : Value → Body
  from_json v = from_string codec.encode (codec.display v) (new (lit "application/json"))

  abbrev pub parsed_json : Fallible Value → Result Value
  parsed_json (failed e) = err (bad_request (lit "invalid JSON body: " ++ e))
  parsed_json (passed v) = ok v

  abbrev pub read_json : Body × Result Bytes → Body × Result Value
  read_json (b, err e) = (b, err e)
  read_json (b, ok raw) = (b, parsed_json (codec.from_slice (strip_bom raw)))

  abbrev pub not_json : Body → Text
  not_json b = lit "expected a JSON body, got '" ++ (b.media_type.essence ++ lit "'")

  unfoldable pub as_json : ℕ → Body → Body × Result Value
  as_json most b =
      if is_json b.media_type
      then read_json (materialize most b)
      else (b, err (bad_request (not_json b)))

  abbrev pub text_or_base64 : Bytes → Option Text → Text
  text_or_base64 raw none = codec.base64 raw
  text_or_base64 raw (some t) = t

  abbrev pub read_any : MediaType → Body × Result Bytes → Body × Result Value
  read_any mt (b, err e) = (b, err e)
  read_any mt (b, ok raw) =
      let slice = strip_bom raw in
      if is_json mt
      then (b, parsed_json (codec.from_slice slice))
      else if is_text mt
      then (b, ok (string (text_or_base64 slice (codec.from_utf8 slice))))
      else (b, ok (string (codec.base64 slice)))

  unfoldable pub as_any : ℕ → Body → Body × Result Value
  as_any most b = read_any b.media_type (materialize most b)

  abbrev pub read_raw : Body × Result Bytes → Body × Result Text
  read_raw (b, err e) = (b, err e)
  read_raw (b, ok raw) = (b, ok (text_or_base64 raw (codec.from_utf8 raw)))

  unfoldable pub as_raw_string : ℕ → Body → Body × Result Text
  as_raw_string most b = read_raw (materialize most b)
