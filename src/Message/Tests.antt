-- ===== src/Message/Tests.antt =====
-- A streamed body and a media type with a schema, and the theorems at them.
use rs2_runtime.Common.{ℕ, ◌≤◌, ◌≡◌, ◌↔◌, refl, none, some, [], ◌∷◌, length}
use rs2_runtime.Common.Text.{lit, texts}
use rs2_runtime.Message.MediaTypes.{parse, schema_of}
use rs2_runtime.Error.{ok}
use rs2_runtime.Message.{MediaType, Body, stream, chunk, ephemeral}
use rs2_runtime.Message.Materialize.{materialize}
use rs2_runtime.Message.Materialize.Laws.{content, Admitted, materialize_iff}

abbrev upload : Body
upload = record {
  payload = stream (chunk (1 ∷ 2 ∷ []) ∷ chunk (3 ∷ []) ∷ []);
  media_type = record { essence = lit "text/plain"; schema = none };
  size = none;
  last_modified = none;
  provenance = ephemeral;
}

materialize_iff_example : ((materialize 3 upload).1 ≡ ok (1 ∷ 2 ∷ 3 ∷ [])) ↔ (
    (content upload.payload ≡ some (1 ∷ 2 ∷ 3 ∷ []))
    × (length {A = ℕ} (1 ∷ 2 ∷ 3 ∷ []) ≤ 3)
    × Admitted 3 upload upload.payload)
materialize_iff_example = materialize_iff 3 upload (1 ∷ 2 ∷ 3 ∷ [])

abbrev with_schema : MediaType
with_schema = record { essence = lit "application/json"; schema = some (lit "http://s/a.json") }

parse_params :
    parse (lit "Application/JSON ; charset=utf-8; SCHEMA = \"http://s/a.json\"") ≡ with_schema
unfolding texts parse schema_of
parse_params = refl
