-- ===== src/Message/Materialize.antt =====
-- `Body::materialize` of rs2-core/src/message/body.rs. A stream is the list of the results that its
-- polls give. `materialize` returns the body as it leaves it beside the result.
pub mod Laws
use rs2_runtime.Common.{
  ℕ, ◌+◌, Bool, false, Option, none, some, List, [], ◌∷◌, ◌++◌, ltb, length, if◌then◌else◌,
}
use rs2_runtime.Common.Text.{lit}
use rs2_runtime.Error.{Result, ok, err, limit_exceeded, internal}
use rs2_runtime.Message.{Body, Bytes, Chunk, chunk, io_error, Payload, bytes, stream, materialized}

-- The loop over the chunks, with the bytes gathered so far: what is left of the stream, and the
-- buffer or the error.
pub gather : ℕ → Bytes → List Chunk → List Chunk × Result Bytes
gather most buf [] = ([], ok buf)
gather most buf (io_error e ∷ cs) = (cs, err (internal (lit "body stream error: " ++ e)))
gather most buf (chunk b ∷ cs) =
    let rest = gather most (buf ++ b) cs in
    if ltb most (length buf + length b)
    then (cs, err (limit_exceeded (lit "materialized_body_bytes") (length buf + length b) most))
    else rest

-- The size that a body declares, where it is above the limit.
abbrev pub over : ℕ → Option ℕ → Option ℕ
over most none = none
over most (some size) = if ltb most size then some size else none

abbrev pub in_memory : ℕ → Body → Bytes → Body × Result Bytes
in_memory most body b =
    if ltb most (length b)
    then (body, err (limit_exceeded (lit "materialized_body_bytes") (length b) most))
    else (body, ok b)

abbrev pub settle : ℕ → Body → List Chunk × Result Bytes → Body × Result Bytes
settle most body (cs, err e) = (record body { payload = stream cs }, err e)
settle most body (cs, ok b) =
    in_memory most
      (record body { size = some (length b); payload = bytes b; provenance = materialized }) b

abbrev pub read : ℕ → Body → List Chunk → Option ℕ → Body × Result Bytes
read most body cs (some size) =
    (body, err (limit_exceeded (lit "materialized_body_bytes") size most))
read most body cs none = settle most body (gather most [] cs)

abbrev pub of_payload : ℕ → Body → Payload → Body × Result Bytes
of_payload most body (bytes b) = in_memory most body b
of_payload most body (stream cs) = read most body cs (over most body.size)

unfoldable pub materialize : ℕ → Body → Body × Result Bytes
materialize most body = of_payload most body body.payload
