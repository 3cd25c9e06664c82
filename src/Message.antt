-- ===== src/Message.antt =====
-- rs2-core/src/message/message.rs, body.rs and media_type.rs: messages, bodies and media types.
-- The header map is the `http` crate's and is reached through `HeaderApi`. The trace context and
-- the accepted socket of a message, which no modelled function reads, are left out.
pub mod Materialize
pub mod Content
pub mod Url
pub mod MediaTypes
pub mod Headers
mod Tests
use rs2_runtime.Common.{
  ℕ, suc, ◌≡◌, ◌≢◌, Bool, true, false, Option, none, some, List, [], ◌∷◌, leb, ◌&&◌, length,
  if◌then◌else◌,
}
use rs2_runtime.Common.Text.{Text, lit}
use rs2_runtime.Json.{Fields}

pub data Method : Type 0 where
  get head options post put patch delete connect trace : Method
  extension : Text → Method

-- The method's name, as a message prints it.
abbrev pub shown : Method → Text
shown get = lit "GET"
shown head = lit "HEAD"
shown options = lit "OPTIONS"
shown post = lit "POST"
shown put = lit "PUT"
shown patch = lit "PATCH"
shown delete = lit "DELETE"
shown connect = lit "CONNECT"
shown trace = lit "TRACE"
shown (extension name) = name

pub data Source : Type 0 where
  external internal system : Source

pub record Principal : Type 0 where
  pub id : Text
  pub roles : List Text
  pub kind : Text
  pub extra : Fields

pub record MsgUrl : Type 0 where
  pub path : Text
  pub query : Text
  pub base_path : Text
  pub service_path : Text

pub record MediaType : Type 0 where
  pub essence : Text
  pub schema : Option Text

abbrev pub Bytes : Type 0
Bytes = List ℕ

-- What the next poll of a body stream gives: a chunk, or an I/O error with its text.
pub data Chunk : Type 0 where
  chunk : Bytes → Chunk
  io_error : Text → Chunk

pub data Payload : Type 0 where
  bytes : Bytes → Payload
  stream : List Chunk → Payload

pub data Provenance : Type 0 where
  materialized ephemeral : Provenance
  replayable : Text → Text → Provenance

pub record Body : Type 0 where
  pub payload : Payload
  pub media_type : MediaType
  pub size : Option ℕ
  pub last_modified : Option ℕ
  pub provenance : Provenance

-- `HeaderMap` with `HeaderValue::from_str`: `is_valid` says which texts a header value can be, and
-- an insertion replaces the values of its name. `get` gives a value that is a text, as `to_str` does;
-- `contains_key` sees the others, too.
pub record HeaderApi : Type 1 where
  pub Map : Type 0
  pub empty : Map
  pub get : Text → Map → Option Text
  pub contains_key : Text → Map → Bool
  pub insert : Text → Text → Map → Map
  pub is_valid : Text → Bool
  pub get-empty : (k : Text) → get k empty ≡ none
  pub get-contains_key : (k v : Text) (m : Map) → get k m ≡ some v → contains_key k m ≡ true
  pub get-insert_self : (k v : Text) (m : Map) → is_valid v ≡ true → get k (insert k v m) ≡ some v
  pub get-insert_ne : (j k v : Text) (m : Map) → j ≢ k → get j (insert k v m) ≡ get j m

pub record Message (H : Type 0) : Type 0 where
  pub method : Method
  pub url : MsgUrl
  pub headers : H
  pub status : Option ℕ
  pub body : Option Body
  pub tenant : Text
  pub principal : Option Principal
  pub source : Source
  pub name : Option Text
  pub depth : ℕ

-- `Message::response`: the context of the request, with fresh headers.
abbrev pub response : (api : HeaderApi) → Message (api.Map) → ℕ → Option Body → Message (api.Map)
response api msg status body = record msg { headers = api.empty; status = some status; body = body }

-- `Message::header` and `Message::set_header`: a value that is no header value is not set.
abbrev pub header : (api : HeaderApi) → Text → Message (api.Map) → Option Text
header api k msg = api.get k msg.headers

abbrev pub set_header : (api : HeaderApi) → Text → Text → Message (api.Map) → Message (api.Map)
set_header api k v msg =
    if api.is_valid v then record msg { headers = api.insert k v msg.headers } else msg

-- `StatusCode::is_success`.
abbrev pub is_ok : {H : Type 0} → Message H → Bool
is_ok msg = elim msg.status [ none ↦ true | some s ↦ leb 200 s && leb s 299 ]
