-- ===== src/Message/Url.antt =====
-- `MsgUrl` of rs2-core/src/message/message.rs.
use rs2_runtime.Common.{
  Bool, Option, none, some, List, [], ◌∷◌, keep, not, drop, length, if◌then◌else◌,
}
use rs2_runtime.Common.Text.{
  Text, lit, is_empty, text_eq, replace, trim_end_matches, split, split_once, ends_with,
}
use rs2_runtime.Message.{MsgUrl}

unfoldable pub parse : Text → MsgUrl
unfolding split_once
parse s = elim (split_once b'?' s) [
  | none ↦ record { path = s; query = []; base_path = []; service_path = s }
  | some (p, q) ↦ record { path = p; query = q; base_path = []; service_path = p }
]

unfoldable pub segments : Text → List Text
unfolding split
segments path = keep (λ s. not (is_empty s)) (split b'/' path)

abbrev pub service_segments : MsgUrl → List Text
service_segments url = segments url.service_path

abbrev pub base_segments : MsgUrl → List Text
base_segments url = segments url.base_path

unfoldable pub is_directory : MsgUrl → Bool
unfolding ends_with
is_directory url = ends_with (lit "/") url.service_path

-- `find_map` over the pairs of the query.
abbrev first_hit : Option Text → Option Text → Option Text
first_hit none rest = rest
first_hit (some v) rest = some v

abbrev pub pair_of : Text → Option (Text × Text) → Text × Text
pair_of pair none = (pair, [])
pair_of pair (some kv) = kv

abbrev value_of : (Text → Text) → Text → Text × Text → Option Text
value_of decode name (k, v) =
    if text_eq (decode k) name then some (replace (decode v) (lit "+") (lit " ")) else none

abbrev find_param : (Text → Text) → Text → List Text → Option Text
find_param decode name [] = none
find_param decode name (pair ∷ pairs) =
    let rest = find_param decode name pairs in
    first_hit (value_of decode name (pair_of pair (split_once b'=' pair))) rest

-- `decode` is percent decoding, with what is not UTF-8 replaced.
unfoldable pub query_param : (Text → Text) → MsgUrl → Text → Option Text
query_param decode url name = find_param decode name (split b'&' url.query)

-- The path after a mount prefix that it begins with; the source slices it by bytes.
abbrev pub or_slash : Text → Text
or_slash [] = lit "/"
or_slash (c ∷ s) = c ∷ s

unfoldable pub apply_mount : MsgUrl → Text → MsgUrl
apply_mount url base_path =
    let base = trim_end_matches b'/' base_path in
    record url { base_path = base; service_path = or_slash (drop (length base) url.path) }
