-- ===== src/Wrapper/Vary.antt =====
-- `append_header_value` of rs2-core/src/wrapper/mod.rs.
use rs2_runtime.Common.{
  ◌≡◌, ◌≢◌, refl, inl, inr, Bool-cases, Bool, true, Option, none, some, [], ◌∷◌, ◌++◌, any,
  if◌then◌else◌,
}
use rs2_runtime.Common.Text.{Text, lit, split, trim, eq_ignore_ascii_case}
use rs2_runtime.Message.{Message, HeaderApi, header, set_header}

-- The value is one of the items of the header already.
unfoldable pub has_item : Text → Text → Bool
has_item existing value =
    any (λ part. eq_ignore_ascii_case (trim part) (trim value)) (split b',' existing)

abbrev pub merged : Option Text → Text → Option Text
merged none value = some value
merged (some []) value = some value
merged (some (c ∷ s)) value =
    if has_item (c ∷ s) value then none else some (c ∷ s ++ (lit ", " ++ value))

module _ (api : HeaderApi) where
  abbrev pub set_merged : Text → Option Text → Message (api.Map) → Message (api.Map)
  set_merged name none resp = resp
  set_merged name (some value) resp = set_header api name value resp

  unfoldable pub append_header_value : Message (api.Map) → Text → Text → Message (api.Map)
  append_header_value resp name value = set_merged name (merged (header api name resp) value) resp

  pub header-set_self :
      (k v : Text) (msg : Message (api.Map))
      → api.is_valid v ≡ true
      → header api k (set_header api k v msg) ≡ some v
  header-set_self k v msg valid = rw valid (api.get-insert_self k v msg.headers valid)

  pub header-set_ne :
      (j k v : Text) (msg : Message (api.Map))
      → j ≢ k
      → header api j (set_header api k v msg) ≡ header api j msg
  header-set_ne j k v msg h = elim (Bool-cases (api.is_valid v)) [
    | inl valid ↦ rw valid (api.get-insert_ne j k v msg.headers h)
    | inr other ↦ rw other refl
  ]

  pub header-append_ne :
      (j k v : Text) (msg : Message (api.Map))
      → j ≢ k
      → header api j (append_header_value msg k v) ≡ header api j msg
  unfolding append_header_value
  header-append_ne j k v msg h = go (merged (header api k msg) v)
    where
      go : (o : Option Text) → header api j (set_merged k o msg) ≡ header api j msg
      go none = refl
      go (some w) = header-set_ne j k w msg h
