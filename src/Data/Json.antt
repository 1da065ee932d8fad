-- ===== src/Data/Json.antt =====
-- The default converters and JSON values.
use temporal_cpp.Prelude.{
  ℕ, true, some, List, ◌≡◌, refl, sym, ap, [], Bool-cases, Option-cases, inl, inr,
}
use temporal_cpp.History.{Payload}
use temporal_cpp.Data.{
  JsonLibrary, default_converters, to_payload_json, from_payload_json, nil_converter,
  bytes_converter, json_converter, tagged, null_encoding, raw_encoding, json_encoding,
}

-- A value that its text, or its bytes, stand for: the library parses what it dumps of the value
-- to it, the value made of the bytes of a binary one is the same, and null is the only null.
pub record IsFaithful (library : JsonLibrary) (value : library.Json) : Type 0 where
  pub null_is_null : library.is_null value ≡ true → library.null ≡ value
  pub binary-get_binary :
      library.is_binary value ≡ true → library.binary (library.get_binary value) ≡ value
  pub parse-dump :
      (text : List ℕ) → library.dump value ≡ some text → library.parse text ≡ some value

-- What the default converters make of a faithful value is read back as that value: the encoding that
-- a payload names selects the converter that wrote it.
pub from_payload_json-to_payload_json :
    (library : JsonLibrary) (value : library.Json) (payload : Payload)
    → IsFaithful library value
    → to_payload_json (default_converters library) value ≡ some payload
    → from_payload_json (default_converters library) payload ≡ some value
unfolding to_payload_json from_payload_json default_converters nil_converter bytes_converter
    json_converter
from_payload_json-to_payload_json library value payload faithful e =
    elim (Bool-cases (library.is_null value)) [
      | inl is_null ↦
          let same : tagged null_encoding [] ≡ payload = cc in
          rw (sym same) (ap some (faithful.null_is_null is_null))
      | inr not_null ↦ elim (Bool-cases (library.is_binary value)) [
        | inl binary ↦
            let same : tagged raw_encoding (library.get_binary value) ≡ payload = cc in
            rw (sym same) (ap some (faithful.binary-get_binary binary))
        | inr not_binary ↦ elim (Option-cases (library.dump value)) [
          | inl failed ↦ absurd cc
          | inr (text, ok) ↦
              let same : tagged json_encoding text ≡ payload = cc in
              rw (sym same) (rw (faithful.parse-dump text ok) refl)
        ]
      ]
    ]
