-- ===== src/Data.antt =====
-- src/converter/data_converter.cpp: the payload converters and codecs behind DataConverter, and the
-- payload store in memory. The JSON values and their text are nlohmann::json's, a parameter here.
-- A function that can throw returns an Option; none stands for the exception.
pub mod Base64
pub mod Codecs
pub mod Chains
pub mod Json
pub mod Storage
pub mod Files
use temporal_cpp.Prelude.{
  ℕ, String, Bool, true, false, Option, none, some, List, [], ◌∷◌, ◌++◌, Map, empty, insert,
  or_else, bind, string_key, ◌==◌, if◌then◌else◌, not,
}
use temporal_cpp.History.{Payload, no_payload}

-- metadata_keys::kEncoding, metadata_keys::kMessageType and the values of `encodings`.
abbrev pub encoding_key : String
encoding_key = "encoding"

abbrev pub message_type_key : String
message_type_key = "messageType"

abbrev pub null_encoding : String
null_encoding = "binary/null"

abbrev pub raw_encoding : String
raw_encoding = "binary/plain"

abbrev pub json_encoding : String
json_encoding = "json/plain"

abbrev pub proto_encoding : String
proto_encoding = "binary/protobuf"

-- `map::erase`
abbrev pub erase_key : String → Map String String → Map String String
erase_key k m j = if j == k then none else m j

-- What the converters call of nlohmann::json: `dump` throws on a text that is not UTF-8, `parse` on
-- one that is not JSON.
pub record JsonLibrary : Type 1 where
  pub Json : Type 0
  pub null : Json
  pub is_null : Json → Bool
  pub is_binary : Json → Bool
  pub get_binary : Json → List ℕ
  pub binary : List ℕ → Json
  pub dump : Json → Option (List ℕ)
  pub parse : List ℕ → Option Json

-- What a converter does with a value: it declines (`std::nullopt`, or false), gives a result, or
-- throws.
pub data Attempt {ℓ} (A : Type ℓ) : Type ℓ where
  declined : Attempt A
  converted : A → Attempt A
  thrown : Attempt A

abbrev or_throw {ℓ} : {A : Type ℓ} → Option A → Attempt A
or_throw none = thrown
or_throw (some a) = converted a

-- An interface PayloadConverter.
pub record PayloadConverter (Json : Type 0) : Type 0 where
  pub encoding : String
  pub to_payload : Json → Attempt Payload
  pub from_payload : Payload → Attempt Json

-- A payload whose only metadata is its encoding.
abbrev pub tagged : String → List ℕ → Payload
tagged encoding bytes = record { metadata = insert encoding_key encoding empty; content = bytes }

module _ (library : JsonLibrary) where
  unfoldable pub nil_converter : PayloadConverter library.Json
  nil_converter = record {
    encoding = null_encoding;
    to_payload =
        λ value. if library.is_null value then converted (tagged null_encoding []) else declined;
    from_payload = λ p. converted library.null;
  }

  unfoldable pub bytes_converter : PayloadConverter library.Json
  bytes_converter = record {
    encoding = raw_encoding;
    to_payload = λ value.
        if library.is_binary value
        then converted (tagged raw_encoding (library.get_binary value))
        else declined;
    from_payload = λ p. converted (library.binary p.content);
  }

  unfoldable pub json_converter : PayloadConverter library.Json
  json_converter = record {
    encoding = json_encoding;
    to_payload = λ value. elim (library.dump value) [
      | none ↦ thrown
      | some text ↦ converted (tagged json_encoding text)
    ];
    from_payload = λ p. or_throw (library.parse p.content);
  }

  unfoldable pub default_converters : List (PayloadConverter library.Json)
  unfolding nil_converter bytes_converter json_converter
  default_converters = nil_converter ∷ bytes_converter ∷ json_converter ∷ []

-- ToPayloadJson: the first converter that takes the value, or DataConverterError.
unfoldable pub to_payload_json :
    {Json : Type 0} → List (PayloadConverter Json) → Json → Option Payload
to_payload_json [] value = none
to_payload_json (c ∷ cs) value =
    let rest = to_payload_json cs value in
    elim (c.to_payload value) [ declined ↦ rest | converted p ↦ some p | thrown ↦ none ]

-- The encoding that a payload names.
abbrev pub encoding_of : Payload → String
encoding_of p = or_else "" (p.metadata encoding_key)

unfoldable pub from_payload_json :
    {Json : Type 0} → List (PayloadConverter Json) → Payload → Option Json
from_payload_json [] payload = none
from_payload_json (c ∷ cs) payload =
    let rest = from_payload_json cs payload in
    if c.encoding == encoding_of payload
    then elim (c.from_payload payload) [
      | declined ↦ rest
      | converted out ↦ some out
      | thrown ↦ none
    ]
    else rest

unfoldable pub to_proto_payload : List ℕ → String → Payload
to_proto_payload serialized message_type = record {
  metadata = insert message_type_key message_type (insert encoding_key proto_encoding empty);
  content = serialized;
}

unfoldable pub proto_bytes : Payload → Option (List ℕ)
proto_bytes payload =
    if not (encoding_of payload == proto_encoding) then none else some payload.content

-- An interface PayloadCodec.
pub record PayloadCodec : Type 0 where
  pub encode : Payload → Option Payload
  pub decode : Payload → Option Payload

unfoldable pub apply_codecs_encode : List PayloadCodec → Payload → Option Payload
apply_codecs_encode [] payload = some payload
apply_codecs_encode (c ∷ cs) payload = bind (c.encode payload) λ next. apply_codecs_encode cs next

-- From the last codec to the first.
unfoldable pub apply_codecs_decode : List PayloadCodec → Payload → Option Payload
apply_codecs_decode [] payload = some payload
apply_codecs_decode (c ∷ cs) payload = bind (apply_codecs_decode cs payload) λ inner. c.decode inner
