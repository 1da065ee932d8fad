-- ===== src/Data/Codecs.antt =====
-- Base64PayloadCodec and GzipPayloadCodec. zlib is a parameter: `compress2` at the best compression
-- into a buffer of `compressBound` bytes, and `uncompress` into a buffer of a given size; none
-- stands for a result other than Z_OK.
use temporal_cpp.Prelude.{
  ℕ, ◌<◌, ◌^◌, String, Bool, false, Option, none, some, List, Map, insert, bind, string_key, ◌==◌,
  if◌then◌else◌, length, to_string, stoull, ◌≡◌, refl, sym, ap, ◌∙◌, fun_ext, stoull-to_string,
  Bool-cases, Option-cases, inl, inr,
}
use temporal_cpp.History.{Payload}
use temporal_cpp.Data.{PayloadCodec, erase_key}
use temporal_cpp.Data.Base64
use temporal_cpp.Data.Base64.RoundTrip.{AllBytes, decode-encode}

-- kCodecKey, kGzipCodecValue, kGzipLenKey
abbrev pub codec_key : String
codec_key = "codec"

abbrev pub gzip_codec_value : String
gzip_codec_value = "gzip"

abbrev pub gzip_len_key : String
gzip_len_key = "codec-gzip-len"

-- `it == end() || it->second != value`, negated.
abbrev pub marked : String → Payload → Bool
marked value payload = elim (payload.metadata codec_key) [ none ↦ false | some v ↦ v == value ]

unfoldable pub base64_encode : Payload → Option Payload
base64_encode payload = some (record {
  metadata = insert codec_key "base64" payload.metadata;
  content = Base64.encode payload.content;
})

unfoldable pub base64_decode : Payload → Option Payload
base64_decode payload =
    let out : Payload = record {
      metadata = erase_key codec_key payload.metadata;
      content = Base64.decode payload.content;
    } in
    if marked "base64" payload then some out else some payload

unfoldable pub base64_codec : PayloadCodec
unfolding base64_encode base64_decode
base64_codec = record { encode = base64_encode; decode = base64_decode }

pub record Zlib : Type 0 where
  pub compress : List ℕ → Option (List ℕ)
  pub uncompress : List ℕ → ℕ → Option (List ℕ)

-- What zlib documents: `uncompress` with room for the original gives it back.
pub record IsLossless (zlib : Zlib) : Type 0 where
  pub uncompress-compress :
      (bytes packed : List ℕ)
      → zlib.compress bytes ≡ some packed
      → zlib.uncompress packed (length bytes) ≡ some bytes

module _ (zlib : Zlib) where
  unfoldable pub gzip_encode : Payload → Option Payload
  gzip_encode payload = bind (zlib.compress payload.content) λ packed. some (record {
    metadata =
        insert codec_key gzip_codec_value
          (insert gzip_len_key (to_string (length payload.content)) payload.metadata);
    content = packed;
  })

  unfoldable pub gzip_decode : Payload → Option Payload
  gzip_decode payload =
      let inner = bind (payload.metadata gzip_len_key) λ text. bind (stoull text) λ original_len.
        bind (zlib.uncompress payload.content original_len) λ bytes. some (record {
          metadata = erase_key gzip_len_key (erase_key codec_key payload.metadata);
          content = bytes;
        }) in
      if marked gzip_codec_value payload then inner else some payload

  unfoldable pub gzip_codec : PayloadCodec
  unfolding gzip_encode gzip_decode
  gzip_codec = record { encode = gzip_encode; decode = gzip_decode }

abbrev pub payload_of : Map String String → List ℕ → Payload
payload_of metadata content = record { metadata = metadata; content = content }

-- A key that a map lacks can be put in and taken out.
pub erase_key-insert :
    (k v : String) (m : Map String String) → m k ≡ none → erase_key k (insert k v m) ≡ m
erase_key-insert k v m absent = fun_ext λ j. elim (Bool-cases (j == k)) [
  | inl e ↦ rw e (sym absent ∙ ap m (sym (string_key.equal_sound j k e)))
  | inr n ↦ rw n refl
]

-- Base64PayloadCodec gives back every payload of bytes that carries no "codec" metadata.
pub base64_codec-round_trip :
    (payload : Payload)
    → AllBytes payload.content
    → payload.metadata codec_key ≡ none
    → bind (base64_codec.encode payload) base64_codec.decode ≡ some payload
unfolding base64_codec base64_encode base64_decode
base64_codec-round_trip payload bytes fresh =
    let m = erase_key-insert codec_key "base64" payload.metadata fresh in
    let c = decode-encode payload.content bytes in
    ap (λ x. some (payload_of x (Base64.decode (Base64.encode payload.content)))) m
    ∙ ap (λ x. some (payload_of payload.metadata x)) c

-- What Encode makes of a payload that zlib packs.
abbrev pub gzipped : Payload → List ℕ → Payload
gzipped payload packed = record {
  metadata =
      insert codec_key gzip_codec_value
        (insert gzip_len_key (to_string (length payload.content)) payload.metadata);
  content = packed;
}

gzip_decode-gzipped :
    (zlib : Zlib) (payload : Payload) (packed : List ℕ)
    → length payload.content < 2 ^ 64
    → payload.metadata codec_key ≡ none
    → payload.metadata gzip_len_key ≡ none
    → zlib.uncompress packed (length payload.content) ≡ some payload.content
    → gzip_decode zlib (gzipped payload packed) ≡ some payload
unfolding gzip_decode
gzip_decode-gzipped zlib payload packed small no_codec no_len back =
    let with_len = insert gzip_len_key (to_string (length payload.content)) payload.metadata in
    let m₁ = erase_key-insert codec_key gzip_codec_value with_len no_codec in
    let m₂ =
      erase_key-insert gzip_len_key (to_string (length payload.content)) payload.metadata no_len in
    rw (stoull-to_string (length payload.content) small, back)
      (ap (λ x. some (payload_of (erase_key gzip_len_key x) payload.content)) m₁
        ∙ ap (λ x. some (payload_of x payload.content)) m₂)

-- GzipPayloadCodec gives back every payload, whose size is a size_t, that carries neither of its
-- keys, where zlib compresses it.
pub gzip_codec-round_trip :
    (zlib : Zlib)
    → IsLossless zlib
    → (payload packed : Payload) → length payload.content < 2 ^ 64
    → payload.metadata codec_key ≡ none
    → payload.metadata gzip_len_key ≡ none
    → gzip_encode zlib payload ≡ some packed
    → gzip_decode zlib packed ≡ some payload
unfolding gzip_encode
gzip_codec-round_trip zlib lossless payload packed small no_codec no_len e =
    elim (Option-cases (zlib.compress payload.content)) [
      | inl failed ↦ absurd cc
      | inr (bytes, ok) ↦
          let back = lossless.uncompress-compress payload.content bytes ok in
          let same : gzipped payload bytes ≡ packed = cc in
          ap (gzip_decode zlib) (sym same)
          ∙ gzip_decode-gzipped zlib payload bytes small no_codec no_len back
    ]
