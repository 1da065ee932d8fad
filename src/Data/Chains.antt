-- ===== src/Data/Chains.antt =====
-- Chains of codecs.
use temporal_cpp.Prelude.{
  ℕ, ◌<◌, String, none, some, List, [], ◌∷◌, ◌≡◌, ◌≢◌, refl, sym, ap, ◌∙◌, Option-cases, inl, inr,
  Map, insert, length, to_string, stoull-to_string, arith, fun_ext, Bool-cases, false, ◌==◌,
  string_key, ◌^◌,
}
use temporal_cpp.History.{Payload}
use temporal_cpp.Data.{PayloadCodec, apply_codecs_encode, apply_codecs_decode, erase_key}
use temporal_cpp.Data.Codecs.{
  payload_of, marked, base64_codec, base64_encode, base64_decode, gzip_codec, gzip_encode,
  gzip_decode, gzipped, codec_key, gzip_len_key, gzip_codec_value, Zlib, IsLossless,
}
use temporal_cpp.Data.Base64
use temporal_cpp.Data.Base64.RoundTrip.{AllBytes, length-encode}

-- Each codec of the chain gives back the payload that the codecs before it hand it.
abbrev pub Composes : List PayloadCodec → Payload → Type 0
Composes [] payload = Unit
Composes (c ∷ cs) payload =
    (next : Payload)
    → c.encode payload ≡ some next
    → (c.decode next ≡ some payload) × Composes cs next

-- The decoding chain, which runs the codecs in reverse, gives back every payload that the encoding
-- chain encodes, when each codec gives back the payload it is handed.
pub apply_codecs_decode-encode :
    (codecs : List PayloadCodec) (payload encoded : Payload)
    → Composes codecs payload
    → apply_codecs_encode codecs payload ≡ some encoded
    → apply_codecs_decode codecs encoded ≡ some payload
unfolding apply_codecs_encode apply_codecs_decode
apply_codecs_decode-encode [] payload encoded h e = sym e
apply_codecs_decode-encode (c ∷ cs) payload encoded h e = elim (Option-cases (c.encode payload)) [
  | inl failed ↦ absurd cc
  | inr (next, ok) ↦
      let (back, rest) = h next ok in rw (apply_codecs_decode-encode cs next encoded rest cc) back
]

-- The payload with its text in base64.
abbrev pub as_base64 : Payload → Payload
as_base64 payload = record { metadata = payload.metadata; content = Base64.encode payload.content }

erase_both :
    (text : String) (m : Map String String)
    → m codec_key ≡ none
    → m gzip_len_key ≡ none
    → erase_key gzip_len_key (
        erase_key codec_key (
          insert codec_key gzip_codec_value
            (insert gzip_len_key text (insert codec_key "base64" m))))
      ≡ m
erase_both text m no_codec no_len = fun_ext λ j. elim (Bool-cases (j == gzip_len_key)) [
  | inl e ↦ rw e (sym no_len ∙ ap m (sym (string_key.equal_sound j gzip_len_key e)))
  | inr n ↦ elim (Bool-cases (j == codec_key)) [
    | inl e ↦ rw (n, e) (sym no_codec ∙ ap m (sym (string_key.equal_sound j codec_key e)))
    | inr k ↦ rw (n, k) refl
  ]
]

gzip_decode-base64 :
    (zlib : Zlib) (payload : Payload) (packed : List ℕ)
    → length (Base64.encode payload.content) < 2 ^ 64
    → payload.metadata codec_key ≡ none
    → payload.metadata gzip_len_key ≡ none
    → zlib.uncompress packed (length (Base64.encode payload.content))
      ≡ some (Base64.encode payload.content)
    → gzip_decode zlib (
        gzipped
          (record {
            metadata = insert codec_key "base64" payload.metadata;
            content = Base64.encode payload.content;
          })
          packed)
      ≡ some (as_base64 payload)
unfolding gzip_decode
gzip_decode-base64 zlib payload packed small no_codec no_len back =
    let text = Base64.encode payload.content in
    let m = erase_both (to_string (length text)) payload.metadata no_codec no_len in
    rw (stoull-to_string (length text) small, back) (ap (λ x. some (payload_of x text)) m)

base64_codec-absent :
    (payload : Payload) → payload.metadata codec_key ≡ none → base64_decode payload ≡ some payload
unfolding base64_decode
base64_codec-absent payload absent =
    let e : marked "base64" payload ≡ false = rw (absent, marked) refl in rw e refl

encode-longer :
    (payload : Payload)
    → AllBytes payload.content
    → 0 < length payload.content
    → as_base64 payload ≢ payload
encode-longer payload bytes some_text same =
    let l = length-encode payload.content bytes in
    let e : length (Base64.encode payload.content) ≡ length payload.content =
      ap (λ p. length p.content) same in
    absurd (omega arith)

-- The two bundled codecs do not compose: both keep their mark under the metadata key "codec", so
-- that after Base64PayloadCodec and then GzipPayloadCodec the decoding chain leaves the text in
-- base64, which is another payload unless it is empty. The payload starts without their keys, and
-- zlib is lossless and packs it.
pub bundled_codecs-collide :
    (zlib : Zlib)
    → IsLossless zlib
    → (payload encoded : Payload) → AllBytes payload.content
    → 0 < length payload.content
    → length (Base64.encode payload.content) < 2 ^ 64
    → payload.metadata codec_key ≡ none
    → payload.metadata gzip_len_key ≡ none
    → apply_codecs_encode (base64_codec ∷ gzip_codec zlib ∷ []) payload ≡ some encoded
    → (apply_codecs_decode (base64_codec ∷ gzip_codec zlib ∷ []) encoded ≡ some (as_base64 payload))
      × (as_base64 payload ≢ payload)
unfolding apply_codecs_encode apply_codecs_decode gzip_codec base64_codec gzip_encode base64_encode
bundled_codecs-collide zlib lossless payload encoded bytes some_text small no_codec no_len e =
    elim (Option-cases (zlib.compress (Base64.encode payload.content))) [
      | inl failed ↦ absurd cc
      | inr (packed, ok) ↦
          let back = lossless.uncompress-compress (Base64.encode payload.content) packed ok in
          let middle : Payload = record {
            metadata = insert codec_key "base64" payload.metadata;
            content = Base64.encode payload.content;
          } in
          let same : gzipped middle packed ≡ encoded = cc in
          let d =
            ap (gzip_decode zlib) (sym same)
            ∙ gzip_decode-base64 zlib payload packed small no_codec no_len back in
          (
            rw d (base64_codec-absent (as_base64 payload) no_codec),
            encode-longer payload bytes some_text,
          )
    ]
