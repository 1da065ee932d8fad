-- ===== src/Tests/Values.antt =====
-- Payloads, codecs, results and chains at concrete inputs.
use temporal_cpp.Prelude.{
  true, false, ℕ, zero, suc, ◌≤◌, ◌⊎◌, ◌==◌, ◌≡◌, ◌≢◌, refl, ap, sym, ◌∙◌, String, Option, none,
  some, List, [], ◌∷◌, insert, arith, bind, length, string_key, number_key, inl, inr, if◌then◌else◌,
}
use temporal_cpp.History.{Payload}
use temporal_cpp.Data.{
  PayloadCodec, apply_codecs_encode, apply_codecs_decode, tagged, json_encoding,
}
use temporal_cpp.Data.Base64
use temporal_cpp.Data.Base64.RoundTrip.{AllBytes, length-encode}
use temporal_cpp.Data.Codecs.{
  Zlib, IsLossless, base64_codec, base64_codec-round_trip, gzip_codec, gzip_encode, gzipped,
  codec_key,
}
use temporal_cpp.Data.Chains.{
  Composes, apply_codecs_decode-encode, bundled_codecs-collide, as_base64,
}
use temporal_cpp.Failures.{application, workflow_failure}
use temporal_cpp.Failures.Reported.{installed, as_read, decoded_by, result_payloads-reported}
use temporal_cpp.Client
use temporal_cpp.Client.{CloseEvent, result_payloads}
use temporal_cpp.Client.Results.{Closes, result_payloads-follows}

abbrev hi : List ℕ
hi = 104 ∷ 105 ∷ []

hi-AllBytes : AllBytes hi
hi-AllBytes = (omega arith, (omega arith, tt))

abbrev hi_payload : Payload
hi_payload = tagged json_encoding hi

base64_codec-round_trip_example :
    bind (base64_codec.encode hi_payload) base64_codec.decode ≡ some hi_payload
base64_codec-round_trip_example = base64_codec-round_trip hi_payload hi-AllBytes refl

-- A compression that puts a byte in front.
abbrev tail : List ℕ → ℕ → Option (List ℕ)
tail [] n = none
tail (x ∷ xs) n = some xs

abbrev framing : Zlib
framing = record { compress = λ bytes. some (0 ∷ bytes); uncompress = tail }

framing-IsLossless : IsLossless framing
framing-IsLossless = record {
  uncompress-compress = λ bytes packed e.
      let same : 0 ∷ bytes ≡ packed = cc in ap (λ p. tail p (length bytes)) (sym same);
}

abbrev framed : Payload → Payload
framed p = record p { content = 0 ∷ p.content }

abbrev unframed : Payload → Option Payload
unframed p = elim p.content [ [] ↦ none | x ∷ xs ↦ some (record p { content = xs }) ]

abbrev framing_codec : PayloadCodec
framing_codec = record { encode = λ p. some (framed p); decode = unframed }

abbrev hi_encoded : Payload
hi_encoded = framed (record {
  metadata = insert codec_key "base64" hi_payload.metadata;
  content = 97 ∷ 71 ∷ 107 ∷ 61 ∷ [];
})

hi-Composes : Composes (base64_codec ∷ framing_codec ∷ []) hi_payload
hi-Composes = λ next e. (
  ap (λ o. bind o base64_codec.decode) (sym e)
      ∙ base64_codec-round_trip hi_payload hi-AllBytes refl,
  λ last f. (let same : framed next ≡ last = cc in ap unframed (sym same), tt),
)

apply_codecs_decode-encode_example :
    apply_codecs_decode (base64_codec ∷ framing_codec ∷ []) hi_encoded ≡ some hi_payload
unfolding apply_codecs_encode base64_codec Base64.encode
apply_codecs_decode-encode_example =
    apply_codecs_decode-encode (base64_codec ∷ framing_codec ∷ []) hi_payload hi_encoded hi-Composes
      refl

abbrev hi_zipped : Payload
hi_zipped =
    gzipped
      (record {
        metadata = insert codec_key "base64" hi_payload.metadata;
        content = Base64.encode hi;
      })
      (0 ∷ Base64.encode hi)

bundled_codecs-collide_example :
    (apply_codecs_decode (base64_codec ∷ gzip_codec framing ∷ []) hi_zipped
      ≡ some (as_base64 hi_payload))
    × (as_base64 hi_payload ≢ hi_payload)
unfolding apply_codecs_encode base64_codec gzip_codec gzip_encode
bundled_codecs-collide_example =
    bundled_codecs-collide framing framing-IsLossless hi_payload hi_zipped hi-AllBytes (omega arith)
      (rw (length-encode hi hi-AllBytes) (omega arith)) refl refl refl

abbrev close_of : String → CloseEvent
close_of run_id =
    if run_id == "r1" then Client.continued_as_new "r2" else Client.completed (hi_payload ∷ [])

-- The first long poll comes back empty.
abbrev slow_server : (String → CloseEvent) → ℕ → String → Option (List CloseEvent)
slow_server close zero run_id = some []
slow_server close (suc n) run_id = some (close run_id ∷ [])

empty_or_close :
    (close : String → CloseEvent) (n : ℕ) (run_id : String)
    → slow_server close n run_id ≡ some [] ⊎ slow_server close n run_id ≡ some (close run_id ∷ [])
empty_or_close close zero run_id = inl refl
empty_or_close close (suc n) run_id = inr refl

closed_at_one :
    (close : String → CloseEvent) (n : ℕ) (run_id : String)
    → 1 ≤ n
    → slow_server close n run_id ≡ some (close run_id ∷ [])
closed_at_one close zero run_id h = absurd (omega arith)
closed_at_one close (suc n) run_id h = refl

slow_server-Closes : (close : String → CloseEvent) → Closes (slow_server close) close 1
slow_server-Closes close = record {
  empty_or_closed = empty_or_close close;
  closed = closed_at_one close;
}

result_payloads-follows_example :
    result_payloads none (slow_server close_of) 3 0 "r1"
    ≡ some (Client.payloads (hi_payload ∷ []), "r2")
unfolding Client.close_result
result_payloads-follows_example =
    result_payloads-follows none (slow_server close_of) close_of 1 1 "r1" "r2"
      (Client.payloads (hi_payload ∷ [])) (slow_server-Closes close_of) ("r2", (refl, (refl, refl)))

abbrev failing_close_of : String → CloseEvent
failing_close_of run_id =
    if run_id == "r1"
    then Client.continued_as_new "r2"
    else Client.failed
        (as_read (workflow_failure (installed true) (application "no card" "Card" true)))

result_payloads-reported_example :
    result_payloads (decoded_by false) (slow_server failing_close_of) 3 0 "r1"
    ≡ some (Client.workflow_failed "workflow failed: no card" "Card", "r2")
result_payloads-reported_example =
    result_payloads-reported true false (application "no card" "Card" true)
      (slow_server failing_close_of) failing_close_of 1 1 "r1" "r2"
      (slow_server-Closes failing_close_of) ("r2", (refl, refl)) refl
