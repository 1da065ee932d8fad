-- ===== src/Data/Base64/RoundTrip.antt =====
-- Decoding undoes encoding.
use temporal_cpp.Prelude.{
  ℕ, zero, suc, ◌+◌, ◌-◌, ◌*◌, ◌/◌, ◌%◌, ◌^◌, ◌<◌, ◌≡◌, refl, sym, ap, ◌∙◌, none, some, List, [],
  ◌∷◌, ◌++◌, append_assoc, append-nil, length-append, arith, length, Bool, true, false, Bool-cases,
  Option-cases, leb, inl, inr, ◌==◌, number_key, if◌then◌else◌,
}
use temporal_cpp.Data.Base64.{char_at, rev, drain, encode_from, encode, pad, decode_from, decode}

test_hi : encode (104 ∷ 105 ∷ []) ≡ 97 ∷ 71 ∷ 107 ∷ 61 ∷ []
unfolding encode
test_hi = refl

test_back : decode (97 ∷ 71 ∷ 107 ∷ 61 ∷ []) ≡ 104 ∷ 105 ∷ []
unfolding decode
test_back = refl

abbrev all_back : ℕ → Bool
all_back zero = true
all_back (suc n) =
    let rest = all_back n in
    elim (rev (char_at n)) [ none ↦ false | some d ↦ if d == n then rest else false ]

all_64 : all_back 64 ≡ true
unfolding rev char_at
all_64 = refl

all_back_lem : (m : ℕ) → all_back m ≡ true → (n : ℕ) → n < m → rev (char_at n) ≡ some n
all_back_lem zero t n h = absurd (omega arith)
all_back_lem (suc m) t n h = elim (Option-cases (rev (char_at m))) [
  | inl e ↦ absurd (ground arith)
  | inr (d, e) ↦ elim (Bool-cases (n == m)) [
    | inl s ↦
        let same : n ≡ m = ground arith in
        let back : d ≡ m = ground arith in
        ap (λ i. rev (char_at i)) same ∙ e ∙ ap some (back ∙ sym same)
    | inr s ↦ all_back_lem m (ground arith) n (ground arith)
  ]
]

rev-char_at : (n : ℕ) → n < 64 → rev (char_at n) ≡ some n
rev-char_at n h = all_back_lem 64 all_64 n h

-- A run of padding.
abbrev equals : ℕ → List ℕ
equals zero = []
equals (suc n) = 61 ∷ equals n

decode_from-equals : (n val filled : ℕ) → decode_from (equals n) val filled ≡ []
unfolding decode_from rev
decode_from-equals zero val filled = refl
decode_from-equals (suc n) val filled = refl

encode_three :
    (a b c : ℕ) (rest : List ℕ) (val : ℕ)
    → a < 256
    → b < 256
    → c < 256
    → (last : ℕ) × (encode_from (a ∷ b ∷ c ∷ rest) val 0
        ≡ char_at (a / 4)
          ∷ char_at (a % 4 * 16 + b / 16)
          ∷ char_at (b % 16 * 4 + c / 64)
          ∷ char_at (c % 64)
          ∷ encode_from rest last 0)
unfolding encode_from drain
encode_three a b c rest val ha hb hc =
    let v₁ = (val * 256 + a) % 2 ^ 32 in
    let v₂ = (v₁ * 256 + b) % 2 ^ 32 in
    let v₃ = (v₂ * 256 + c) % 2 ^ 32 in
    let e₁ : v₁ / 4 % 64 ≡ a / 4 = omega arith in
    let e₂ : v₂ / 16 % 64 ≡ a % 4 * 16 + b / 16 = omega arith in
    let e₃ : v₃ / 64 % 64 ≡ b % 16 * 4 + c / 64 = omega arith in
    let e₄ : v₃ / 1 % 64 ≡ c % 64 = omega arith in (v₃, rw (e₁, e₂, e₃, e₄))

decode_from-char_at :
    (n : ℕ) (cs : List ℕ) (val filled : ℕ)
    → n < 64
    → decode_from (char_at n ∷ cs) val filled ≡ (
        if leb 8 (filled + 6)
        then (val * 64 + n) % 2 ^ 32 / 2 ^ (filled - 2) % 256
          ∷ decode_from cs ((val * 64 + n) % 2 ^ 32) (filled - 2)
        else decode_from cs ((val * 64 + n) % 2 ^ 32) (filled + 6))
unfolding decode_from
decode_from-char_at n cs val filled h = rw (decode_from, rev-char_at n h)

decode_two :
    (a : ℕ) (rest : List ℕ) (val : ℕ)
    → a < 256
    → (last : ℕ) × (decode_from (char_at (a / 4) ∷ char_at (a % 4 * 16) ∷ rest) val 0
        ≡ a ∷ decode_from rest last 4)
decode_two a rest val ha =
    let v₁ = (val * 64 + a / 4) % 2 ^ 32 in
    let v₂ = (v₁ * 64 + a % 4 * 16) % 2 ^ 32 in
    let s₁ = decode_from-char_at (a / 4) (char_at (a % 4 * 16) ∷ rest) val 0 (omega arith) in
    let s₂ = decode_from-char_at (a % 4 * 16) rest v₁ 6 (omega arith) in
    let e₁ : v₂ / 16 % 256 ≡ a = omega arith in (v₂, rw (s₁, s₂, e₁))

decode_three :
    (a b : ℕ) (rest : List ℕ) (val : ℕ)
    → a < 256
    → b < 256
    → (last : ℕ) × (decode_from
          (char_at (a / 4) ∷ char_at (a % 4 * 16 + b / 16) ∷ char_at (b % 16 * 4) ∷ rest)
          val
          0
        ≡ a ∷ b ∷ decode_from rest last 2)
decode_three a b rest val ha hb =
    let c₂ = a % 4 * 16 + b / 16 in
    let c₃ = b % 16 * 4 in
    let v₁ = (val * 64 + a / 4) % 2 ^ 32 in
    let v₂ = (v₁ * 64 + c₂) % 2 ^ 32 in
    let v₃ = (v₂ * 64 + c₃) % 2 ^ 32 in
    let s₁ = decode_from-char_at (a / 4) (char_at c₂ ∷ char_at c₃ ∷ rest) val 0 (omega arith) in
    let s₂ = decode_from-char_at c₂ (char_at c₃ ∷ rest) v₁ 6 (omega arith) in
    let s₃ = decode_from-char_at c₃ rest v₂ 4 (omega arith) in
    let e₁ : v₂ / 16 % 256 ≡ a = omega arith in
    let e₂ : v₃ / 4 % 256 ≡ b = omega arith in (v₃, rw (s₁, s₂, s₃, e₁, e₂))

decode_four :
    (a b c : ℕ) (rest : List ℕ) (val : ℕ)
    → a < 256
    → b < 256
    → c < 256
    → (last : ℕ) × (decode_from
          (char_at (a / 4)
            ∷ char_at (a % 4 * 16 + b / 16)
            ∷ char_at (b % 16 * 4 + c / 64)
            ∷ char_at (c % 64)
            ∷ rest)
          val
          0
        ≡ a ∷ b ∷ c ∷ decode_from rest last 0)
decode_four a b c rest val ha hb hc =
    let c₂ = a % 4 * 16 + b / 16 in
    let c₃ = b % 16 * 4 + c / 64 in
    let c₄ = c % 64 in
    let v₁ = (val * 64 + a / 4) % 2 ^ 32 in
    let v₂ = (v₁ * 64 + c₂) % 2 ^ 32 in
    let v₃ = (v₂ * 64 + c₃) % 2 ^ 32 in
    let v₄ = (v₃ * 64 + c₄) % 2 ^ 32 in
    let s₁ =
      decode_from-char_at (a / 4) (char_at c₂ ∷ char_at c₃ ∷ char_at c₄ ∷ rest) val 0
        (omega arith) in
    let s₂ = decode_from-char_at c₂ (char_at c₃ ∷ char_at c₄ ∷ rest) v₁ 6 (omega arith) in
    let s₃ = decode_from-char_at c₃ (char_at c₄ ∷ rest) v₂ 4 (omega arith) in
    let s₄ = decode_from-char_at c₄ rest v₃ 2 (omega arith) in
    let e₁ : v₂ / 16 % 256 ≡ a = omega arith in
    let e₂ : v₃ / 4 % 256 ≡ b = omega arith in
    let e₃ : v₄ / 1 % 256 ≡ c = omega arith in (v₄, rw (s₁, s₂, s₃, s₄, e₁, e₂, e₃))

encode_from-nil : (val : ℕ) → encode_from [] val 0 ≡ []
unfolding encode_from
encode_from-nil val = refl

encode_one :
    (a val : ℕ) → a < 256 → encode_from (a ∷ []) val 0 ≡ char_at (a / 4) ∷ char_at (a % 4 * 16) ∷ []
unfolding encode_from drain
encode_one a val ha =
    let v₁ = (val * 256 + a) % 2 ^ 32 in
    let e₁ : v₁ / 4 % 64 ≡ a / 4 = omega arith in
    let e₂ : v₁ * 256 % 2 ^ 32 / 16 % 64 ≡ a % 4 * 16 = omega arith in rw (e₁, e₂)

encode_two :
    (a b val : ℕ)
    → a < 256
    → b < 256
    → encode_from (a ∷ b ∷ []) val 0
      ≡ char_at (a / 4) ∷ char_at (a % 4 * 16 + b / 16) ∷ char_at (b % 16 * 4) ∷ []
unfolding encode_from drain
encode_two a b val ha hb =
    let v₁ = (val * 256 + a) % 2 ^ 32 in
    let v₂ = (v₁ * 256 + b) % 2 ^ 32 in
    let e₁ : v₁ / 4 % 64 ≡ a / 4 = omega arith in
    let e₂ : v₂ / 16 % 64 ≡ a % 4 * 16 + b / 16 = omega arith in
    let e₃ : v₂ * 256 % 2 ^ 32 / 64 % 64 ≡ b % 16 * 4 = omega arith in rw (e₁, e₂, e₃)

-- A text as the source has it: its bytes are below 256.
abbrev pub AllBytes : List ℕ → Type 0
AllBytes [] = Unit
AllBytes (c ∷ cs) = (c < 256) × AllBytes cs

decode_from-encode_from :
    (bytes : List ℕ)
    → AllBytes bytes
    → (val val' n : ℕ) → decode_from (encode_from bytes val 0 ++ equals n) val' 0 ≡ bytes
decode_from-encode_from [] h val val' n = rw (encode_from-nil val) (decode_from-equals n val' 0)
decode_from-encode_from (a ∷ []) (ha, _) val val' n =
    let d = decode_two a (equals n) val' ha in
    rw (encode_one a val ha, d.1, decode_from-equals n d.0 4)
decode_from-encode_from (a ∷ b ∷ []) (ha, (hb, _)) val val' n =
    let d = decode_three a b (equals n) val' ha hb in
    rw (encode_two a b val ha hb, d.1, decode_from-equals n d.0 2)
decode_from-encode_from (a ∷ b ∷ c ∷ rest) (ha, (hb, (hc, hs))) val val' n =
    let e = encode_three a b c rest val ha hb hc in
    let d = decode_four a b c (encode_from rest e.0 0 ++ equals n) val' ha hb hc in
    rw (e.1, d.1, decode_from-encode_from rest hs e.0 d.0 n)

pad-equals : (fuel : ℕ) (out : List ℕ) → (n : ℕ) × (pad fuel out ≡ out ++ equals n)
unfolding pad
pad-equals zero out = (0, sym (append-nil out))
pad-equals (suc fuel) out = elim (Bool-cases (length out % 4 == 0)) [
  | inl full ↦ (0, rw (full, append-nil out))
  | inr short ↦
      let (n, e) = pad-equals fuel (out ++ 61 ∷ []) in
      (suc n, rw short (e ∙ append_assoc out (61 ∷ []) (equals n)))
]

-- Base64Decode gives back the text that Base64Encode was given, of any length, the padding
-- included, although `val` wraps.
pub decode-encode : (bytes : List ℕ) → AllBytes bytes → decode (encode bytes) ≡ bytes
unfolding encode decode
decode-encode bytes h =
    let (n, e) = pad-equals 3 (encode_from bytes 0 0) in
    rw e (decode_from-encode_from bytes h 0 0 n)

length-pad : (out : List ℕ) → length (pad 3 out) ≡ (length out + 3) / 4 * 4
unfolding pad
length-pad out =
    let l₁ = length-append out (61 ∷ []) in
    let l₂ = length-append (out ++ 61 ∷ []) (61 ∷ []) in
    let l₃ = length-append ((out ++ 61 ∷ []) ++ 61 ∷ []) (61 ∷ []) in ground arith

length-encode_from :
    (bytes : List ℕ)
    → AllBytes bytes
    → (val : ℕ) → length (encode_from bytes val 0) ≡ (length bytes * 4 + 2) / 3
length-encode_from [] h val = rw (encode_from-nil val) refl
length-encode_from (a ∷ []) (ha, _) val = rw (encode_one a val ha) refl
length-encode_from (a ∷ b ∷ []) (ha, (hb, _)) val = rw (encode_two a b val ha hb) refl
length-encode_from (a ∷ b ∷ c ∷ rest) (ha, (hb, (hc, hs))) val =
    let e = encode_three a b c rest val ha hb hc in
    let l = length-encode_from rest hs e.0 in rw e.1 (omega arith)

-- The padding loop stops, and what Base64Encode returns has exactly the size it reserves: four
-- characters for every three bytes begun.
pub length-encode :
    (bytes : List ℕ) → AllBytes bytes → length (encode bytes) ≡ (length bytes + 2) / 3 * 4
unfolding encode
length-encode bytes h =
    let p = length-pad (encode_from bytes 0 0) in
    let l = length-encode_from bytes h 0 in rw p (omega arith)
