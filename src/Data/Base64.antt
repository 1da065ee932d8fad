-- ===== src/Data/Base64.antt =====
-- Base64Encode and Base64Decode. A string is the list of its bytes. `val` is an int that wraps at
-- 32 bits (a shift of the sign bit only moves bits that are masked away afterwards, so it is read
-- without its sign). `bits` starts at -6 and -8: `filled` is the number above that.
pub mod RoundTrip
use temporal_cpp.Prelude.{
  ℕ, zero, suc, ◌+◌, ◌-◌, ◌*◌, ◌/◌, ◌%◌, ◌^◌, Option, none, some, List, [], ◌∷◌, ◌++◌, get_elem?,
  or_else, if◌then◌else◌, ltb, leb, ◌==◌, number_key, length,
}

-- kB64, "A" to "Z", "a" to "z", "0" to "9", "+" and "/".
unfoldable pub alphabet : List ℕ
alphabet =
    65 ∷ 66 ∷ 67 ∷ 68 ∷ 69 ∷ 70 ∷ 71 ∷ 72 ∷ 73 ∷ 74 ∷ 75 ∷ 76 ∷ 77 ∷ 78 ∷ 79 ∷ 80 ∷ 81 ∷ 82 ∷ 83
    ∷ 84 ∷ 85 ∷ 86 ∷ 87 ∷ 88 ∷ 89 ∷ 90 ∷ 97 ∷ 98 ∷ 99 ∷ 100 ∷ 101 ∷ 102 ∷ 103 ∷ 104 ∷ 105 ∷ 106
    ∷ 107 ∷ 108 ∷ 109 ∷ 110 ∷ 111 ∷ 112 ∷ 113 ∷ 114 ∷ 115 ∷ 116 ∷ 117 ∷ 118 ∷ 119 ∷ 120 ∷ 121 ∷ 122
    ∷ 48 ∷ 49 ∷ 50 ∷ 51 ∷ 52 ∷ 53 ∷ 54 ∷ 55 ∷ 56 ∷ 57 ∷ 43 ∷ 47 ∷ []

unfoldable pub char_at : ℕ → ℕ
unfolding alphabet
char_at i = or_else 0 (get_elem? alphabet i)

-- The position of a byte in a list, from `i` on.
abbrev pub position : ℕ → ℕ → List ℕ → Option ℕ
position c i [] = none
position c i (x ∷ xs) = let later = position c (suc i) xs in if c == x then some i else later

-- `rev[c]`, with none for -1.
unfoldable pub rev : ℕ → Option ℕ
unfolding alphabet
rev c = position c 0 alphabet

-- `while (bits >= 0) { out.push_back(kB64[(val >> bits) & 0x3F]); bits -= 6; }`, which takes at
-- most `fuel` rounds, and what `filled` is afterwards.
unfoldable pub drain : ℕ → ℕ → ℕ → List ℕ × ℕ
unfolding char_at
drain zero val filled = ([], filled)
drain (suc fuel) val filled =
    let rest = drain fuel val (filled - 6) in
    if leb 6 filled then (char_at (val / 2 ^ (filled - 6) % 64) ∷ rest.0, rest.1) else ([], filled)

unfoldable pub encode_from : List ℕ → ℕ → ℕ → List ℕ
unfolding drain char_at
encode_from [] val filled =
    if ltb 0 filled then char_at (val * 256 % 2 ^ 32 / 2 ^ (filled + 2) % 64) ∷ [] else []
encode_from (c ∷ cs) val filled =
    let next = (val * 256 + c) % 2 ^ 32 in
    let (out, left) = drain (filled + 8) next (filled + 8) in out ++ encode_from cs next left

-- `while (out.size() % 4 != 0) { out.push_back('='); }`
unfoldable pub pad : ℕ → List ℕ → List ℕ
pad zero out = out
pad (suc fuel) out =
    let rest = pad fuel (out ++ 61 ∷ []) in if length out % 4 == 0 then out else rest

unfoldable pub encode : List ℕ → List ℕ
unfolding encode_from pad
encode bytes = pad 3 (encode_from bytes 0 0)

unfoldable pub decode_from : List ℕ → ℕ → ℕ → List ℕ
unfolding rev
decode_from [] val filled = []
decode_from (c ∷ cs) val filled = elim (rev c) [
  | none ↦ []
  | some d ↦
      let next = (val * 64 + d) % 2 ^ 32 in
      let more = decode_from cs next (filled + 6) in
      let rest = decode_from cs next (filled - 2) in
      if leb 8 (filled + 6) then next / 2 ^ (filled - 2) % 256 ∷ rest else more
]

unfoldable pub decode : List ℕ → List ℕ
unfolding decode_from
decode bytes = decode_from bytes 0 0
