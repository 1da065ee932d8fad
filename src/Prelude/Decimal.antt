-- ===== src/Prelude/Decimal.antt =====
-- `std::to_string` of a count, that distinct counts have distinct texts, and `std::stoull`, which reads
-- them back.
use Prim.Native.Nat.{ℕ, zero, suc, ◌+◌, ◌*◌, ◌/◌, ◌%◌, ◌-◌, ◌^◌, ◌<◌}
use Prim.Native.Char.{Char, code}
use Prim.Native.String.{String}
use mathlib.Core.Path.{◌≡◌, refl, sym, ap, ◌∙◌}
use native.Mathlib.Omega.{arith}
use mathlib.Core.Option.{Option, none, some}
use mathlib.Core.Bool.{Bool, true, false, ◌&&◌, ◌||◌}
use temporal_cpp.Prelude.Tests.{ltb, leb, ◌==◌, if◌then◌else◌, Bool-cases}
use mathlib.Core.Logic.{inl, inr}

digit : ℕ → Char
digit zero = "0"
digit (suc zero) = "1"
digit (suc (suc zero)) = "2"
digit (suc (suc (suc zero))) = "3"
digit (suc (suc (suc (suc zero)))) = "4"
digit (suc (suc (suc (suc (suc zero))))) = "5"
digit (suc (suc (suc (suc (suc (suc zero)))))) = "6"
digit (suc (suc (suc (suc (suc (suc (suc zero))))))) = "7"
digit (suc (suc (suc (suc (suc (suc (suc (suc zero)))))))) = "8"
digit (suc (suc (suc (suc (suc (suc (suc (suc (suc n))))))))) = "9"

digits : ℕ → ℕ → String → String
digits zero n s = s
digits (suc fuel) n s =
    let rest = digits fuel (n / 10) (String.◌∷◌ (digit (n % 10)) s) in
    if ltb n 10 then String.◌∷◌ (digit n) s else rest

unfoldable pub to_string : ℕ → String
unfolding digits digit
to_string n = digits (suc n) n ""

value : ℕ → String → ℕ
value acc String.[] = acc
value acc (String.◌∷◌ c s) = value (acc * 10 + (code c - 48)) s

code-digit : (d : ℕ) → d < 10 → code (digit d) ≡ d + 48
unfolding digit
code-digit zero h = refl
code-digit (suc zero) h = refl
code-digit (suc (suc zero)) h = refl
code-digit (suc (suc (suc zero))) h = refl
code-digit (suc (suc (suc (suc zero)))) h = refl
code-digit (suc (suc (suc (suc (suc zero))))) h = refl
code-digit (suc (suc (suc (suc (suc (suc zero)))))) h = refl
code-digit (suc (suc (suc (suc (suc (suc (suc zero))))))) h = refl
code-digit (suc (suc (suc (suc (suc (suc (suc (suc zero)))))))) h = refl
code-digit (suc (suc (suc (suc (suc (suc (suc (suc (suc zero))))))))) h = refl
code-digit (suc (suc (suc (suc (suc (suc (suc (suc (suc (suc n)))))))))) h = absurd (omega arith)

value-digit :
    (a d : ℕ) (s : String) → d < 10 → value a (String.◌∷◌ (digit d) s) ≡ value (a * 10 + d) s
unfolding value
value-digit a d s h = ap (λ x. value x s) (omega (arith, code-digit d h))

value-digits : (fuel n : ℕ) (s : String) → n < fuel → value 0 (digits fuel n s) ≡ value n s
unfolding digits
value-digits zero n s h = absurd (omega arith)
value-digits (suc fuel) n s h = elim (Bool-cases (ltb n 10)) [
  | inl small ↦ rw small (value-digit 0 n s (ground arith) ∙ ap (λ x. value x s) (omega arith))
  | inr large ↦ rw large (
      value-digits fuel (n / 10) (String.◌∷◌ (digit (n % 10)) s) (ground arith)
      ∙ value-digit (n / 10) (n % 10) s (omega arith)
      ∙ ap (λ x. value x s) (omega arith))
]

-- Ids made from distinct counts are distinct.
pub to_string-injective : (m n : ℕ) → to_string m ≡ to_string n → m ≡ n
unfolding to_string value
to_string-injective m n e =
    sym (value-digits (suc m) m "" (omega arith))
    ∙ ap (value 0) e
    ∙ value-digits (suc n) n "" (omega arith)

abbrev is_digit : Char → Bool
is_digit c = leb 48 (code c) && leb (code c) 57

abbrev is_space : Char → Bool
is_space c = code c == 32 || (leb 9 (code c) && leb (code c) 13)

abbrev so_far : Option ℕ → ℕ
so_far none = 0
so_far (some n) = n

-- The number that a text begins with, after the digits `acc`.
leading_number : Option ℕ → String → Option ℕ
leading_number acc String.[] = acc
leading_number acc (String.◌∷◌ c s) =
    let rest = leading_number (some (so_far acc * 10 + (code c - 48))) s in
    if is_digit c then rest else acc

in_range : Option ℕ → Option ℕ
in_range none = none
in_range (some n) = if ltb n (2 ^ 64) then some n else none

-- A minus sign negates modulo 2^64.
negated : Option ℕ → Option ℕ
negated none = none
negated (some n) = some ((2 ^ 64 - n) % 2 ^ 64)

-- None where std::stoull throws: no digits, or a number out of range.
unfoldable pub stoull : String → Option ℕ
unfolding leading_number in_range negated
stoull String.[] = none
stoull (String.◌∷◌ c s) =
    let rest = stoull s in
    if is_space c
    then rest
    else if code c == 45
    then negated (in_range (leading_number none s))
    else if code c == 43
    then in_range (leading_number none s)
    else in_range (leading_number none (String.◌∷◌ c s))

leading_number-digit :
    (acc : Option ℕ) (d : ℕ) (s : String)
    → d < 10
    → leading_number acc (String.◌∷◌ (digit d) s) ≡ leading_number (some (so_far acc * 10 + d)) s
unfolding leading_number digit
leading_number-digit acc d s h =
    let c = code-digit d h in
    let in_digits : is_digit (digit d) ≡ true = ground arith in
    let back : code (digit d) - 48 ≡ d = omega arith in rw (in_digits, back)

leading_number-digits :
    (fuel n : ℕ) (s : String)
    → n < fuel
    → leading_number none (digits fuel n s) ≡ leading_number (some n) s
unfolding digits
leading_number-digits zero n s h = absurd (omega arith)
leading_number-digits (suc fuel) n s h = elim (Bool-cases (ltb n 10)) [
  | inl small ↦ rw small (
      leading_number-digit none n s (ground arith)
      ∙ ap (λ x. leading_number (some x) s) (omega arith))
  | inr large ↦
      let e : n / 10 * 10 + n % 10 ≡ n = omega arith in
      rw large (
        leading_number-digits fuel (n / 10) (String.◌∷◌ (digit (n % 10)) s) (ground arith)
        ∙ leading_number-digit (some (n / 10)) (n % 10) s (omega arith)
        ∙ ap (λ x. leading_number (some x) s) e)
]

digits-head :
    (fuel n : ℕ) (s : String)
    → n < fuel
    → (d : ℕ) × (t : String) × ((d < 10) × (digits fuel n s ≡ String.◌∷◌ (digit d) t))
unfolding digits
digits-head zero n s h = absurd (omega arith)
digits-head (suc fuel) n s h = elim (Bool-cases (ltb n 10)) [
  | inl small ↦ (n, s, (ground arith, rw small refl))
  | inr large ↦
      let (d, t, (l, e)) =
        digits-head fuel (n / 10) (String.◌∷◌ (digit (n % 10)) s) (ground arith) in
      (d, t, (l, rw large e))
]

stoull-digit :
    (d : ℕ) (s : String)
    → d < 10
    → stoull (String.◌∷◌ (digit d) s) ≡ in_range (leading_number none (String.◌∷◌ (digit d) s))
unfolding stoull
stoull-digit d s h =
    let c = code-digit d h in
    let no_space : is_space (digit d) ≡ false = ground arith in
    let no_minus : (code (digit d) == 45) ≡ false = ground arith in
    let no_plus : (code (digit d) == 43) ≡ false = ground arith in rw (no_space, no_minus, no_plus)

pub stoull-to_string : (n : ℕ) → n < 2 ^ 64 → stoull (to_string n) ≡ some n
unfolding to_string leading_number in_range
stoull-to_string n h =
    let (d, t, (l, e)) = digits-head (suc n) n "" (omega arith) in
    let read = leading_number-digits (suc n) n "" (omega arith) in
    let small : ltb n (2 ^ 64) ≡ true = ground arith in
    let text : stoull (digits (suc n) n "") ≡ in_range (leading_number none (digits (suc n) n "")) =
      rw e (stoull-digit d t l) in
    text ∙ ap in_range read ∙ rw small refl
