-- ===== src/Prelude/Maps.antt =====
-- The maps of the program (`std::map`, `std::unordered_map`), by what a key is mapped to, since
-- no operation reads their order; and the keys: texts and event ids.
use Prim.Native.Nat.{ℕ}
use Prim.Native.String.{String}
use mathlib.Core.Path.{◌≡◌, refl}
use mathlib.Core.Bool.{Bool, true}
use mathlib.Core.Option.{Option, none, some}
use text.Mathlib.Text.{◌==◌ as text_equal}
use text.Mathlib.TextEquality.{eq_iff}
use temporal_cpp.Prelude.Tests.{◌==◌ as number_equal, ==_iff, if◌then◌else◌}

-- A type of keys, whose test `equal` decides equality.
pub record Key {ℓ} (K : Type ℓ) : Type ℓ where
  pub equal : K → K → Bool
  pub equal_refl : (k : K) → equal k k ≡ true
  pub equal_sound : (j k : K) → equal j k ≡ true → j ≡ k

-- Texts are run ids, activity ids, names of signals; numbers are event ids and handles.
instance abbrev pub string_key : Key String
string_key = record {
  equal = text_equal;
  equal_refl = λ k. (eq_iff k k).1 refl;
  equal_sound = λ j k. (eq_iff j k).0;
}

instance abbrev pub number_key : Key ℕ
number_key = record {
  equal = number_equal;
  equal_refl = λ k. (==_iff k k).1 refl;
  equal_sound = λ j k. (==_iff j k).0;
}

infix 50 ◌==◌
abbrev pub ◌==◌ {ℓ} : {K : Type ℓ} ⦃key : Key K⦄ → K → K → Bool
◌==◌ ⦃key⦄ j k = key.equal j k

abbrev pub Map {ℓ κ} : Type ℓ → Type κ → Type (ℓ ⊔ κ)
Map K V = K → Option V

abbrev pub empty {ℓ κ} : {K : Type ℓ} {V : Type κ} → Map K V
empty k = none

abbrev pub or_else {κ} : {V : Type κ} → V → Option V → V
or_else d none = d
or_else d (some v) = v

abbrev pub bind {ℓ κ} : {A : Type ℓ} {B : Type κ} → Option A → (A → Option B) → Option B
bind none f = none
bind (some a) f = f a

pub beq_refl {ℓ} : {K : Type ℓ} ⦃key : Key K⦄ (k : K) → (k == k) ≡ true
beq_refl ⦃key⦄ k = key.equal_refl k

module _ {ℓ κ} {K : Type ℓ} {V : Type κ} ⦃key : Key K⦄ where
  -- `m[k] = v`
  abbrev pub insert : K → V → Map K V → Map K V
  insert k v m j = if j == k then some v else m j

  -- `f(m[k])`: `operator[]` first puts the default value under a key that is missing.
  abbrev pub modify : V → (V → V) → K → Map K V → Map K V
  modify d f k m j = if j == k then some (f (or_else d (m k))) else m j

  pub insert_self : (k : K) (v : V) (m : Map K V) → insert k v m k ≡ some v
  insert_self k v m = rw (beq_refl k)
