-- ===== src/Cache/Order.antt =====
-- Lists of entries: their keys, and what taking one out leaves.
use temporal_cpp.Prelude.{
  suc, ◌≡◌, refl, ap, ◌∙◌, inl, inr, Bool, true, false, some, List, [], ◌∷◌, Key, ◌==◌, ◌||◌,
  beq_refl, Bool-cases, if◌then◌else◌, length, arith,
}
use temporal_cpp.Cache.{take_out, entry, last_key, but_last}

module _ {ℓ κ} {K : Type ℓ} {V : Type κ} ⦃e : Key K⦄ where
  -- Whether a list of entries has a key.
  abbrev pub has : K → List (K × V) → Bool
  has k [] = false
  has k (p ∷ rest) = k == p.0 || has k rest

  -- No key twice.
  abbrev pub Distinct : List (K × V) → Type 0
  Distinct [] = Unit {0}
  Distinct (p ∷ rest) = (has p.0 rest ≡ false) × Distinct rest

  pub has-take_out :
      (k j : K) (order : List (K × V))
      → Distinct order
      → has j (take_out k order) ≡ (if j == k then false else has j order)
  has-take_out k j [] d = ground arith
  has-take_out k j ((i, v) ∷ rest) d =
      let ih = has-take_out k j rest d.1 in
      elim (Bool-cases (j == k)) [
        | inl t ↦
            let same : j ≡ k = e.equal_sound j k t in
            let head : (j == i) ≡ (k == i) = ap (λ x. x == i) same in
            elim (Bool-cases (k == i)) [
              | inl u ↦
                  let gone : has j rest ≡ has i rest =
                    ap (λ x. has x rest) (same ∙ e.equal_sound k i u) in
                  ground arith
              | inr u ↦ ground arith
            ]
        | inr t ↦ elim (Bool-cases (k == i)) [
          | inl u ↦
              let head : (j == k) ≡ (j == i) = ap (λ x. j == x) (e.equal_sound k i u) in
              ground arith
          | inr u ↦ ground arith
        ]
      ]

  pub length-take_out :
      (k : K) (order : List (K × V))
      → has k order ≡ true
      → length order ≡ suc (length (take_out k order))
  length-take_out k [] h = absurd (ground arith)
  length-take_out k ((i, v) ∷ rest) h = let ih = length-take_out k rest in ground (arith, ih)

  pub take_out-Distinct :
      (k : K) (order : List (K × V)) → Distinct order → Distinct (take_out k order)
  take_out-Distinct k [] d = tt
  take_out-Distinct k ((i, v) ∷ rest) d =
      let ih = take_out-Distinct k rest d.1 in
      let h = has-take_out k i rest d.1 in ground (arith, ih, h)

  pub has-last_key : (p : K × V) (rest : List (K × V)) → has (last_key p rest) (p ∷ rest) ≡ true
  has-last_key p [] = rw (beq_refl p.0)
  has-last_key p (q ∷ rest) = let ih = has-last_key q rest in ground arith

  pub has-but_last :
      (j : K) (p : K × V) (rest : List (K × V))
      → Distinct (p ∷ rest)
      → has j (but_last p rest) ≡ (if j == last_key p rest then false else has j (p ∷ rest))
  has-but_last j p [] d = ground arith
  has-but_last j p (q ∷ rest) d =
      let ih = has-but_last j q rest d.1 in
      let l = last_key q rest in
      elim (Bool-cases (j == l)) [
        | inl t ↦
            let there : has j (q ∷ rest) ≡ has l (q ∷ rest) =
              ap (λ x. has x (q ∷ rest)) (e.equal_sound j l t) in
            elim (Bool-cases (j == p.0)) [
              | inl u ↦
                  let gone : has j (q ∷ rest) ≡ has p.0 (q ∷ rest) =
                    ap (λ x. has x (q ∷ rest)) (e.equal_sound j p.0 u) in
                  absurd (cc (gone, there, has-last_key q rest, d.0))
              | inr u ↦ rw (t, u) (ih ∙ rw t)
            ]
        | inr t ↦ rw t (ap (λ b. (j == p.0) || b) (ih ∙ rw t))
      ]

  pub has-entry :
      (k : K) (order : List (K × V)) → has k order ≡ true → (v : V) × (entry k order ≡ some v)
  has-entry k [] h = absurd (cc h)
  has-entry k ((i, v) ∷ rest) h = elim (Bool-cases (k == i)) [
    | inl t ↦ (v, rw t)
    | inr t ↦ let later = has-entry k rest (ground arith) in (later.0, rw t later.1)
  ]

  pub but_last-Distinct :
      (p : K × V) (rest : List (K × V)) → Distinct (p ∷ rest) → Distinct (but_last p rest)
  but_last-Distinct p [] d = tt
  but_last-Distinct p (q ∷ rest) d =
      let h = has-but_last p.0 q rest d.1 in let ih = but_last-Distinct q rest d.1 in ground arith

  pub length-but_last : (p : K × V) (rest : List (K × V)) → length (but_last p rest) ≡ length rest
  length-but_last p [] = refl
  length-but_last p (q ∷ rest) = ap suc (length-but_last q rest)
