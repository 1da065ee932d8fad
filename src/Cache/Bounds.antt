-- ===== src/Cache/Bounds.antt =====
-- The invariant of the sticky cache, and what a put leaves in it.
use temporal_cpp.Prelude.{
  ℕ, zero, suc, ◌-◌, ◌≤◌, ◌<◌, ◌≡◌, refl, sym, ap, ◌∙◌, inl, inr, true, false, some, List, [], ◌∷◌,
  Key, ◌==◌, ◌&&◌, not, beq_refl, Bool-cases, if◌then◌else◌, length, arith, ltb, number_key,
}
use mathlib.Core.Path.{subst}
use temporal_cpp.Cache.{
  LruCache, get, put, erase, evict_one, evict_rounds, evict_to_capacity, take_out, last_key,
  but_last, move_front,
}
use temporal_cpp.Cache.Order.{
  has, Distinct, has-take_out, length-take_out, take_out-Distinct, has-entry, has-but_last,
  but_last-Distinct, length-but_last, has-last_key,
}

module _ {ℓ κ} {K : Type ℓ} {V : Type κ} ⦃e : Key K⦄ where
  -- `order_` and `index_` hold the same keys, each once.
  pub record InStep (c : LruCache K V) : Type ℓ where
    pub distinct : Distinct c.order
    pub indexed : (k : K) → c.index k ≡ has k c.order
    pub sized : c.size ≡ length c.order

  pub record IsValid (c : LruCache K V) : Type ℓ where
    pub in_step : InStep c
    pub fits : 0 < c.capacity → c.size ≤ c.capacity

  add : K → V → LruCache K V → LruCache K V
  add k v c = if c.index k then record c { order = (k, v) ∷ take_out k c.order } else record c {
    order = (k, v) ∷ c.order;
    index = λ j. if j == k then true else c.index j;
    size = suc c.size;
  }

  add-InStep : (k : K) (v : V) (c : LruCache K V) → InStep c → InStep (add k v c)
  unfolding add
  add-InStep k v c s = elim (Bool-cases (c.index k)) [
    | inl h ↦ rw h (record {
      distinct = (
        has-take_out k k c.order s.distinct ∙ rw (beq_refl k),
        take_out-Distinct k c.order s.distinct,
      );
      indexed = λ j.
          let found = has-take_out k j c.order s.distinct in
          let same = s.indexed j in
          elim (Bool-cases (j == k)) [
            | inl t ↦
                let here : c.index j ≡ c.index k = ap c.index (e.equal_sound j k t) in ground arith
            | inr t ↦ ground arith
          ];
      sized = s.sized ∙ length-take_out k c.order (sym (s.indexed k) ∙ h);
    })
    | inr h ↦ rw h (record {
      distinct = (sym (s.indexed k) ∙ h, s.distinct);
      indexed = λ j. let same = s.indexed j in ground arith;
      sized = ap suc s.sized;
    })
  ]

  add-size : (k : K) (v : V) (c : LruCache K V) → (add k v c).size ≤ suc c.size
  unfolding add
  add-size k v c = ground arith

  add-capacity : (k : K) (v : V) (c : LruCache K V) → (add k v c).capacity ≡ c.capacity
  unfolding add
  add-capacity k v c = ground arith

  abbrev with_order : List (K × V) → LruCache K V → LruCache K V
  with_order order c = record c { order = order }

  evict_one-InStep :
      (order : List (K × V)) (c : LruCache K V)
      → InStep (with_order order c)
      → InStep (evict_one (with_order order c))
  unfolding evict_one
  evict_one-InStep [] c s = s
  evict_one-InStep (p ∷ rest) c s =
      let l = last_key p rest in
      let there : c.index l ≡ true = s.indexed l ∙ has-last_key p rest in
      record {
        distinct = but_last-Distinct p rest s.distinct;
        indexed = λ j.
            let left = has-but_last j p rest s.distinct in let same = s.indexed j in ground arith;
        sized = rw there (omega (arith, s.sized, length-but_last p rest));
      }

  evict_one-size :
      (order : List (K × V)) (c : LruCache K V)
      → InStep (with_order order c)
      → (evict_one (with_order order c)).size ≡ c.size - 1
  unfolding evict_one
  evict_one-size [] c s = omega (arith, s.sized)
  evict_one-size (p ∷ rest) c s = rw (s.indexed (last_key p rest) ∙ has-last_key p rest)

  evict_one-capacity : (c : LruCache K V) → (evict_one c).capacity ≡ c.capacity
  unfolding evict_one
  evict_one-capacity c = elim c.order as (λ o. (evict_one (with_order o c)).capacity ≡ c.capacity) [
    | [] ↦ refl
    | p ∷ rest ↦ refl
  ]

  evict_rounds-stops :
      (n : ℕ) (c : LruCache K V) → (0 < c.capacity → c.size ≤ c.capacity) → evict_rounds n c ≡ c
  unfolding evict_rounds
  evict_rounds-stops zero c h = refl
  evict_rounds-stops (suc m) c h =
      let stop : not (c.capacity == 0) && ltb c.capacity c.size ≡ false = ground arith in rw stop

  -- A cache that is over its capacity by one at most: one round is enough.
  evict_rounds-IsValid :
      (n : ℕ) (c : LruCache K V)
      → c.size ≤ n
      → InStep c
      → (0 < c.capacity → c.size ≤ suc c.capacity)
      → IsValid (evict_rounds n c)
  unfolding evict_rounds
  evict_rounds-IsValid zero c z s h = record { in_step = s; fits = λ p. omega arith }
  evict_rounds-IsValid (suc m) c z s h =
      let over = not (c.capacity == 0) && ltb c.capacity c.size in
      let smaller = evict_one-size c.order c s in
      let same = evict_one-capacity c in
      elim (Bool-cases over) [
        | inl t ↦
            let stops : evict_rounds (suc m) c ≡ evict_one c =
              rw t (evict_rounds-stops m (evict_one c) (λ p. omega (arith, smaller, same, h))) in
            subst IsValid (sym stops) (record {
              in_step = evict_one-InStep c.order c s;
              fits = λ p. omega (arith, smaller, same, h);
            })
        | inr t ↦
            let stops : evict_rounds (suc m) c ≡ c = rw t in
            subst IsValid (sym stops) (record { in_step = s; fits = λ p. ground arith })
      ]

  -- A put keeps the cache valid: its list and its index agree, no run is in it twice, and with a
  -- positive capacity it never holds more runs than that, the eviction loop included.
  pub put-IsValid : (k : K) (v : V) (c : LruCache K V) → IsValid c → IsValid (put k v c)
  unfolding put evict_to_capacity add
  put-IsValid k v c s =
      evict_rounds-IsValid (add k v c).size (add k v c) (omega arith) (add-InStep k v c s.in_step)
        (λ p. omega (arith, add-size k v c, add-capacity k v c, s.fits))

  -- Taking a run out keeps the cache valid, whether it was in it or not.
  pub erase-IsValid : (k : K) (c : LruCache K V) → IsValid c → IsValid (erase k c)
  unfolding erase
  erase-IsValid k c s = elim (Bool-cases (c.index k)) [
    | inl h ↦
        let len = length-take_out k c.order (sym (s.in_step.indexed k) ∙ h) in
        rw h (record {
          in_step = record {
            distinct = take_out-Distinct k c.order s.in_step.distinct;
            indexed = λ j.
                let left = has-take_out k j c.order s.in_step.distinct in
                let same = s.in_step.indexed j in ground arith;
            sized = omega (arith, s.in_step.sized, len);
          };
          fits = λ p. omega (arith, s.fits);
        })
    | inr h ↦ rw h s
  ]

  -- A lookup, which moves what it finds to the front, keeps the cache valid.
  pub get-IsValid : (k : K) (c : LruCache K V) → IsValid c → IsValid (get k c).1
  unfolding get
  get-IsValid k c s = elim (Bool-cases (c.index k)) [
    | inl h ↦
        let there = sym (s.in_step.indexed k) ∙ h in
        let (v, found) = has-entry k c.order there in
        let front : move_front k c.order ≡ (k, v) ∷ take_out k c.order = rw (found, move_front) in
        rw (h, front)
          (record {
            in_step = record {
              distinct = (
                has-take_out k k c.order s.in_step.distinct ∙ rw (beq_refl k),
                take_out-Distinct k c.order s.in_step.distinct,
              );
              indexed = λ j.
                  let left = has-take_out k j c.order s.in_step.distinct in
                  let same = s.in_step.indexed j in
                  elim (Bool-cases (j == k)) [
                    | inl t ↦
                        let here : c.index j ≡ c.index k = ap c.index (e.equal_sound j k t) in
                        ground arith
                    | inr t ↦ ground arith
                  ];
              sized = s.in_step.sized ∙ length-take_out k c.order there;
            };
            fits = s.fits;
          })
    | inr h ↦ rw h s
  ]

  Front : K → V → LruCache K V → Type (ℓ ⊔ κ)
  Front k v c = (rest : List (K × V)) × (c.order ≡ (k, v) ∷ rest)

  add-Front : (k : K) (v : V) (c : LruCache K V) → Front k v (add k v c)
  unfolding add Front
  add-Front k v c = elim (Bool-cases (c.index k)) [
    | inl h ↦ (take_out k c.order, rw h)
    | inr h ↦ (c.order, rw h)
  ]

  evict_one-Front :
      (k : K) (v : V) (c : LruCache K V)
      → InStep c
      → Front k v c
      → 1 < c.size
      → Front k v (evict_one c)
  unfolding Front evict_one
  evict_one-Front k v c s ([], h) z = absurd (omega (arith, s.sized, ap length h))
  evict_one-Front k v c s (q ∷ rest, h) z = (but_last q rest, rw h)

  evict_rounds-Front :
      (n : ℕ) (k : K) (v : V) (c : LruCache K V)
      → InStep c
      → Front k v c
      → Front k v (evict_rounds n c)
  unfolding evict_rounds
  evict_rounds-Front zero k v c s f = f
  evict_rounds-Front (suc m) k v c s f =
      elim (Bool-cases (not (c.capacity == 0) && ltb c.capacity c.size)) [
        | inl t ↦ rw t (
            evict_rounds-Front m k v (evict_one c) (evict_one-InStep c.order c s)
              (evict_one-Front k v c s f (ground arith)))
        | inr t ↦ rw t f
      ]

  -- A workflow put in a valid cache is found there at the next lookup, whatever was evicted for
  -- it: the eviction never takes the entry that was just put, even at capacity 1.
  pub get-put : (k : K) (v : V) (c : LruCache K V) → IsValid c → (get k (put k v c)).0 ≡ some v
  unfolding get put evict_to_capacity add Front
  get-put k v c s =
      let after = put-IsValid k v c s in
      let front =
        evict_rounds-Front (add k v c).size k v (add k v c) (add-InStep k v c s.in_step)
          (add-Front k v c) in
      let order : (put k v c).order ≡ (k, v) ∷ front.0 = front.1 in
      let here : (put k v c).index k ≡ true =
        after.in_step.indexed k ∙ ap (has k) order ∙ rw (beq_refl k) in
      rw (here, order, beq_refl k)
