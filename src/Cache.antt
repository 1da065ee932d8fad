-- ===== src/Cache.antt =====
-- src/internal/lru_cache.h, the sticky cache of workflows. `order_` is a list, its front the most
-- recently used entry; `index_` is what it is asked: whether it has a key, and its size. The
-- iterator that it holds for a key stands for the entry of `order_` with that key.
pub mod Order
pub mod Bounds
use temporal_cpp.Prelude.{
  ℕ, zero, suc, ◌-◌, Bool, true, false, Option, none, some, List, [], ◌∷◌, Map, Key, ◌==◌, ◌||◌,
  ◌&&◌, not, if◌then◌else◌, ltb, number_key,
}

pub record LruCache {ℓ κ} (K : Type ℓ) (V : Type κ) : Type (ℓ ⊔ κ) where
  pub capacity : ℕ
  pub order : List (K × V)
  pub index : K → Bool
  pub size : ℕ

unfoldable pub new_cache {ℓ κ} : {K : Type ℓ} {V : Type κ} → ℕ → LruCache K V
new_cache capacity = record { capacity = capacity; order = []; index = λ k. false; size = 0 }

abbrev pub unset {ℓ} : {K : Type ℓ} ⦃e : Key K⦄ → K → (K → Bool) → K → Bool
unset k f j = if j == k then false else f j

module _ {ℓ κ} {K : Type ℓ} {V : Type κ} where
  -- The key of the last of the entries, and the entries before it.
  abbrev pub last_key : K × V → List (K × V) → K
  last_key p [] = p.0
  last_key p (q ∷ rest) = last_key q rest

  abbrev pub but_last : K × V → List (K × V) → List (K × V)
  but_last p [] = []
  but_last p (q ∷ rest) = p ∷ but_last q rest

module _ {ℓ κ} {K : Type ℓ} {V : Type κ} ⦃e : Key K⦄ where
  -- The value of the entry that an iterator points at.
  abbrev pub entry : K → List (K × V) → Option V
  entry k [] = none
  entry k ((j, v) ∷ rest) = let found = entry k rest in if k == j then some v else found

  -- `order_.erase(it)`
  abbrev pub take_out : K → List (K × V) → List (K × V)
  take_out k [] = []
  take_out k ((j, v) ∷ rest) =
      let others = take_out k rest in if k == j then rest else (j, v) ∷ others

  -- `order_.splice(order_.begin(), order_, it)`
  abbrev pub move_front : K → List (K × V) → List (K × V)
  move_front k order = elim (entry k order) [ none ↦ order | some v ↦ (k, v) ∷ take_out k order ]

  unfoldable pub get : K → LruCache K V → Option V × LruCache K V
  get k c =
      if c.index k then (entry k c.order, record c { order = move_front k c.order }) else (none, c)

  -- `index_.erase(order_.back().first); order_.pop_back();`
  unfoldable pub evict_one : LruCache K V → LruCache K V
  evict_one c = elim c.order [
    | [] ↦ c
    | p ∷ rest ↦ record c {
      order = but_last p rest;
      index = unset (last_key p rest) c.index;
      size = if c.index (last_key p rest) then c.size - 1 else c.size;
    }
  ]

  -- The loop of EvictToCapacity, for at most that many rounds.
  unfoldable pub evict_rounds : ℕ → LruCache K V → LruCache K V
  unfolding evict_one
  evict_rounds zero c = c
  evict_rounds (suc n) c =
      let rest = evict_rounds n (evict_one c) in
      if not (c.capacity == 0) && ltb c.capacity c.size then rest else c

  -- Every round removes an entry, so the size is enough rounds.
  unfoldable pub evict_to_capacity : LruCache K V → LruCache K V
  unfolding evict_rounds
  evict_to_capacity c = evict_rounds c.size c

  unfoldable pub put : K → V → LruCache K V → LruCache K V
  unfolding evict_to_capacity
  put k v c = evict_to_capacity (
      if c.index k then record c { order = (k, v) ∷ take_out k c.order } else record c {
        order = (k, v) ∷ c.order;
        index = λ j. if j == k then true else c.index j;
        size = suc c.size;
      })

  unfoldable pub erase : K → LruCache K V → LruCache K V
  erase k c =
      if c.index k
      then record c { order = take_out k c.order; index = unset k c.index; size = c.size - 1 }
      else c

  abbrev pub contains : K → LruCache K V → Bool
  contains k c = c.index k
