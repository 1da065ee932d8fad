-- ===== src/Worker/Gate.antt =====
-- The permits of a ConcurrencyGate, over the interleavings of its threads.
use temporal_cpp.Prelude.{ℕ, suc, ◌≤◌, ◌<◌, ◌≡◌, refl, true, false, some, arith, ◌↔◌}
use temporal_cpp.Worker.{ConcurrencyGate, new_gate, acquire, release, release_all, drained}

-- The gate, and how many threads hold a permit (a GateGuard whose `held_` is true, which calls
-- Release once).
pub data Step : ConcurrencyGate × ℕ → ConcurrencyGate × ℕ → Type 0 where
  acquires :
      {g g' : ConcurrencyGate} {holders : ℕ}
      → acquire g ≡ some (true, g')
      → Step (g, holders) (g', suc holders)
  refused :
      {g g' : ConcurrencyGate} {holders : ℕ}
      → acquire g ≡ some (false, g')
      → Step (g, holders) (g', holders)
  releases : {g : ConcurrencyGate} {holders : ℕ} → Step (g, suc holders) (release g, holders)
  stops : {g : ConcurrencyGate} {holders : ℕ} → Step (g, holders) (release_all g, holders)

pub data Reachable (limit : ℕ) : ConcurrencyGate × ℕ → Type 0 where
  start : Reachable limit (new_gate limit, 0)
  next : {s s' : ConcurrencyGate × ℕ} → Reachable limit s → Step s s' → Reachable limit s'

Counts : ℕ → ConcurrencyGate × ℕ → Type 0
Counts limit (g, holders) =
    (g.limit ≡ limit) × (g.in_flight ≡ holders) × ((0 < limit) → holders ≤ limit)

Step-Counts :
    (limit : ℕ) {s s' : ConcurrencyGate × ℕ} → Step s s' → Counts limit s → Counts limit s'
unfolding Counts acquire release release_all
Step-Counts limit (acquires {g} {g'} {holders} e) c = ground arith
Step-Counts limit (refused {g} {g'} {holders} e) c = ground arith
Step-Counts limit (releases {g} {holders}) c = ground arith
Step-Counts limit stops c = c

reachable-Counts : (limit : ℕ) {s : ConcurrencyGate × ℕ} → Reachable limit s → Counts limit s
unfolding Counts new_gate
reachable-Counts limit start = (refl, refl, λ h. omega arith)
reachable-Counts limit (next r st) = Step-Counts limit st (reachable-Counts limit r)

-- Whatever the threads do and in whatever order, a gate with a positive limit never lets more
-- threads hold a permit than its limit.
pub holders-bounded :
    {limit holders : ℕ} {g : ConcurrencyGate}
    → 0 < limit
    → Reachable limit (g, holders)
    → holders ≤ limit
unfolding Counts
holders-bounded h r = (reachable-Counts _ r).2 h

-- Drain reports that the gate is drained exactly when no thread holds a permit, limit or not.
pub drained-iff-no_holders :
    {limit holders : ℕ} {g : ConcurrencyGate}
    → Reachable limit (g, holders)
    → (drained g ≡ true) ↔ (holders ≡ 0)
unfolding Counts drained
drained-iff-no_holders r = let c = reachable-Counts _ r in (ground (arith, c), ground (arith, c))
