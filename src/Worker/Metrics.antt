-- ===== src/Worker/Metrics.antt =====
-- WorkerImpl::EmitStickyCacheMetrics (src/internal/worker_impl.cpp): the counter of cache hits. A
-- poll loop reads the running total first, and turns it into a delta under the mutex later; other
-- loops do the same in between. The counter of misses has the same code.
use temporal_cpp.Prelude.{ℕ, ◌+◌, ◌-◌, ◌≤◌, ◌<◌, ◌≡◌, List, [], ◌∷◌, if◌then◌else◌, ltb, arith}

-- `last_cache_hits_`, and what the counter of the metrics handler has received.
pub record HitMetrics : Type 0 where
  pub last : ℕ
  pub counted : ℕ

-- The critical section and the Counter call behind it, for the total that was read.
unfoldable pub emit : ℕ → HitMetrics → HitMetrics
emit hits m = record {
  last = hits;
  counted = if ltb m.last hits then m.counted + (hits - m.last) else m.counted;
}

-- The sections in the order in which the loops enter them.
unfoldable pub emit_all : List ℕ → HitMetrics → HitMetrics
unfolding emit
emit_all [] m = m
emit_all (hits ∷ later) m = emit_all later (emit hits m)

-- Totals that were read in the order of the sections.
abbrev pub InOrder : ℕ → List ℕ → Type 0
InOrder low [] = Unit
InOrder low (hits ∷ later) = (low ≤ hits) × InOrder hits later

abbrev pub last_of : ℕ → List ℕ → ℕ
last_of low [] = low
last_of low (hits ∷ later) = last_of hits later

emit_all-from :
    (reads : List ℕ) (m : HitMetrics)
    → InOrder m.last reads
    → (emit_all reads m).counted + m.last ≡ m.counted + last_of m.last reads
unfolding emit_all
emit_all-from [] m h = omega arith
emit_all-from (hits ∷ later) m h =
    let rest = emit_all-from later (emit hits m) h.1 in ground (arith, rest)

-- If the loops enter the section in the order in which they read the total, the counter has received
-- as many hits as there were.
pub emit_all-counts :
    (reads : List ℕ)
    → InOrder 0 reads
    → (emit_all reads (record { last = 0; counted = 0 })).counted ≡ last_of 0 reads
emit_all-counts reads h = omega (arith, emit_all-from reads (record { last = 0; counted = 0 }) h)

-- A loop that read the total before another one and enters the section after it makes the next loop
-- count the hits between the two reads again: the counter has received more hits than there were.
pub late_emit-counts_twice :
    (a b c : ℕ)
    → a < b
    → b ≤ c
    → (emit_all (b ∷ a ∷ c ∷ []) (record { last = 0; counted = 0 })).counted ≡ c + (b - a)
unfolding emit_all
late_emit-counts_twice a b c h k = ground arith
