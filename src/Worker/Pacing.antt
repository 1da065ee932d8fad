-- ===== src/Worker/Pacing.antt =====
-- The slots of a RateLimiter.
use temporal_cpp.Prelude.{ℕ, ◌+◌, ◌≤◌, List, [], ◌∷◌, arith}
use temporal_cpp.Worker.{RateLimiter, reserve}

-- The slots of the calls at the given times, in the order in which they take the mutex.
abbrev pub slots : List ℕ → RateLimiter → List ℕ
slots [] l = []
slots (now ∷ nows) l = (reserve now l).0 ∷ slots nows (reserve now l).1

-- Every element is at least `gap` past the one before, the first past `from`.
pub data Paced (gap : ℕ) : ℕ → List ℕ → Type 0 where
  done : {from : ℕ} → Paced gap from []
  slot :
      {from at_time : ℕ} {later : List ℕ}
      → from ≤ at_time
      → Paced gap (at_time + gap) later
      → Paced gap from (at_time ∷ later)

-- Whenever the tasks of a worker ask to start, the slots that they are given are at least the
-- interval apart, and none lies before the one that was free at the start: no burst goes through.
pub slots-Paced : (nows : List ℕ) (l : RateLimiter) → Paced l.interval l.next_slot (slots nows l)
unfolding reserve
slots-Paced [] l = done
slots-Paced (now ∷ nows) l = slot (ground arith) (slots-Paced nows (reserve now l).1)
