-- ===== src/Worker.antt =====
-- What bounds the pollers of a worker (src/internal/worker_impl.h): ConcurrencyGate, RateLimiter
-- and PollerScaler. Each critical section of their mutexes is one function on the state. A wait on
-- the condition variable is a call that does not return yet, `none`. Times are in nanoseconds.
pub mod Gate
pub mod Pacing
pub mod Scaling
pub mod Sessions
pub mod Start
pub mod Metrics
pub mod Wakeups
pub mod Polling
use temporal_cpp.Prelude.{
  ℕ, suc, ◌+◌, ◌-◌, Bool, true, false, Option, none, some, if◌then◌else◌, ltb, leb, ◌||◌,
  number_key, ◌==◌, not,
}

-- A limit of 0 is every `limit_ <= 0`.
pub record ConcurrencyGate : Type 0 where
  pub limit : ℕ
  pub in_flight : ℕ
  pub released : Bool

unfoldable pub new_gate : ℕ → ConcurrencyGate
new_gate limit = record { limit = limit; in_flight = 0; released = false }

abbrev pub taken : ConcurrencyGate → ConcurrencyGate
taken g = record g { in_flight = suc g.in_flight }

-- ConcurrencyGate::Acquire: waits, is refused because the gate was released, or takes a permit.
unfoldable pub acquire : ConcurrencyGate → Option (Bool × ConcurrencyGate)
acquire g =
    if g.limit == 0
    then some (true, taken g)
    else (if g.released
        then some (false, g)
        else (if ltb g.in_flight g.limit then some (true, taken g) else none))

unfoldable pub release : ConcurrencyGate → ConcurrencyGate
release g = record g { in_flight = g.in_flight - 1 }

unfoldable pub release_all : ConcurrencyGate → ConcurrencyGate
release_all g = record g { released = true }

-- Drain, when it looks: whether every permit is back.
unfoldable pub drained : ConcurrencyGate → Bool
drained g = g.in_flight == 0

-- The slots of a RateLimiter with a positive rate; `interval` is 1/per_second.
pub record RateLimiter : Type 0 where
  pub interval : ℕ
  pub next_slot : ℕ

-- The slot that RateLimiter::Acquire waits for when it is called at `now`.
unfoldable pub reserve : ℕ → RateLimiter → ℕ × RateLimiter
reserve now l =
    let allowed = if ltb l.next_slot now then now else l.next_slot in
    (allowed, record l { next_slot = allowed + l.interval })

pub record PollerScaler : Type 0 where
  pub always_hot : ℕ
  pub max_scalable : ℕ
  pub empty_threshold : ℕ
  pub target : ℕ
  pub scalable_active : ℕ
  pub empty_streak : ℕ

abbrev pub new_scaler : PollerScaler
new_scaler = record {
  always_hot = 0;
  max_scalable = 0;
  empty_threshold = 1;
  target = 0;
  scalable_active = 0;
  empty_streak = 0;
}

-- PollerScaler::Configure
unfoldable pub configure : ℕ → ℕ → ℕ → PollerScaler → PollerScaler
configure always_hot max_scalable empty_polls s = record s {
  always_hot = always_hot;
  max_scalable = max_scalable;
  empty_threshold = if ltb 0 empty_polls then empty_polls else 1;
  target = 0;
}

-- PollerScaler::Acquire, with the flag that the worker stops.
unfoldable pub acquire_slot : Bool → PollerScaler → Option (Bool × PollerScaler)
acquire_slot stop s =
    if stop
    then some (false, s)
    else (if ltb s.scalable_active s.target
        then some (true, record s { scalable_active = suc s.scalable_active })
        else none)

unfoldable pub release_slot : PollerScaler → PollerScaler
release_slot s = record s { scalable_active = s.scalable_active - 1 }

-- PollerScaler::Report
unfoldable pub report : Bool → PollerScaler → PollerScaler
report true s = record s {
  empty_streak = 0;
  target = if ltb s.target s.max_scalable then suc s.target else s.target;
}
report false s =
    if leb s.empty_threshold (suc s.empty_streak)
    then record s { empty_streak = 0; target = s.target - 1 }
    else record s { empty_streak = suc s.empty_streak }

unfoldable pub active : PollerScaler → ℕ
active s = s.always_hot + s.scalable_active
