-- ===== src/Worker/Scaling.antt =====
-- The pollers that a PollerScaler lets poll, over the interleavings of its threads.
use temporal_cpp.Prelude.{ℕ, ◌+◌, ◌≤◌, ◌<◌, ◌≡◌, Bool, true, false, some, arith}
use temporal_cpp.Worker.{
  PollerScaler, new_scaler, configure, acquire_slot, release_slot, report, active,
}

pub data Step : PollerScaler → PollerScaler → Type 0 where
  acquires :
      {s s' : PollerScaler} {polls : Bool} (stop : Bool)
      → acquire_slot stop s ≡ some (polls, s')
      → Step s s'
  releases : {s : PollerScaler} → Step s (release_slot s)
  reports : {s : PollerScaler} (got_task : Bool) → Step s (report got_task s)

pub data Reachable (hot max polls : ℕ) : PollerScaler → Type 0 where
  start : Reachable hot max polls (configure hot max polls new_scaler)
  next : {s s' : PollerScaler} → Reachable hot max polls s → Step s s' → Reachable hot max polls s'

record Fits (hot max : ℕ) (s : PollerScaler) : Type 0 where
  same_hot : s.always_hot ≡ hot
  same_max : s.max_scalable ≡ max
  target_fits : s.target ≤ max
  active_fits : s.scalable_active ≤ max
  streak_fits : s.empty_streak < s.empty_threshold

Step-Fits : (hot max : ℕ) {s s' : PollerScaler} → Step s s' → Fits hot max s → Fits hot max s'
unfolding acquire_slot release_slot report
Step-Fits hot max (acquires {s} {s'} {polls} stop e) f = ground arith
Step-Fits hot max (releases) f = ground arith
Step-Fits hot max (reports true) f = ground arith
Step-Fits hot max (reports false) f = ground arith

reachable-Fits : (hot max polls : ℕ) {s : PollerScaler} → Reachable hot max polls s → Fits hot max s
unfolding configure
reachable-Fits hot max polls start = ground arith
reachable-Fits hot max polls (next r st) = Step-Fits hot max st (reachable-Fits hot max polls r)

-- However polls, results and releases interleave after Configure, between the always hot pollers
-- and those plus all the scalable ones are polling.
pub active-bounded :
    {hot max polls : ℕ} {s : PollerScaler}
    → Reachable hot max polls s
    → (hot ≤ active s) × (active s ≤ hot + max)
unfolding active
active-bounded r =
    let f = reachable-Fits _ _ _ r in
    (omega (arith, f.same_hot), omega (arith, f.same_hot, f.active_fits))
