-- ===== src/Worker/Wakeups/Lost.antt =====
-- Whether a thread that waits in a gate or in a scaler learns that the worker stops.
use temporal_cpp.Prelude.{
  ◌≡◌, refl, inl, inr, Bool, true, false, none, some, arith, ltb, ℕ, zero, suc, Bool-cases,
  number_key, ◌==◌,
}
use temporal_cpp.Worker.{PollerScaler, ConcurrencyGate}
use temporal_cpp.Worker.Wakeups.{
  Wait, Mutex, free, waiters, stoppers, Waiter, testing, falling, asleep, through, Stopper, idle,
  in_section, stored, notified, slot_ready, permit_ready, wait_step, release_all_step, wake_step,
  before_wait, Reachable, start, waits, stops,
}

-- What the mutex and the flag are beside ReleaseAll, by where the two threads stand; ⊥ where they
-- never stand.
abbrev Held : Stopper → Waiter → Mutex → Bool → Type 0
Held idle testing m f = (m ≡ waiters) × (f ≡ false)
Held idle falling m f = (m ≡ waiters) × (f ≡ false)
Held idle w m f = (m ≡ free) × (f ≡ false)
Held in_section testing m f = ⊥
Held in_section falling m f = ⊥
Held in_section w m f = (m ≡ stoppers) × (f ≡ false)
Held stored testing m f = (m ≡ waiters) × (f ≡ true)
Held stored falling m f = ⊥
Held stored w m f = (m ≡ free) × (f ≡ true)
Held notified testing m f = (m ≡ waiters) × (f ≡ true)
Held notified falling m f = ⊥
Held notified asleep m f = ⊥
Held notified w m f = (m ≡ free) × (f ≡ true)

abbrev IsHeld : Wait → Type 0
IsHeld w = Held w.stopper w.waiter w.mutex w.flag

wait_step-IsHeld :
    (ready : Bool → Bool) (w w' : Wait)
    → ready true ≡ true
    → wait_step ready w ≡ some w'
    → IsHeld w
    → IsHeld w'
unfolding wait_step
wait_step-IsHeld ready w w' r h s = ground arith

release_all_step-IsHeld : (w w' : Wait) → release_all_step w ≡ some w' → IsHeld w → IsHeld w'
unfolding release_all_step
release_all_step-IsHeld w w' h s = ground arith

Reachable-IsHeld :
    (ready : Bool → Bool) {w : Wait}
    → ready true ≡ true
    → Reachable ready release_all_step w
    → IsHeld w
Reachable-IsHeld ready r start = (refl, refl)
Reachable-IsHeld ready r (waits {w} {w'} before h) =
    wait_step-IsHeld ready w w' r h (Reachable-IsHeld ready r before)
Reachable-IsHeld ready r (stops {w} {w'} before h) =
    release_all_step-IsHeld w w' h (Reachable-IsHeld ready r before)

permit_ready-released : (g : ConcurrencyGate) → permit_ready g true ≡ true
unfolding permit_ready
permit_ready-released g = elim (Bool-cases (g.limit == 0)) [
  | inl e ↦ rw (e, permit_ready)
  | inr e ↦ rw (e, permit_ready)
]

-- The waiting thread alone, for a number of steps.
abbrev pub settle : (Bool → Bool) → ℕ → Wait → Wait
settle ready zero w = w
settle ready (suc n) w = elim (wait_step ready w) [ none ↦ w | some w' ↦ settle ready n w' ]

-- Once ReleaseAll has returned, a thread that waits for a permit is not asleep, in whatever order the
-- two threads took their steps: it leaves its wait after two steps of its own at most.
pub release_all-wakes :
    (g : ConcurrencyGate) {w : Wait}
    → Reachable (permit_ready g) release_all_step w
    → w.stopper ≡ notified
    → (settle (permit_ready g) 2 w).waiter ≡ through
unfolding wait_step
release_all-wakes g r e =
    let ready = permit_ready-released g in
    let held = Reachable-IsHeld (permit_ready g) ready r in ground arith

-- A poller that found no slot and has not fallen asleep yet, when Stop stores `stop_` and calls Wake.
abbrev pub overtaken : Wait
overtaken = record { mutex = free; flag = true; waiter = asleep; stopper = notified }

-- PollerScaler::Wake does not take the mutex, and neither does the store of `stop_`. Whenever a
-- poller finds no slot, there is an interleaving in which both happen between its test and its
-- falling asleep: Stop has stored the flag and called Wake, the poller sleeps, and neither of the
-- two has a step left, so the join of Stop waits for ever unless another poller notifies.
pub wake-loses_wakeup :
    (s : PollerScaler)
    → ltb s.scalable_active s.target ≡ false
    → Reachable (slot_ready s) wake_step overtaken
      × (wait_step (slot_ready s) overtaken ≡ none)
      × (wake_step overtaken ≡ none)
unfolding wait_step wake_step slot_ready
wake-loses_wakeup s busy =
    let entered =
      waits {w' = record before_wait { mutex = waiters; waiter = testing }} start refl in
    let tested =
      waits {w' = record before_wait { mutex = waiters; waiter = falling }} entered
        (rw (busy, slot_ready)) in
    let stored_flag =
      stops
        {w' = record before_wait {
          mutex = waiters;
          waiter = falling;
          flag = true;
          stopper = stored;
        }}
        tested refl in
    let woken_all =
      stops
        {w' = record before_wait {
          mutex = waiters;
          waiter = falling;
          flag = true;
          stopper = notified;
        }}
        stored_flag refl in
    (waits woken_all refl, refl, refl)
