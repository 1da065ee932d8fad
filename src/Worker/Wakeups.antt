-- ===== src/Worker/Wakeups.antt =====
-- The condition variables of ConcurrencyGate and PollerScaler (src/internal/worker_impl.h), for one
-- thread in `cv_.wait(lock, predicate)` and the thread that stops the worker. The wait tests its
-- predicate under the mutex, and gives the mutex up in the same instant in which it falls asleep.
pub mod Lost
use temporal_cpp.Prelude.{◌≡◌, Bool, true, false, Option, none, some, if◌then◌else◌}
use temporal_cpp.Worker.{PollerScaler, ConcurrencyGate, acquire, acquire_slot}

pub data Mutex : Type 0 where
  free : Mutex
  waiters : Mutex
  stoppers : Mutex

-- The waiting thread: before it has the mutex, before the test, behind a test that failed (it still
-- has the mutex), asleep, and behind the wait.
pub data Waiter : Type 0 where
  entering : Waiter
  testing : Waiter
  falling : Waiter
  asleep : Waiter
  through : Waiter

-- The stopping thread: before, in its critical section, behind its store, behind notify_all.
pub data Stopper : Type 0 where
  idle : Stopper
  in_section : Stopper
  stored : Stopper
  notified : Stopper

pub record Wait : Type 0 where
  pub mutex : Mutex
  pub flag : Bool
  pub waiter : Waiter
  pub stopper : Stopper

-- Whether the wait of PollerScaler::Acquire is over, by what `stop` is.
unfoldable pub slot_ready : PollerScaler → Bool → Bool
unfolding acquire_slot
slot_ready s stop = elim (acquire_slot stop s) [ none ↦ false | some r ↦ true ]

-- Whether the wait of ConcurrencyGate::Acquire is over, by what `released_` is.
unfoldable pub permit_ready : ConcurrencyGate → Bool → Bool
unfolding acquire
permit_ready g released = elim (acquire (record g { released = released })) [
  | none ↦ false
  | some r ↦ true
]

-- One step of `cv_.wait`.
unfoldable pub wait_step : (Bool → Bool) → Wait → Option Wait
wait_step ready w = elim w.waiter [
  | entering ↦ elim w.mutex [
    | free ↦ some (record w { mutex = waiters; waiter = testing })
    | _ ↦ none
  ]
  | testing ↦ some (
      if ready w.flag
      then record w { mutex = free; waiter = through }
      else record w { waiter = falling })
  | falling ↦ some (record w { mutex = free; waiter = asleep })
  | asleep ↦ none
  | through ↦ none
]

abbrev woken : Waiter → Waiter
woken asleep = entering
woken w = w

-- `cv_.notify_all()`
unfoldable pub notify_all : Wait → Wait
notify_all w = record w { waiter = woken w.waiter; stopper = notified }

-- ConcurrencyGate::ReleaseAll
unfoldable pub release_all_step : Wait → Option Wait
unfolding notify_all
release_all_step w = elim w.stopper [
  | idle ↦ elim w.mutex [
    | free ↦ some (record w { mutex = stoppers; stopper = in_section })
    | _ ↦ none
  ]
  | in_section ↦ some (record w { mutex = free; flag = true; stopper = stored })
  | stored ↦ some (notify_all w)
  | notified ↦ none
]

-- `stop_.store(true)`, and then PollerScaler::Wake
unfoldable pub wake_step : Wait → Option Wait
unfolding notify_all
wake_step w = elim w.stopper [
  | idle ↦ some (record w { flag = true; stopper = stored })
  | in_section ↦ none
  | stored ↦ some (notify_all w)
  | notified ↦ none
]

abbrev pub before_wait : Wait
before_wait = record { mutex = free; flag = false; waiter = entering; stopper = idle }

-- The interleavings of a wait on a predicate with a way to stop.
pub data Reachable (ready : Bool → Bool) (stop : Wait → Option Wait) : Wait → Type 0 where
  start : Reachable ready stop before_wait
  waits :
      {w w' : Wait} → Reachable ready stop w → wait_step ready w ≡ some w' → Reachable ready stop w'
  stops : {w w' : Wait} → Reachable ready stop w → stop w ≡ some w' → Reachable ready stop w'
