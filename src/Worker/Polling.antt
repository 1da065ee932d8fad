-- ===== src/Worker/Polling.antt =====
-- The poll loops of a worker and Stop (src/internal/worker_impl.cpp): WorkflowPollLoop,
-- ActivityPollLoop and NexusPollLoop step by step, between two reads or writes of what the threads
-- share. A wait in the scaler's Acquire tests, falls asleep and is woken in steps of its own, since
-- `stop_` is stored and Wake is called without the scaler's mutex. A wait in a gate is read as its
-- predicate: all that changes it holds the gate's mutex and notifies, so no wake-up of it is lost.
-- Report and Release behind a poll are one step, and metrics and logging are left out. A worker is
-- read for one kind of task: the flags are shared by all kinds, each has its own scaler and gate, and
-- the ReleaseAll, Wake and Drain that Stop calls for each are the ones of this kind.
pub mod Slots
pub mod Accounts
pub mod Flags
pub mod Shutdown
use temporal_cpp.Prelude.{
  ◌≡◌, Bool, true, false, not, ◌&&◌, Option, none, some, List, [], ◌∷◌, ◌++◌, if◌then◌else◌,
}
use temporal_cpp.Worker.{
  PollerScaler, ConcurrencyGate, acquire, release, release_all, drained, acquire_slot, release_slot,
  report,
}

-- What the loops of one kind share: the flags of the worker, and the scaler and gate of the kind.
pub record Pool : Type 0 where
  pub stop : Bool
  pub draining : Bool
  pub scaler : PollerScaler
  pub gate : ConcurrencyGate

-- What sets one loop apart: whether it parks in the scaler, whether it reports to it, and whether
-- it waits for the rate limiter.
pub record Kind : Type 0 where
  pub scalable : Bool
  pub reports : Bool
  pub limited : Bool

-- WorkflowPollLoop, with `scalable` and `options_.enable_poller_autoscaling`.
abbrev pub workflow_kind : Bool → Bool → Kind
workflow_kind scalable autoscaling = record {
  scalable = scalable;
  reports = autoscaling;
  limited = false;
}

-- ActivityPollLoop, with `session` besides.
abbrev pub activity_kind : Bool → Bool → Bool → Kind
activity_kind session scalable autoscaling = record {
  scalable = not session && scalable;
  reports = autoscaling && not session;
  limited = true;
}

-- NexusPollLoop
abbrev pub nexus_kind : Kind
nexus_kind = record { scalable = false; reports = false; limited = false }

-- Where a thread stands: at the head of `while`, in the scaler's Acquire (before the test, between a
-- test that failed and the sleep, asleep), in the poll RPC, behind it (with whether it brought a task), before the test of `draining_`, in the rate limiter, in the
-- gate's Acquire, in Handle, in the handler of an exception, and behind the loop.
pub data Position : Type 0 where
  at_head : Position
  parked : Position
  falling : Position
  asleep : Position
  polling : Position
  polled : Bool → Position
  accepted : Position
  pacing : Position
  gating : Position
  handling : Position
  caught : Position
  ended : Position

-- What happens: the thread takes its next step, the RPC returns (with a task or not) or throws,
-- Handle returns or throws.
pub data Event : Type 0 where
  goes : Event
  rpc_returns : Bool → Event
  rpc_throws : Event
  handle_returns : Event
  handle_throws : Event

-- The test of the scaler's Acquire: it returns, or is about to sleep.
unfoldable pub unpark : Option (Bool × PollerScaler) → Pool → Option (Position × Pool)
unpark none p = some (falling, p)
unpark (some (false, s)) p = some (ended, p)
unpark (some (true, s)) p = some (polling, record p { scaler = s })

-- Report and Release behind a poll that returned.
unfoldable pub poll_returned : Kind → Bool → Pool → Pool
poll_returned k got p =
    let s₁ = if k.reports then report got p.scaler else p.scaler in
    record p { scaler = if k.scalable then release_slot s₁ else s₁ }

-- The catch of a poll that threw: `slot_released` is false.
unfoldable pub poll_threw : Kind → Pool → Pool
poll_threw k p = record p { scaler = if k.scalable then release_slot p.scaler else p.scaler }

-- The gate's Acquire, when it returns.
unfoldable pub admit : Option (Bool × ConcurrencyGate) → Pool → Option (Position × Pool)
admit none p = none
admit (some (false, g)) p = some (ended, p)
admit (some (true, g)) p = some (handling, record p { gate = g })

-- The permit goes back when Handle is left, before an exception is caught.
unfoldable pub handled : Pool → Pool
handled p = record p { gate = release p.gate }

-- One step of a thread; none where it waits or the event does not fit.
unfoldable pub poll_step : Kind → Event → Position → Pool → Option (Position × Pool)
unfolding unpark poll_returned poll_threw admit handled
poll_step k goes at_head p =
    some (if p.stop then ended else if k.scalable then parked else polling, p)
poll_step k goes parked p = unpark (acquire_slot p.stop p.scaler) p
poll_step k goes falling p = some (asleep, p)
poll_step k (rpc_returns got) polling p = some (polled got, poll_returned k got p)
poll_step k rpc_throws polling p = some (caught, poll_threw k p)
poll_step k goes (polled got) p =
    some (if p.stop then ended else if got then accepted else at_head, p)
poll_step k goes accepted p =
    some (if p.draining then at_head else if k.limited then pacing else gating, p)
poll_step k goes pacing p = some (if p.stop then ended else gating, p)
poll_step k goes gating p = admit (acquire p.gate) p
poll_step k handle_returns handling p = some (at_head, handled p)
poll_step k handle_throws handling p = some (caught, handled p)
poll_step k goes caught p = some (if p.stop then ended else at_head, p)
poll_step k _ _ p = none

-- Where the thread that calls Stop stands: before the call, behind `draining_.store`, behind
-- `stop_.store`, behind ReleaseAll, behind Wake, in the joins, and behind Stop.
pub data Stopping : Type 0 where
  not_called : Stopping
  drains : Stopping
  stores : Stopping
  released_gates : Stopping
  woken : Stopping
  joins : Stopping
  returned : Stopping

-- The worker: a pool, its threads, and the thread that stops it.
pub record Workers : Type 0 where
  pub pool : Pool
  pub threads : List (Kind × Position)
  pub stopping : Stopping

abbrev pub has_ended : Position → Bool
has_ended ended = true
has_ended _ = false

abbrev pub all_ended : List (Kind × Position) → Bool
all_ended [] = true
all_ended ((k, p) ∷ rest) = has_ended p && all_ended rest

-- Wake: notify_all, without the mutex, reaches the threads that are asleep by then and no other.
unfoldable pub rouse : List (Kind × Position) → List (Kind × Position)
rouse [] = []
rouse ((k, asleep) ∷ ts) = (k, parked) ∷ rouse ts
rouse (t ∷ ts) = t ∷ rouse ts

-- One step of Stop. `overdue` says that the deadline of Drain has passed, or that there is none.
unfoldable pub stop_step : Bool → Workers → Option Workers
unfolding rouse
stop_step overdue w = elim w.stopping [
  | not_called ↦ some (record w { pool = record w.pool { draining = true }; stopping = drains })
  | drains ↦ some (record w { pool = record w.pool { stop = true }; stopping = stores })
  | stores ↦ some (record w {
    pool = record w.pool { gate = release_all w.pool.gate };
    stopping = released_gates;
  })
  | released_gates ↦ some (record w { threads = rouse w.threads; stopping = woken })
  | woken ↦
      if overdue
      then some (record w { stopping = joins })
      else if drained w.pool.gate
      then some (record w { stopping = joins })
      else none
  | joins ↦ if all_ended w.threads then some (record w { stopping = returned }) else none
  | returned ↦ none
]

-- A worker as Start leaves it, for a gate's limit, a scaler and the kinds of its loops.
abbrev pub at_heads : List Kind → List (Kind × Position)
at_heads [] = []
at_heads (k ∷ ks) = (k, at_head) ∷ at_heads ks

-- A step that a thread, or Stop, takes by itself.
pub data OwnStep : Workers → Workers → Type 0 where
  thread_steps :
      {w : Workers} {pool : Pool} {p' : Position} (before after : List (Kind × Position)) (k : Kind)
      (p : Position) (e : Event)
      → w.threads ≡ before ++ (k, p) ∷ after
      → poll_step k e p w.pool ≡ some (p', pool)
      → OwnStep w (record w { pool = pool; threads = before ++ (k, p') ∷ after })
  stop_steps : {w w' : Workers} (overdue : Bool) → stop_step overdue w ≡ some w' → OwnStep w w'

-- Any interleaving of the threads and of Stop. A thread that sleeps may be woken at any time: by the
-- Report or the Release of another, or spuriously.
pub data Step : Workers → Workers → Type 0 where
  own : {w w' : Workers} → OwnStep w w' → Step w w'
  wakes :
      {w : Workers} (before after : List (Kind × Position)) (k : Kind)
      → w.threads ≡ before ++ (k, asleep) ∷ after
      → Step w (record w { threads = before ++ (k, parked) ∷ after })

pub record IsFresh (w : Workers) : Type 0 where
  pub running : w.stopping ≡ not_called
  pub no_stop : w.pool.stop ≡ false
  pub no_draining : w.pool.draining ≡ false
  pub no_slot : w.pool.scaler.scalable_active ≡ 0
  pub no_permit : w.pool.gate.in_flight ≡ 0
  pub kinds : (ks : List Kind) × (w.threads ≡ at_heads ks)

pub data Reachable : Workers → Type 0 where
  start : {w : Workers} → IsFresh w → Reachable w
  next : {w w' : Workers} → Reachable w → Step w w' → Reachable w'
