-- ===== src/Worker/Polling/Flags.antt =====
-- What the flags of a worker say of where Stop stands, and what they leave a thread to do.
use temporal_cpp.Prelude.{
  ℕ, zero, suc, ◌+◌, ◌*◌, ◌≤◌, ◌<◌, ◌≡◌, refl, sym, ap, ◌∙◌, inl, inr, true, false, some, List, [],
  ◌∷◌, ◌++◌, arith, Bool-cases, length, number_key, ◌==◌,
}
use mathlib.Core.Path.{subst}
use temporal_cpp.Worker.{taken, acquire, release, release_all, acquire_slot, release_slot, report}
use temporal_cpp.Worker.Polling.{
  Pool, Kind, Position, Event, goes, rpc_returns, rpc_throws, handle_returns, handle_throws,
  at_head, parked, falling, asleep, polling, polled, accepted, pacing, gating, handling, caught,
  ended, poll_step, Stopping, drains, stores, released_gates, woken, joins, returned, Workers,
  all_ended, has_ended, stop_step, OwnStep, Step, own, wakes, thread_steps, stop_steps, Reachable,
  start, next, rouse,
}
use temporal_cpp.Worker.Polling.Slots.{total}

-- How many steps a thread has left at most once the worker stops.
abbrev pub left : Position → ℕ
left at_head = 1
left parked = 1
left falling = 3
left asleep = 2
left polling = 2
left (polled got) = 1
left accepted = 2
left pacing = 1
left gating = 3
left handling = 2
left caught = 1
left ended = 0

abbrev pub left_all : List (Kind × Position) → ℕ
left_all [] = 0
left_all ((k, p) ∷ ts) = left p + left_all ts

abbrev pub left_stop : Stopping → ℕ
left_stop stores = 4
left_stop released_gates = 3
left_stop woken = 2
left_stop joins = 1
left_stop returned = 0
left_stop _ = 6

pub left_all-append :
    (xs ys : List (Kind × Position)) → left_all (xs ++ ys) ≡ left_all xs + left_all ys
left_all-append [] ys = omega arith
left_all-append ((k, p) ∷ xs) ys = omega (arith, left_all-append xs ys)

pub left_all-bound : (ts : List (Kind × Position)) → left_all ts ≤ 3 * length ts
left_all-bound [] = omega arith
left_all-bound ((k, p) ∷ ts) = omega (arith, left_all-bound ts, left_bound p)
  where
    left_bound : (q : Position) → left q ≤ 3
    left_bound q = ground arith

-- Stop has stored `stop_`.
abbrev pub IsStopping : Workers → Type 0
IsStopping w = left_stop w.stopping ≤ 4

-- The flags follow where Stop stands.
pub record Flags (w : Workers) : Type 0 where
  pub draining : w.stopping ≡ drains → w.pool.draining ≡ true
  pub stops : IsStopping w → (w.pool.stop ≡ true) × (w.pool.draining ≡ true)
  pub opens : left_stop w.stopping ≤ 3 → w.pool.gate.released ≡ true

poll_step-flags :
    (k : Kind) (e : Event) (p : Position) (pool : Pool) {p' : Position} {pool' : Pool}
    → poll_step k e p pool ≡ some (p', pool')
    → (pool'.stop ≡ pool.stop)
      × (pool'.draining ≡ pool.draining)
      × (pool'.gate.released ≡ pool.gate.released)
unfolding poll_step acquire_slot release_slot report acquire release
poll_step-flags k goes p pool h = (ground arith, ground arith, ground arith)
poll_step-flags k (rpc_returns got) p pool h = (ground arith, ground arith, ground arith)
poll_step-flags k rpc_throws p pool h = (ground arith, ground arith, ground arith)
poll_step-flags k handle_returns p pool h = (ground arith, ground arith, ground arith)
poll_step-flags k handle_throws p pool h = (ground arith, ground arith, ground arith)

-- With both flags stored, each step of a thread brings its end nearer.
pub poll_step-left :
    (k : Kind) (e : Event) (p : Position) (pool : Pool) {p' : Position} {pool' : Pool}
    → poll_step k e p pool ≡ some (p', pool')
    → pool.stop ≡ true
    → pool.draining ≡ true
    → left p' < left p
unfolding poll_step acquire_slot release_slot report acquire release
poll_step-left k goes p pool h s d = ground arith
poll_step-left k (rpc_returns got) p pool h s d = ground arith
poll_step-left k rpc_throws p pool h s d = ground arith
poll_step-left k handle_returns p pool h s d = ground arith
poll_step-left k handle_throws p pool h s d = ground arith

-- A thread that is about to sleep, and one that sleeps.
abbrev pub falls : Kind × Position → ℕ
falls (k, falling) = 1
falls (k, _) = 0

abbrev pub sleeps : Kind × Position → ℕ
sleeps (k, asleep) = 1
sleeps (k, _) = 0

-- Once `stop_` is stored, no thread goes to sleep that was not about to.
pub poll_step-awake :
    (k : Kind) (e : Event) (p : Position) (pool : Pool) {p' : Position} {pool' : Pool}
    → poll_step k e p pool ≡ some (p', pool')
    → pool.stop ≡ true
    → falls (k, p) ≡ 0
    → (falls (k, p') ≡ 0) × (sleeps (k, p') ≡ 0)
unfolding poll_step acquire_slot acquire
poll_step-awake k goes p pool h s n = (ground arith, ground arith)
poll_step-awake k (rpc_returns got) p pool h s n = (ground arith, ground arith)
poll_step-awake k rpc_throws p pool h s n = (ground arith, ground arith)
poll_step-awake k handle_returns p pool h s n = (ground arith, ground arith)
poll_step-awake k handle_throws p pool h s n = (ground arith, ground arith)

-- Wake leaves no thread asleep, and none further from its end.
pub rouse-awake :
    (ts : List (Kind × Position))
    → (total falls (rouse ts) ≡ total falls ts)
      × (total sleeps (rouse ts) ≡ 0)
      × (left_all (rouse ts) ≤ left_all ts)
unfolding rouse
rouse-awake [] = (refl, refl, omega arith)
rouse-awake ((k, asleep) ∷ ts) =
    let rest = rouse-awake ts in
    (omega (arith, rest.0), omega (arith, rest.1), omega (arith, rest.2))
rouse-awake ((k, p) ∷ ts) =
    let rest = rouse-awake ts in
    (omega (arith, rest.0), omega (arith, rest.1), omega (arith, rest.2))

-- A thread that neither sleeps nor has ended can go on, once the gate is released as well.
abbrev pub CanStep : Kind → Position → Pool → Type 0
CanStep k p pool =
    (e : Event) × (p' : Position) × (pool' : Pool) × (poll_step k e p pool ≡ some (p', pool'))

gate_opens : (pool : Pool) (k : Kind) → pool.gate.released ≡ true → CanStep k gating pool
unfolding poll_step acquire
gate_opens pool k o = elim (Bool-cases (pool.gate.limit == 0)) [
  | inl e ↦ (goes, handling, record pool { gate = taken pool.gate }, rw e)
  | inr e ↦ (goes, ended, pool, rw (e, o))
]

one_not_zero : ¬ (suc zero ≡ zero)
one_not_zero h = omega (arith, h)

pub can_step :
    (k : Kind) (p : Position) (pool : Pool)
    → pool.stop ≡ true
    → pool.gate.released ≡ true
    → has_ended p ≡ false
    → sleeps (k, p) ≡ 0
    → CanStep k p pool
unfolding poll_step acquire_slot
can_step k at_head pool s o n a = (goes, _, _, refl)
can_step k falling pool s o n a = (goes, _, _, refl)
can_step k asleep pool s o n a = absurd (one_not_zero a)
can_step k parked pool s o n a = (goes, ended, pool, rw s)
can_step k polling pool s o n a = (rpc_throws, _, _, refl)
can_step k (polled got) pool s o n a = (goes, _, _, refl)
can_step k accepted pool s o n a = (goes, _, _, refl)
can_step k pacing pool s o n a = (goes, _, _, refl)
can_step k gating pool s o n a = gate_opens pool k o
can_step k handling pool s o n a = (handle_returns, _, _, refl)
can_step k caught pool s o n a = (goes, _, _, refl)
can_step k ended pool s o n a = cc

-- A thread that has not ended, where there is one.
pub record Busy (ts : List (Kind × Position)) : Type 0 where
  pub before : List (Kind × Position)
  pub after : List (Kind × Position)
  pub kind : Kind
  pub position : Position
  pub here : ts ≡ before ++ (kind, position) ∷ after
  pub busy : has_ended position ≡ false

pub find-Busy : (ts : List (Kind × Position)) → all_ended ts ≡ false → Busy ts
find-Busy [] h = cc
find-Busy ((k, p) ∷ ts) h = elim (Bool-cases (has_ended p)) [
  | inl e ↦
      let rest = find-Busy ts (ground arith) in
      record {
        before = (k, p) ∷ rest.before;
        after = rest.after;
        kind = rest.kind;
        position = rest.position;
        here = ap (λ l. (k, p) ∷ l) rest.here;
        busy = rest.busy;
      }
  | inr e ↦ record { before = []; after = ts; kind = k; position = p; here = refl; busy = e }
]

OwnStep-Flags : {w w' : Workers} → OwnStep w w' → Flags w → Flags w'
unfolding stop_step release_all
OwnStep-Flags (thread_steps {w} {pool} {p'} before after k p e same h) f =
    let kept = poll_step-flags k e p w.pool h in
    record {
      draining = λ i. kept.1 ∙ f.draining i;
      stops = λ i. (kept.0 ∙ (f.stops i).0, kept.1 ∙ (f.stops i).1);
      opens = λ i. kept.2 ∙ f.opens i;
    }
OwnStep-Flags (stop_steps {w} {w'} overdue h) f = record {
  draining = λ i. ground (arith, f.draining);
  stops = λ i. ground (arith, f.draining, f.stops);
  opens = λ i. ground (arith, f.opens);
}

Step-Flags : {w w' : Workers} → Step w w' → Flags w → Flags w'
Step-Flags (own st) f = OwnStep-Flags st f
Step-Flags (wakes before after k same) f = record {
  draining = f.draining;
  stops = f.stops;
  opens = f.opens;
}

pub six_not_le : (n : ℕ) → n < 6 → ¬ (6 ≤ n)
six_not_le n h i = omega arith

pub reachable-Flags : {w : Workers} → Reachable w → Flags w
reachable-Flags (start {w} f) = record {
  draining = λ i. cc (sym f.running ∙ i);
  stops = λ i. absurd (six_not_le 4 (omega arith) (subst (λ s. left_stop s ≤ 4) f.running i));
  opens = λ i. absurd (six_not_le 3 (omega arith) (subst (λ s. left_stop s ≤ 3) f.running i));
}
reachable-Flags (next r st) = Step-Flags st (reachable-Flags r)
