-- ===== src/Worker/Polling/Shutdown.antt =====
-- The end of a worker: Stop, once it has stored `stop_`, beside the threads of its pool.
use temporal_cpp.Prelude.{
  List, ◌++◌, ℕ, zero, suc, ◌+◌, ◌*◌, ◌≤◌, ◌<◌, ◌≡◌, refl, sym, ap, ◌∙◌, ◌⊎◌, inl, inr, Bool, true,
  some, ◌∷◌, arith, Bool-cases, length, number_key,
}
use mathlib.Core.Path.{subst}
use temporal_cpp.Worker.{release_all}
use temporal_cpp.Worker.Polling.{
  Kind, Position, Stopping, not_called, drains, stores, released_gates, woken, joins, returned,
  Workers, all_ended, stop_step, OwnStep, Step, own, wakes, thread_steps, stop_steps, Reachable,
  next, rouse, asleep, parked,
}
use temporal_cpp.Worker.Polling.Flags.{
  left, left_all, left_stop, left_all-append, left_all-bound, IsStopping, Flags, poll_step-left,
  can_step, find-Busy, six_not_le, reachable-Flags, falls, sleeps, poll_step-awake, rouse-awake,
}
use temporal_cpp.Worker.Polling.Slots.{total, total-append}

-- How many steps the worker has left at most.
abbrev left_steps : Workers → ℕ
left_steps w = left_stop w.stopping + left_all w.threads

-- No thread is about to sleep, and once Wake was called none sleeps.
record Awake (w : Workers) : Type 0 where
  pub none_falls : total falls w.threads ≡ 0
  pub none_sleeps : left_stop w.stopping ≤ 2 → total sleeps w.threads ≡ 0

-- Stop's calls bring its end nearer; the one of Wake rouses the threads, the others leave them.
stop_step-left :
    (overdue : Bool) (w w' : Workers)
    → stop_step overdue w ≡ some w'
    → IsStopping w
    → (left_stop w'.stopping < left_stop w.stopping)
      × (((w'.threads ≡ w.threads) × (left_stop w'.stopping ≤ 2 → left_stop w.stopping ≤ 2))
          ⊎ (w'.threads ≡ rouse w.threads))
unfolding stop_step release_all
stop_step-left overdue w w' h s = (ground arith, ground arith)

stop_step-Awake :
    (overdue : Bool) (w w' : Workers)
    → stop_step overdue w ≡ some w'
    → IsStopping w
    → Awake w
    → Awake w' × (left_all w'.threads ≤ left_all w.threads)
stop_step-Awake overdue w w' h s a = elim (stop_step-left overdue w w' h s).1 [
  | inl (e, later) ↦ (
    record {
      none_falls = ap (total falls) e ∙ a.none_falls;
      none_sleeps = λ i. ap (total sleeps) e ∙ a.none_sleeps (later i);
    },
    omega (arith, ap left_all e),
  )
  | inr e ↦
      let roused = rouse-awake w.threads in
      (
        record {
          none_falls = ap (total falls) e ∙ roused.0 ∙ a.none_falls;
          none_sleeps = λ i. ap (total sleeps) e ∙ roused.1;
        },
        omega (arith, ap left_all e, roused.2),
      )
]

-- What a sum over the threads becomes when one of them moves.
total-moved :
    (f : Kind × Position → ℕ) (before after : List (Kind × Position)) (t t' : Kind × Position)
    → total f (before ++ t' ∷ after) + f t ≡ total f (before ++ t ∷ after) + f t'
total-moved f before after t t' =
    omega (arith, total-append f before (t ∷ after), total-append f before (t' ∷ after))

-- One of several threads counts no more than all.
total-here :
    (f : Kind × Position → ℕ) (before after : List (Kind × Position)) (t : Kind × Position)
    → total f (before ++ t ∷ after) ≡ 0
    → f t ≡ 0
total-here f before after t h = omega (arith, total-append f before (t ∷ after), h)

Step-Awake : {w w' : Workers} → Step w w' → Flags w → IsStopping w → Awake w → Awake w'
Step-Awake (own (stop_steps {w} {w'} overdue h)) f s a = (stop_step-Awake overdue w w' h s a).0
Step-Awake (own (thread_steps {w} {pool} {p'} before after k p e same h)) f s a =
    let here = total-here falls before after (k, p) (ap (total falls) (sym same) ∙ a.none_falls) in
    let awake = poll_step-awake k e p w.pool h (f.stops s).0 here in
    record {
      none_falls = omega (
        arith,
        total-moved falls before after (k, p) (k, p'),
        awake.0,
        ap (total falls) same,
        a.none_falls,
      );
      none_sleeps = λ i. omega (
        arith,
        total-moved sleeps before after (k, p) (k, p'),
        awake.1,
        ap (total sleeps) same,
        a.none_sleeps i,
      );
    }
Step-Awake (wakes {w} before after k same) f s a = record {
  none_falls = omega (
    arith,
    total-moved falls before after (k, asleep) (k, parked),
    ap (total falls) same,
    a.none_falls,
  );
  none_sleeps = λ i. omega (
    arith,
    total-moved sleeps before after (k, asleep) (k, parked),
    ap (total sleeps) same,
    a.none_sleeps i,
  );
}

Step-left :
    {w w' : Workers} → Step w w' → Flags w → IsStopping w → Awake w → left_steps w' < left_steps w
Step-left (own (thread_steps {w} {pool} {p'} before after k p e same h)) f s a =
    let flags = f.stops s in
    let nearer = poll_step-left k e p w.pool h flags.0 flags.1 in
    let now : left_all w.threads ≡ left_all before + (left p + left_all after) =
      ap left_all same ∙ left_all-append before ((k, p) ∷ after) in
    omega (arith, nearer, now, left_all-append before ((k, p') ∷ after))
Step-left (own (stop_steps {w} {w'} overdue h)) f s a =
    omega (arith, (stop_step-left overdue w w' h s).0, (stop_step-Awake overdue w w' h s a).1)
Step-left (wakes {w} before after k same) f s a = omega (
  arith,
  ap left_all same,
  left_all-append before ((k, asleep) ∷ after),
  left_all-append before ((k, parked) ∷ after),
)

Step-IsStopping : {w w' : Workers} → Step w w' → IsStopping w → IsStopping w'
Step-IsStopping (wakes before after k same) s = s
Step-IsStopping (own (thread_steps before after k p e same h)) s = s
Step-IsStopping (own (stop_steps {w} {w'} overdue h)) s =
    let moved = stop_step-left overdue w w' h s in omega (arith, moved.0)

-- A number of steps, one after the other.
pub data Run : Workers → ℕ → Workers → Type 0 where
  stays : {w : Workers} → Run w zero w
  steps : {w u v : Workers} {n : ℕ} → Step w u → Run u n v → Run w (suc n) v

Run-left :
    {w v : Workers} {n : ℕ}
    → Run w n v
    → Reachable w
    → IsStopping w
    → Awake w
    → (n + left_steps v ≤ left_steps w) × Reachable v × IsStopping v × Awake v
Run-left stays r s a = (omega arith, r, s, a)
Run-left (steps st run) r s a =
    let f = reachable-Flags r in
    let nearer = Step-left st f s a in
    let rest = Run-left run (next r st) (Step-IsStopping st s) (Step-Awake st f s a) in
    (omega (arith, nearer, rest.0), rest.1, rest.2, rest.3)

-- Stop, or a thread that it joins, can go on until Stop has returned.
joins-progresses :
    (w : Workers)
    → w.stopping ≡ joins
    → w.pool.stop ≡ true
    → w.pool.gate.released ≡ true
    → total sleeps w.threads ≡ 0
    → (w' : Workers) × OwnStep w w'
unfolding stop_step
joins-progresses w j s o a = elim (Bool-cases (all_ended w.threads)) [
  | inl e ↦ (record w { stopping = returned }, stop_steps true (rw (j, e)))
  | inr e ↦
      let t = find-Busy w.threads e in
      let here =
        total-here sleeps t.before t.after (t.kind, t.position)
          (ap (total sleeps) (sym t.here) ∙ a) in
      let step = can_step t.kind t.position w.pool s o t.busy here in
      (_, thread_steps t.before t.after t.kind t.position step.0 t.here step.3)
]

progresses :
    (w : Workers) (at : Stopping)
    → w.stopping ≡ at
    → Flags w
    → IsStopping w
    → Awake w
    → (w.stopping ≡ returned) ⊎ ((w' : Workers) × OwnStep w w')
unfolding stop_step
progresses w not_called e f s a =
    absurd (six_not_le 4 (omega arith) (subst (λ x. left_stop x ≤ 4) e s))
progresses w drains e f s a = absurd (six_not_le 4 (omega arith) (subst (λ x. left_stop x ≤ 4) e s))
progresses w stores e f s a = inr (
  record w { pool = record w.pool { gate = release_all w.pool.gate }; stopping = released_gates },
  stop_steps true (rw e),
)
progresses w released_gates e f s a =
    inr (record w { threads = rouse w.threads; stopping = woken }, stop_steps true (rw e))
progresses w woken e f s a = inr (record w { stopping = joins }, stop_steps true (rw e))
progresses w joins e f s a = inr (
    joins-progresses w e (f.stops s).0
      (f.opens (subst (λ x. left_stop x ≤ 3) (sym e) (omega arith)))
      (a.none_sleeps (subst (λ x. left_stop x ≤ 2) (sym e) (omega arith))))
progresses w returned e f s a = inl e

-- Stop has stored `stop_` and has not called Wake.
abbrev pub BeforeWake : Workers → Type 0
BeforeWake w = (w.stopping ≡ stores) ⊎ (w.stopping ≡ released_gates)

BeforeWake-left : (w : Workers) → BeforeWake w → IsStopping w × (3 ≤ left_stop w.stopping)
BeforeWake-left w (inl e) = (omega (arith, ap left_stop e), omega (arith, ap left_stop e))
BeforeWake-left w (inr e) = (omega (arith, ap left_stop e), omega (arith, ap left_stop e))

-- From a state in which Stop has stored `stop_` and not yet called Wake, and no poller stands
-- between a failed test of the scaler's Acquire and its sleep, the worker takes at most 3 steps for
-- each thread and 4 more, however the threads and Stop are interleaved, whoever is woken, and
-- whatever the polls and handlers under way return or throw; and as long as Stop has not returned,
-- Stop or a thread can go on by itself, without a further wake-up. It assumes that a poll and a
-- handler return and that the deadline of Drain passes.
pub stopping-returns :
    {w v : Workers} {n : ℕ}
    → Reachable w
    → BeforeWake w
    → total falls w.threads ≡ 0
    → Run w n v
    → (n ≤ 3 * length w.threads + 4) × ((v.stopping ≡ returned) ⊎ ((u : Workers) × OwnStep v u))
stopping-returns {w} {v} r b none run =
    let (s, late) = BeforeWake-left w b in
    let a : Awake w = record { none_falls = none; none_sleeps = λ i. absurd (too_late i late) } in
    let (bound, r', s', a') = Run-left run r s a in
    (
      omega (arith, bound, s, left_all-bound w.threads),
      progresses v v.stopping refl (reachable-Flags r') s' a',
    )
  where
    too_late : {m : ℕ} → m ≤ 2 → ¬ (3 ≤ m)
    too_late i j = omega (arith, i, j)
