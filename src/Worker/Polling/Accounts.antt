-- ===== src/Worker/Polling/Accounts.antt =====
-- The slots of the scaler and the permits of the gate, over the threads of a pool.
use temporal_cpp.Prelude.{
  ℕ, ◌++◌, ◌+◌, ◌≤◌, ◌≡◌, refl, sym, inl, inr, ◌⊎◌, Bool-cases, ltb, ltb→lt, ap, ◌∙◌, Bool, true,
  some, List, [], ◌∷◌, arith,
}
use mathlib.Core.Path.{subst}
use temporal_cpp.Worker.{release_all}
use temporal_cpp.Worker.Polling.{
  Kind, Position, ended, returned, Workers, all_ended, stop_step, OwnStep, Step, own, wakes,
  thread_steps, stop_steps, Reachable, start, next, rouse, asleep, parked,
}
use temporal_cpp.Worker.Polling.Slots.{
  slot, permit, total, total-append, AllPlaced, poll_step-slot, poll_step-Placed, poll_step-permit,
  IsBounded, poll_step-IsBounded, AllPlaced-split, AllPlaced-join, at_heads-Placed, total-at_heads,
  all_ended-split, poll_step-ended, Roused, rouse-Roused,
}

pub record Accounts (w : Workers) : Type 0 where
  pub placed : AllPlaced w.threads
  pub slots : w.pool.scaler.scalable_active ≡ total slot w.threads
  pub permits : w.pool.gate.in_flight ≡ total permit w.threads
  pub bounded : IsBounded w.pool
  pub quiet : w.stopping ≡ returned → all_ended w.threads ≡ true

-- What Stop leaves alone, and when it returns.
stop_step-keeps :
    (overdue : Bool) (w w' : Workers)
    → stop_step overdue w ≡ some w'
    → ((w'.threads ≡ w.threads) ⊎ (w'.threads ≡ rouse w.threads))
      × (w'.pool.scaler ≡ w.pool.scaler)
      × (w'.pool.gate.in_flight ≡ w.pool.gate.in_flight)
      × (w'.pool.gate.limit ≡ w.pool.gate.limit)
unfolding stop_step release_all
stop_step-keeps overdue w w' h = (ground arith, ground arith, ground arith, ground arith)

stop_step-Roused :
    (overdue : Bool) (w w' : Workers) → stop_step overdue w ≡ some w' → Roused w.threads w'.threads
stop_step-Roused overdue w w' h = elim (stop_step-keeps overdue w w' h).0 [
  | inl e ↦
      subst (Roused w.threads) (sym e)
        (record { slots = refl; permits = refl; endings = refl; places = λ q. q })
  | inr e ↦ subst (Roused w.threads) (sym e) (rouse-Roused w.threads)
]

stop_step-returned :
    (overdue : Bool) (w w' : Workers)
    → stop_step overdue w ≡ some w'
    → w'.stopping ≡ returned
    → all_ended w.threads ≡ true
unfolding stop_step release_all
stop_step-returned overdue w w' h r = ground arith

stop_step-Accounts :
    (overdue : Bool) (w w' : Workers) → stop_step overdue w ≡ some w' → Accounts w → Accounts w'
stop_step-Accounts overdue w w' h c =
    let keeps = stop_step-keeps overdue w w' h in
    let roused = stop_step-Roused overdue w w' h in
    record {
      placed = roused.places c.placed;
      slots = ap (λ s. s.scalable_active) keeps.1 ∙ c.slots ∙ sym roused.slots;
      permits = keeps.2 ∙ c.permits ∙ sym roused.permits;
      bounded = λ positive.
          let b = c.bounded (omega (arith, positive, keeps.3)) in
          omega (arith, b, keeps.2, keeps.3);
      quiet = λ r. roused.endings ∙ stop_step-returned overdue w w' h r;
    }

OwnStep-Accounts : {w w' : Workers} → OwnStep w w' → Accounts w → Accounts w'
OwnStep-Accounts (stop_steps {w} {w'} overdue h) c = stop_step-Accounts overdue w w' h c
OwnStep-Accounts (thread_steps {w} {pool} {p'} before after k p e same h) c =
    let split = AllPlaced-split before after (k, p) (subst AllPlaced same c.placed) in
    let slots : w.pool.scaler.scalable_active
        ≡ total slot before + (slot (k, p) + total slot after) =
      c.slots ∙ ap (total slot) same ∙ total-append slot before ((k, p) ∷ after) in
    let permits : w.pool.gate.in_flight
        ≡ total permit before + (permit (k, p) + total permit after) =
      c.permits ∙ ap (total permit) same ∙ total-append permit before ((k, p) ∷ after) in
    let slot_moved = poll_step-slot k e p w.pool h split.1 (omega (arith, slots)) in
    let permit_moved = poll_step-permit k e p w.pool h (omega (arith, permits)) in
    record {
      placed =
          AllPlaced-join before after (k, p') split.0 (poll_step-Placed k e p w.pool h split.1)
            split.2;
      slots = omega (arith, slots, slot_moved, total-append slot before ((k, p') ∷ after));
      permits = omega (arith, permits, permit_moved, total-append permit before ((k, p') ∷ after));
      bounded = poll_step-IsBounded k e p w.pool h c.bounded;
      quiet = λ r.
          let over =
            poll_step-ended k e p w.pool
              (all_ended-split before after k p (ap all_ended (sym same) ∙ c.quiet r)) in
          cc (sym over ∙ h);
    }

Step-Accounts : {w w' : Workers} → Step w w' → Accounts w → Accounts w'
Step-Accounts (own st) c = OwnStep-Accounts st c
Step-Accounts (wakes {w} before after k same) c =
    let split = AllPlaced-split before after (k, asleep) (subst AllPlaced same c.placed) in
    let moved : (f : Kind × Position → ℕ)
        → f (k, asleep) ≡ f (k, parked)
        → total f w.threads ≡ total f (before ++ (k, parked) ∷ after) =
      λ f e. omega (
        arith,
        ap (total f) same,
        total-append f before ((k, asleep) ∷ after),
        total-append f before ((k, parked) ∷ after),
        e,
      ) in
    record {
      placed = AllPlaced-join before after (k, parked) split.0 split.1 split.2;
      slots = c.slots ∙ moved slot refl;
      permits = c.permits ∙ moved permit refl;
      bounded = c.bounded;
      quiet = λ r.
          let over = all_ended-split before after k asleep (ap all_ended (sym same) ∙ c.quiet r) in
          cc over;
    }

reachable-Accounts : {w : Workers} → Reachable w → Accounts w
reachable-Accounts (start {w} f) =
    let none_held = total-at_heads f.kinds.0 in
    record {
      placed = subst AllPlaced (sym f.kinds.1) (at_heads-Placed f.kinds.0);
      slots = f.no_slot ∙ sym (ap (total slot) f.kinds.1 ∙ none_held.0);
      permits = f.no_permit ∙ sym (ap (total permit) f.kinds.1 ∙ none_held.1);
      bounded = λ positive. omega (arith, f.no_permit);
      quiet = λ r. cc (sym f.running ∙ r);
    }
reachable-Accounts (next r st) = Step-Accounts st (reachable-Accounts r)

-- Whatever the threads and Stop do and in whatever order, polls and handlers that throw included,
-- the scaler counts as active exactly the threads that poll and may park, and the gate as in flight
-- exactly the threads in Handle, so no slot and no permit is lost, or given back twice; and a gate
-- with a positive limit never lets more threads into Handle than its limit.
pub reachable-counted :
    {w : Workers}
    → Reachable w
    → (w.pool.scaler.scalable_active ≡ total slot w.threads)
      × (w.pool.gate.in_flight ≡ total permit w.threads)
      × ((w.pool.gate.limit ≡ 0) ⊎ (total permit w.threads ≤ w.pool.gate.limit))
reachable-counted {w} r =
    let c = reachable-Accounts r in
    (
      c.slots,
      c.permits,
      elim (Bool-cases (ltb 0 w.pool.gate.limit)) [
        | inl e ↦
            let b = c.bounded (ltb→lt 0 w.pool.gate.limit e) in inr (omega (arith, b, c.permits))
        | inr e ↦ inl (ground arith)
      ],
    )

total-ended :
    (ts : List (Kind × Position))
    → all_ended ts ≡ true
    → (total slot ts ≡ 0) × (total permit ts ≡ 0)
total-ended [] h = (refl, refl)
total-ended ((k, ended) ∷ ts) h =
    let rest = total-ended ts h in (omega (arith, rest.0), omega (arith, rest.1))
total-ended ((k, _) ∷ ts) h = cc

-- When Stop returns, whether its deadline passed or not, every thread has ended and every slot and
-- permit is back: no task is left half handled.
pub returned-idle :
    {w : Workers}
    → Reachable w
    → w.stopping ≡ returned
    → (all_ended w.threads ≡ true)
      × (w.pool.scaler.scalable_active ≡ 0)
      × (w.pool.gate.in_flight ≡ 0)
returned-idle {w} r e =
    let c = reachable-Accounts r in
    let none_held = total-ended w.threads (c.quiet e) in
    (c.quiet e, c.slots ∙ none_held.0, c.permits ∙ none_held.1)
