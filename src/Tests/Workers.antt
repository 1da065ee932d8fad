-- ===== src/Tests/Workers.antt =====
-- The poll loops of workers, and Stop, at concrete inputs.
use temporal_cpp.Prelude.{
  inl, some, ◌≡◌, ◌≤◌, ◌⊎◌, ◌+◌, ◌*◌, refl, Bool, true, false, [], ◌∷◌, string_key, length,
}
use temporal_cpp.Worker.{acquire_slot, release_all, drained}
use temporal_cpp.Worker.Polling.{
  Workers, Pool, activity_kind, nexus_kind, goes, at_head, polling, parked, falling, asleep, ended,
  poll_step, stop_step, Stopping, not_called, drains, stores, released_gates, woken, returned, Step,
  OwnStep, own, rouse, Reachable, start, next, thread_steps, stop_steps, all_ended, Position,
}
use temporal_cpp.Worker.Polling.Slots.{total, slot, permit}
use temporal_cpp.Worker.Polling.Accounts.{reachable-counted, returned-idle}
use temporal_cpp.Worker.Polling.Shutdown.{stopping-returns, Run, stays, steps}

abbrev idle_pool : Pool
idle_pool = record {
  stop = false;
  draining = false;
  scaler = record {
    always_hot = 2;
    max_scalable = 3;
    empty_threshold = 5;
    target = 1;
    scalable_active = 0;
    empty_streak = 0;
  };
  gate = record { limit = 1; in_flight = 0; released = false };
}

-- An activity loop that parks, beside a nexus loop.
abbrev fresh_workers : Workers
fresh_workers = record {
  pool = idle_pool;
  threads = (activity_kind false true true, at_head) ∷ (nexus_kind, at_head) ∷ [];
  stopping = not_called;
}

fresh_workers-Reachable : Reachable fresh_workers
fresh_workers-Reachable = start (record {
  running = refl;
  no_stop = refl;
  no_draining = refl;
  no_slot = refl;
  no_permit = refl;
  kinds = (activity_kind false true true ∷ nexus_kind ∷ [], refl);
})

abbrev polling_workers : Workers
polling_workers = record fresh_workers {
  pool = record idle_pool { scaler = record idle_pool.scaler { scalable_active = 1 } };
  threads = (activity_kind false true true, polling) ∷ (nexus_kind, at_head) ∷ [];
}

polling_workers-Reachable : Reachable polling_workers
unfolding poll_step acquire_slot
polling_workers-Reachable =
    next
      (next fresh_workers-Reachable (
        own (
          thread_steps [] ((nexus_kind, at_head) ∷ []) (activity_kind false true true) at_head goes
            refl refl)))
      (own (
        thread_steps [] ((nexus_kind, at_head) ∷ []) (activity_kind false true true) parked goes
          refl refl))

reachable-counted_example :
    (polling_workers.pool.scaler.scalable_active ≡ total slot polling_workers.threads)
    × (polling_workers.pool.gate.in_flight ≡ total permit polling_workers.threads)
    × ((polling_workers.pool.gate.limit ≡ 0)
        ⊎ (total permit polling_workers.threads ≤ polling_workers.pool.gate.limit))
reachable-counted_example = reachable-counted polling_workers-Reachable

-- The same kind of worker with one loop, in Stop.
abbrev stopping_workers : Stopping → Bool → Bool → Position → Workers
stopping_workers at stop released position = record {
  pool = record idle_pool {
    draining = true;
    stop = stop;
    gate = record idle_pool.gate { released = released };
  };
  threads = (nexus_kind, position) ∷ [];
  stopping = at;
}

lone_worker-Reachable : Reachable (record fresh_workers { threads = (nexus_kind, at_head) ∷ [] })
lone_worker-Reachable = start (record {
  running = refl;
  no_stop = refl;
  no_draining = refl;
  no_slot = refl;
  no_permit = refl;
  kinds = (nexus_kind ∷ [], refl);
})

stopping_worker-Reachable : Reachable (stopping_workers stores true false at_head)
unfolding stop_step
stopping_worker-Reachable =
    next (next lone_worker-Reachable (own (stop_steps true refl))) (own (stop_steps true refl))

-- A worker whose one loop waits for a slot of the scaler, with Stop under way.
abbrev sleeping_workers : Stopping → Bool → Bool → Bool → Position → Workers
sleeping_workers at draining stop released position = record {
  pool = record {
    stop = stop;
    draining = draining;
    scaler = record idle_pool.scaler { target = 0 };
    gate = record idle_pool.gate { released = released };
  };
  threads = (activity_kind false true true, position) ∷ [];
  stopping = at;
}

moves :
    {at : Stopping} {draining stop released : Bool} {p p' : Position}
    → poll_step
        (activity_kind false true true)
        goes
        p
        (sleeping_workers at draining stop released p).pool
      ≡ some (p', (sleeping_workers at draining stop released p).pool)
    → Step
        (sleeping_workers at draining stop released p)
        (sleeping_workers at draining stop released p')
moves {p = p} h = own (thread_steps [] [] (activity_kind false true true) p goes refl h)

asleep_worker-Reachable : Reachable (sleeping_workers stores true true false asleep)
unfolding poll_step acquire_slot stop_step
asleep_worker-Reachable =
    let fresh : Reachable (sleeping_workers not_called false false false at_head) = start (record {
      running = refl;
      no_stop = refl;
      no_draining = refl;
      no_slot = refl;
      no_permit = refl;
      kinds = (activity_kind false true true ∷ [], refl);
    }) in
    let waits : Reachable (sleeping_workers not_called false false false parked) =
      next fresh (moves refl) in
    let tested : Reachable (sleeping_workers not_called false false false falling) =
      next waits (moves refl) in
    let sleeps : Reachable (sleeping_workers not_called false false false asleep) =
      next tested (moves refl) in
    let drained : Reachable (sleeping_workers drains true false false asleep) =
      next sleeps (own (stop_steps true refl)) in
    next drained (own (stop_steps true refl))

-- Stop releases the gate and calls Wake, and the thread that slept ends.
roused_worker-Run :
    Run
      (sleeping_workers stores true true false asleep)
      3
      (sleeping_workers woken true true true ended)
unfolding poll_step acquire_slot stop_step release_all rouse
roused_worker-Run =
    let last : Run (sleeping_workers woken true true true parked) 1
        (sleeping_workers woken true true true ended) =
      steps (moves refl) stays in
    let wake : Run (sleeping_workers released_gates true true true asleep) 2
        (sleeping_workers woken true true true ended) =
      steps (own (stop_steps true refl)) last in
    steps (own (stop_steps true refl)) wake

stopping-returns_example :
    (3 ≤ 3 * length (sleeping_workers stores true true false asleep).threads + 4)
    × (((sleeping_workers woken true true true ended).stopping ≡ returned)
        ⊎ ((u : Workers) × OwnStep (sleeping_workers woken true true true ended) u))
stopping-returns_example =
    stopping-returns asleep_worker-Reachable (inl refl) refl roused_worker-Run

returned_worker-Reachable : Reachable (stopping_workers returned true true ended)
unfolding poll_step stop_step release_all drained rouse
returned_worker-Reachable =
    next
      (next
        (next
          (next
            (next stopping_worker-Reachable
              (own (thread_steps [] [] nexus_kind at_head goes refl refl)))
            (own (stop_steps true refl)))
          (own (stop_steps true refl)))
        (own (stop_steps true refl)))
      (own (stop_steps true refl))

returned-idle_example :
    (all_ended (stopping_workers returned true true ended).threads ≡ true)
    × ((stopping_workers returned true true ended).pool.scaler.scalable_active ≡ 0)
    × ((stopping_workers returned true true ended).pool.gate.in_flight ≡ 0)
returned-idle_example = returned-idle returned_worker-Reachable refl
