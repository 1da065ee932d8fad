-- ===== src/Coroutine/Exhaustive.antt =====
-- A coroutine has finitely many states: a test that all of them pass, whatever action follows, holds
-- of every one.
use temporal_cpp.Prelude.{Bool, true, false, ◌&&◌, ◌≡◌, arith}
use temporal_cpp.Coroutine.{
  State, Turn, Controller, Thread, Action, controllers, coroutines, at_rest, in_resume,
  in_resume_for, overran, detached, destroying, joining, joined, not_started, running, suspended,
  unwinding, finished, resume_call, resume_for_call, time_out_call, abandon_call, destroy_call,
  controller_wakes, thread_wakes, yields, ends,
}

abbrev all_bools : (Bool → Bool) → Bool
all_bools f = f false && f true

all_bools_lem : (f : Bool → Bool) → all_bools f ≡ true → (b : Bool) → f b ≡ true
all_bools_lem f h false = ground arith
all_bools_lem f h true = ground arith

abbrev all_turns : (Turn → Bool) → Bool
all_turns f = f controllers && f coroutines

all_turns_lem : (f : Turn → Bool) → all_turns f ≡ true → (t : Turn) → f t ≡ true
all_turns_lem f h controllers = ground arith
all_turns_lem f h coroutines = ground arith

abbrev all_controllers : (Controller → Bool) → Bool
all_controllers f =
    f at_rest
    && (f in_resume
        && (f in_resume_for
            && (f overran && (f detached && (f destroying && (f joining && f joined))))))

all_controllers_lem :
    (f : Controller → Bool) → all_controllers f ≡ true → (c : Controller) → f c ≡ true
all_controllers_lem f h at_rest = ground arith
all_controllers_lem f h in_resume = ground arith
all_controllers_lem f h in_resume_for = ground arith
all_controllers_lem f h overran = ground arith
all_controllers_lem f h detached = ground arith
all_controllers_lem f h destroying = ground arith
all_controllers_lem f h joining = ground arith
all_controllers_lem f h joined = ground arith

abbrev all_threads : (Thread → Bool) → Bool
all_threads f = f not_started && (f running && (f suspended && (f unwinding && f finished)))

all_threads_lem : (f : Thread → Bool) → all_threads f ≡ true → (t : Thread) → f t ≡ true
all_threads_lem f h not_started = ground arith
all_threads_lem f h running = ground arith
all_threads_lem f h suspended = ground arith
all_threads_lem f h unwinding = ground arith
all_threads_lem f h finished = ground arith

abbrev pub all_actions : (Action → Bool) → Bool
all_actions f =
    f resume_call
    && (f resume_for_call
        && (f time_out_call
            && (f abandon_call
                && (f destroy_call
                    && (f controller_wakes
                        && (f thread_wakes && (f yields && all_bools λ b. f (ends b))))))))

pub all_actions_lem : (f : Action → Bool) → all_actions f ≡ true → (a : Action) → f a ≡ true
all_actions_lem f h resume_call = ground arith
all_actions_lem f h resume_for_call = ground arith
all_actions_lem f h time_out_call = ground arith
all_actions_lem f h abandon_call = ground arith
all_actions_lem f h destroy_call = ground arith
all_actions_lem f h controller_wakes = ground arith
all_actions_lem f h thread_wakes = ground arith
all_actions_lem f h yields = ground arith
all_actions_lem f h (ends false) = ground arith
all_actions_lem f h (ends true) = ground arith

-- The tests with the last fields left to run over.
module _ (f : State → Bool) (t : Turn) where
  abbrev of_all : Controller → Thread → Bool → Bool → Bool → Bool → Bool
  of_all c h d a b e = f (record {
    turn = t;
    done = d;
    abort = a;
    abandoned = b;
    error = e;
    controller = c;
    thread = h;
  })

  abbrev of_abandoned : Controller → Thread → Bool → Bool → Bool → Bool
  of_abandoned c h d a b = all_bools (of_all c h d a b)

  abbrev of_abort : Controller → Thread → Bool → Bool → Bool
  of_abort c h d a = all_bools (of_abandoned c h d a)

  abbrev of_done : Controller → Thread → Bool → Bool
  of_done c h d = all_bools (of_abort c h d)

  abbrev of_thread : Controller → Thread → Bool
  of_thread c h = all_bools (of_done c h)

  abbrev of_controller : Controller → Bool
  of_controller c = all_threads (of_thread c)

  abbrev of_turn : Bool
  of_turn = all_controllers of_controller

abbrev pub all_states : (State → Bool) → Bool
all_states f = all_turns (of_turn f)

pub all_states_lem : (f : State → Bool) → all_states f ≡ true → (s : State) → f s ≡ true
all_states_lem f holds s =
    let t = s.turn in
    let c = s.controller in
    let h = s.thread in
    let h₁ = all_turns_lem (of_turn f) holds t in
    let h₂ = all_controllers_lem (of_controller f t) h₁ c in
    let h₃ = all_threads_lem (of_thread f t c) h₂ h in
    let h₄ = all_bools_lem (of_done f t c h) h₃ s.done in
    let h₅ = all_bools_lem (of_abort f t c h s.done) h₄ s.abort in
    let h₆ = all_bools_lem (of_abandoned f t c h s.done s.abort) h₅ s.abandoned in
    all_bools_lem (of_all f t c h s.done s.abort s.abandoned) h₆ s.error
