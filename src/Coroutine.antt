-- ===== src/Coroutine.antt =====
-- src/internal/coroutine.cpp: the controller of a coroutine and the thread of its body. A step is
-- a critical section of one of the two, or a wait of it that ends, in any order; where each of them
-- stands in the code is part of the state. The body is any code that yields, ends or throws. It
-- `swallows` if it may catch CoroutineAbort itself and go on, as a body does that stands in
-- CompleteSession (include/temporal/workflow/context.h) when it is torn down: then it may yield again
-- while it unwinds, or end with another exception. The controller keeps to the header: after a
-- ResumeFor that timed out it calls Abandon and never destroys the coroutine.
pub mod Exhaustive
pub mod Progress
pub mod Protocol
use temporal_cpp.Prelude.{Bool, true, false, not, Option, none, some, ◌≡◌, if◌then◌else◌}

pub data Turn : Type 0 where
  controllers : Turn
  coroutines : Turn

-- The controller: between calls, in the wait of Resume or of ResumeFor, after a ResumeFor that timed
-- out, after Abandon, and in the wait of the destructor, in its `join()` and after it.
pub data Controller : Type 0 where
  at_rest : Controller
  in_resume : Controller
  in_resume_for : Controller
  overran : Controller
  detached : Controller
  destroying : Controller
  joining : Controller
  joined : Controller

-- The thread: in the wait of RunBody, in the body, in the wait of Yield, unwound by CoroutineAbort
-- (or not to run the body at all; a body that swallows may still run its code), and after RunBody.
pub data Thread : Type 0 where
  not_started : Thread
  running : Thread
  suspended : Thread
  unwinding : Thread
  finished : Thread

-- A Coroutine, `error_` by whether it is set, and where its two threads stand.
pub record State : Type 0 where
  pub turn : Turn
  pub done : Bool
  pub abort : Bool
  pub abandoned : Bool
  pub error : Bool
  pub controller : Controller
  pub thread : Thread

unfoldable pub created : State
created = record {
  turn = controllers;
  done = false;
  abort = false;
  abandoned = false;
  error = false;
  controller = at_rest;
  thread = not_started;
}

-- Resume, or ResumeFor, up to its wait.
unfoldable pub resume : Controller → State → State
resume waits s = if s.done then s else record s { turn = coroutines; controller = waits }

-- The wait of Resume, or of ResumeFor, sees its turn.
unfoldable pub resumed : State → Option State
resumed s = elim s.turn [
  | controllers ↦ some (record s { controller = at_rest })
  | coroutines ↦ none
]

-- ResumeFor returns false: `turn_` was not handed back in time.
unfoldable pub time_out : State → Option State
time_out s = elim s.turn [
  | controllers ↦ none
  | coroutines ↦ some (record s { controller = overran })
]

unfoldable pub abandon : State → State
abandon s = record s { abandoned = true; controller = detached }

-- The destructor, up to its wait or, when there is nothing to unwind, its `join()`.
unfoldable pub destroy : State → State
destroy s =
    if s.abandoned
    then s
    else if not s.done
    then record s { abort = true; turn = coroutines; controller = destroying }
    else record s { controller = joining }

unfoldable pub destroyed : State → Option State
destroyed s = elim s.turn [
  | controllers ↦ some (record s { controller = joining })
  | coroutines ↦ none
]

-- The first wait of RunBody, or that of Yield, sees its turn: the body runs, unless it is to be
-- unwound.
unfoldable pub continue : State → Option State
continue s = elim s.turn [
  | controllers ↦ none
  | coroutines ↦ some (record s { thread = if s.abort then unwinding else running })
]

unfoldable pub yield : State → State
yield s = record s { turn = controllers; thread = suspended }

-- The end of RunBody; `throws` when an exception other than CoroutineAbort left the body.
unfoldable pub finish : Bool → State → State
finish throws s = record s {
  error = if throws then true else s.error;
  done = true;
  turn = controllers;
  thread = finished;
}

pub data Action : Type 0 where
  resume_call : Action
  resume_for_call : Action
  time_out_call : Action
  abandon_call : Action
  destroy_call : Action
  controller_wakes : Action
  thread_wakes : Action
  yields : Action
  ends : Bool → Action

-- What an action does to a state, where the thread that takes it stands at it, for a body that
-- swallows CoroutineAbort or not.
unfoldable pub step : Bool → Action → State → Option State
unfolding resume resumed time_out abandon destroy destroyed continue yield finish
step swallows resume_call s = elim s.controller [ at_rest ↦ some (resume in_resume s) | _ ↦ none ]
step swallows resume_for_call s = elim s.controller [
  | at_rest ↦ some (resume in_resume_for s)
  | _ ↦ none
]
step swallows time_out_call s = elim s.controller [ in_resume_for ↦ time_out s | _ ↦ none ]
step swallows abandon_call s = elim s.controller [ overran ↦ some (abandon s) | _ ↦ none ]
step swallows destroy_call s = elim s.controller [ at_rest ↦ some (destroy s) | _ ↦ none ]
step swallows controller_wakes s = elim s.controller [
  | in_resume ↦ resumed s
  | in_resume_for ↦ resumed s
  | destroying ↦ destroyed s
  | joining ↦ elim s.thread [ finished ↦ some (record s { controller = joined }) | _ ↦ none ]
  | _ ↦ none
]
step swallows thread_wakes s = elim s.thread [
  | not_started ↦ continue s
  | suspended ↦ continue s
  | _ ↦ none
]
step swallows yields s = elim s.thread [
  | running ↦ some (yield s)
  | unwinding ↦ if swallows then some (yield s) else none
  | _ ↦ none
]
step swallows (ends throws) s = elim s.thread [
  | running ↦ some (finish throws s)
  | unwinding ↦ some (finish (if swallows then throws else false) s)
  | _ ↦ none
]

-- The states of a coroutine, from its construction on.
pub data Reachable (swallows : Bool) : State → Type 0 where
  construction : Reachable swallows created
  after :
      {s t : State} (a : Action)
      → Reachable swallows s
      → step swallows a s ≡ some t
      → Reachable swallows t
