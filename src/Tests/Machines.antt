-- ===== src/Tests/Machines.antt =====
-- Coroutines, sessions, activities, updates and pages at concrete inputs.
use temporal_cpp.Prelude.{
  ℕ, suc, ◌+◌, ◌*◌, ◌<◌, ◌≤◌, ◌≡◌, ◌⊎◌, refl, String, Bool, true, false, Option, none, some, List,
  [], ◌∷◌, ◌++◌, empty, arith, length, string_key, number_key,
}
use temporal_cpp.History.{Payloads, Event}
use temporal_cpp.Coroutine.{
  State, Action, created, step, resume_call, thread_wakes, yields, controller_wakes, destroy_call,
  ends,
}
use temporal_cpp.Coroutine
use temporal_cpp.Coroutine.Protocol.{in_wait, timed_out, in_body-waits}
use temporal_cpp.Coroutine.Progress.{
  is_blocked-progresses, due, destroy-terminates, is_joined, is_hung,
}
use temporal_cpp.Worker.Sessions
use temporal_cpp.Worker.Sessions.{
  Sessions, no_sessions, begin_creation, attempt_creation, active_sessions-bounded,
}
use temporal_cpp.Proto.{Duration}
use temporal_cpp.Activity.{
  Activity, ActivityTask, ActivityTaskHandler, handle_activity, heartbeat_throttle_interval,
  above_zero,
}
use temporal_cpp.Activity.Heartbeats.{handle_activity-Spaced, Spaced}
use temporal_cpp.Runner.Markers.{ok}
use temporal_cpp.Runner.Calls.{try_consume_signal}
use temporal_cpp.History.Scan.{scan_history}
use temporal_cpp.Workflow
use temporal_cpp.Workflow.{Execution, Body, resume_coroutine, reapply_historical_updates}
use temporal_cpp.Tasks.{handle}
use temporal_cpp.Tasks.Messages.{UpdateMessage, process_messages}
use temporal_cpp.Tasks.Reapplied.{accepted}
use temporal_cpp.Tasks.Parks.{reapply-process_messages}
use temporal_cpp.Tasks.Paging.{handle_paged, handle_paged-whole, read_all}
use temporal_cpp.Prelude.Int.{pos}
use temporal_cpp.Tests.{
  plain_converter, no_answer, order_task, order_handler, opening, runner, value,
}

-- The body was started and has yielded.
abbrev yielded : State
yielded = record created { thread = Coroutine.suspended }

yielded-Reachable : (swallows : Bool) → Coroutine.Reachable swallows yielded
unfolding created step
yielded-Reachable swallows =
    Coroutine.after controller_wakes
      (Coroutine.after yields
        (Coroutine.after thread_wakes (Coroutine.after resume_call Coroutine.construction refl)
          refl)
        refl)
      refl

-- The destructor waits for the body to unwind.
abbrev unwound : State
unwound = record yielded {
  turn = Coroutine.coroutines;
  abort = true;
  controller = Coroutine.destroying;
}

unwound-Reachable : (swallows : Bool) → Coroutine.Reachable swallows unwound
unfolding created step
unwound-Reachable swallows = Coroutine.after destroy_call (yielded-Reachable swallows) refl

-- It does.
abbrev aborted : State
aborted = record unwound { thread = Coroutine.unwinding }

aborted-Reachable : (swallows : Bool) → Coroutine.Reachable swallows aborted
unfolding created step
aborted-Reachable swallows = Coroutine.after thread_wakes (unwound-Reachable swallows) refl

in_body-waits_example : (in_wait aborted.controller ≡ true) ⊎ (timed_out aborted.controller ≡ true)
in_body-waits_example = in_body-waits true aborted (aborted-Reachable true) refl

-- It catches CoroutineAbort, and waits again.
abbrev hung : State
hung = record aborted {
  turn = Coroutine.controllers;
  thread = Coroutine.suspended;
  controller = Coroutine.joining;
}

hung-Reachable : Coroutine.Reachable true hung
unfolding created step
hung-Reachable =
    Coroutine.after controller_wakes (Coroutine.after yields (aborted-Reachable true) refl) refl

is_blocked-progresses_example :
    ((t : State) × (step true (due hung) hung ≡ some t))
    ⊎ ((true ≡ true) × (is_hung hung ≡ true) × ((a : Action) → step true a hung ≡ none))
is_blocked-progresses_example = is_blocked-progresses true hung hung-Reachable refl

abbrev unwinding_run : List Action
unwinding_run = thread_wakes ∷ ends false ∷ controller_wakes ∷ controller_wakes ∷ []

abbrev gone : State
gone = record unwound {
  turn = Coroutine.controllers;
  done = true;
  controller = Coroutine.joined;
  thread = Coroutine.finished;
}

destroy-terminates_example :
    (length unwinding_run ≤ 4)
    × (is_joined gone ≡ true ⊎ (u : State) × (step false (due gone) gone ≡ some u))
unfolding created step
destroy-terminates_example =
    destroy-terminates unwound gone unwinding_run (unwound-Reachable false) refl refl

-- Two threads see a free slot; one takes it.
abbrev raced : Sessions
raced = attempt_creation 1 false 0 0 (begin_creation 1 1 (begin_creation 1 0 no_sessions))

raced-Reachable : Sessions.Reachable 1 raced
unfolding begin_creation no_sessions attempt_creation
raced-Reachable =
    Sessions.after
      (Sessions.after (Sessions.after Sessions.start (Sessions.creation 0 refl))
        (Sessions.creation 1 refl))
      (Sessions.creation_round false 0 0 refl)

active_sessions-bounded_example :
    (0 < 1 → raced.active ≤ 1) × (raced.created + raced.found_none ≡ raced.active + raced.completed)
active_sessions-bounded_example = active_sessions-bounded 1 raced-Reachable

-- An activity that reports three times.
abbrev reporting : Activity
reporting =
    Activity.record_heartbeat []
      λ t. Activity.record_heartbeat [] λ u. Activity.record_heartbeat [] λ v. Activity.returns []

abbrev pub reporting_task : ActivityTask
reporting_task = record {
  info = record {
    activity_id = "1";
    activity_type = "Report";
    workflow_id = "order-7";
    run_id = "r1";
    task_queue = "orders";
    task_token = "t";
    attempt = 1;
    headers = empty;
  };
  input = [];
  heartbeat_timeout = some (record { seconds = pos 10; nanos = pos 0 });
}

abbrev reporting_handler : ActivityTaskHandler
reporting_handler = record {
  activities = λ type. some (λ info args. reporting);
  interceptors = [];
  failure_converter = none;
}

abbrev every_five_seconds : ℕ → ℕ
every_five_seconds n = n * 5000000000

abbrev no_cancel : ℕ → Option Bool
no_cancel n = some false

handle_activity-Spaced_example :
    Spaced
      (heartbeat_throttle_interval reporting_task)
      (handle_activity every_five_seconds no_cancel reporting_handler reporting_task).1.reports
    × ((d : Duration)
        → reporting_task.heartbeat_timeout ≡ some d
        → 0 < above_zero d
        → heartbeat_throttle_interval reporting_task * 10 ≤ above_zero d * 8)
handle_activity-Spaced_example =
    handle_activity-Spaced every_five_seconds no_cancel reporting_handler reporting_task

-- A workflow that counts the updates it gets until a signal comes.
abbrev counting : Execution ℕ
counting = record {
  runner = runner;
  user = 0;
  update_handlers = empty;
  rest =
      Workflow.set_update_handler "add" (λ args n. (suc n, ok args))
        (Workflow.receive "close" λ args. Workflow.finish args);
}

abbrev add : Payloads → UpdateMessage
add args = record {
  id = "m";
  protocol_instance_id = "u";
  event_id = 4;
  request = some ("add", args);
}

reapply-process_messages_example :
    reapply_historical_updates plain_converter
      (value "a")
      (accepted no_answer
        (add [] ∷ add (value "x" 0 ∷ []) ∷ [])
        (resume_coroutine plain_converter (value "a") counting))
      (resume_coroutine plain_converter (value "a") counting)
    ≡ (process_messages no_answer
        (add [] ∷ add (value "x" 0 ∷ []) ∷ [])
        (resume_coroutine plain_converter (value "a") counting)).1
unfolding resume_coroutine Workflow.construct try_consume_signal scan_history
reapply-process_messages_example =
    reapply-process_messages plain_converter (value "a") no_answer
      (add [] ∷ add (value "x" 0 ∷ []) ∷ []) counting refl refl

-- The history comes on two pages.
abbrev pages : String → Option (List Event × String)
pages token = some (opening, "")

handle_paged-whole_example :
    handle_paged plain_converter (value "a") no_answer pages 1 order_task "next" order_handler
    ≡ read_all (
        handle plain_converter
          (value "a")
          no_answer
          none
          (record order_task { events = opening ++ (opening ++ []) })
          order_handler)
handle_paged-whole_example =
    handle_paged-whole plain_converter (value "a") no_answer pages 1 order_task "next" opening []
      order_handler refl refl refl (omega arith)
