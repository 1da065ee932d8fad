-- ===== src/Tests.antt =====
-- Runs of the model at concrete inputs.
mod Values
mod Machines
mod Traces
mod Restarts
mod Workers
mod Runs
mod Calls
use temporal_cpp.Prelude.{
  ℕ, suc, ◌≡◌, refl, String, true, false, Option, none, some, List, [], ◌∷◌, ◌++◌, empty, ◌<◌,
  arith, ◌↔◌, to_string, ◌+◌, ◌≤◌, ◌*◌, ◌⊎◌, string_key, number_key, ◌==◌, if◌then◌else◌,
}
use temporal_cpp.Prelude.Int.{ℤ, pos, negsuc, pos_part, neg_part}
use temporal_cpp.Determinism.{Kind, CommandEvent, match_replay_commands, command_matches_event}
use temporal_cpp.Determinism.Matching.{
  Same, match_replay_commands-iff-Reproduces, match_replay_commands-first_divergence,
  command_matches_event_refl,
}
use temporal_cpp.Determinism.Matching
use temporal_cpp.History.{
  Payload, Payloads, no_payload, Event, no_scan, workflow_started, workflow_signaled,
  activity_scheduled, activity_completed, timer_started, update_accepted, other, details_of,
  marker_recorded,
}
use temporal_cpp.History.Scan.{scan_history, scan_attributes}
use temporal_cpp.History.Commands
use temporal_cpp.History.Timeline
use temporal_cpp.Runner.Calls.{schedule_activity}
use temporal_cpp.Runner.Events.{apply_attributes}
use temporal_cpp.Runner.LocalActivity.{execute_local_activity}
use temporal_cpp.History.Commands.{scan_history-recorded}
use temporal_cpp.Proto.{ActivityOptions, to_proto_duration, nanos_per_second}
use temporal_cpp.Proto.Durations.{to_proto_duration-exact}
use temporal_cpp.Runner.{completed, Runner, Command, WorkflowInfo, application_error}
use temporal_cpp.Runner.Markers.{Converter, recorded_versions}
use temporal_cpp.Runner.Agreement
use temporal_cpp.Runner.Agreement.{schedule_activity-agrees}
use temporal_cpp.Determinism
use temporal_cpp.Runner.Versions.{twice, version_marker, get_version_twice-refused}
use temporal_cpp.Runner.Emit.{activity_command}
use temporal_cpp.Runner.Unregistered
use temporal_cpp.Runner.Unregistered.{then_activity, unregistered-refused}
use temporal_cpp.Runner.Signals.{
  signal_run-in_order, arrives, consumes, signal_run, unread, arrivals,
}
use temporal_cpp.Runner.Cancellation.{schedule_and_cancel, schedule_and_cancel-diverges}
use temporal_cpp.Cache.{LruCache, get, put, erase, contains}
use temporal_cpp.Cache.Bounds.{IsValid, put-IsValid}
use temporal_cpp.Worker.{
  ConcurrencyGate, PollerScaler, new_gate, acquire, drained, configure, report, acquire_slot,
  active,
}
use temporal_cpp.Worker.Gate
use temporal_cpp.Worker.Gate.{holders-bounded, drained-iff-no_holders}
use temporal_cpp.Worker.Pacing.{Paced, slots, slots-Paced}
use temporal_cpp.Worker.Scaling
use temporal_cpp.Worker.Scaling.{active-bounded}
use temporal_cpp.Tasks.Messages.{UserHandlers}
use temporal_cpp.Tasks.{Task, TaskHandler, handle, complete}
use temporal_cpp.Tasks.Cached.{handle-IsValid, complete-drops_done}
use temporal_cpp.Tasks.Queries
use temporal_cpp.Tasks.Queries.{handle_query-Alike}
use temporal_cpp.Workflow
use temporal_cpp.Workflow.Selector
use temporal_cpp.Workflow.Selector.{select-Selects}
use temporal_cpp.Workflow.Waits.{parked}
use temporal_cpp.Workflow.{resume, Body, Execution, construct}
use temporal_cpp.Workflow.Live.{replayed_execution}
use temporal_cpp.Workflow.Deterministic
use temporal_cpp.Workflow.Opening
use temporal_cpp.Workflow.Deterministic.{replay-reproduces}

-- A converter that keeps a text as metadata.
abbrev decode_int : List ℕ → Option ℤ
decode_int (n ∷ []) = some (pos n)
decode_int (m ∷ n ∷ []) = some (negsuc n)
decode_int _ = none

abbrev plain_converter : Converter
plain_converter = record {
  encode_string = λ s. record { metadata = λ k. some s; content = 0 ∷ [] };
  decode_string = λ p. p.metadata "";
  encode_int = λ z. elim z [
    | pos n ↦ record { metadata = empty; content = n ∷ [] }
    | negsuc n ↦ record { metadata = empty; content = n ∷ n ∷ [] }
  ];
  decode_int = λ p. decode_int p.content;
}

abbrev info : WorkflowInfo
info = record {
  workflow_id = "order-7";
  run_id = "r1";
  workflow_type = "Order";
  task_queue = "orders";
  ns = "default";
  headers = empty;
}

abbrev options : ActivityOptions
options = record {
  task_queue = "";
  schedule_to_close_timeout = pos 0;
  schedule_to_start_timeout = pos 0;
  start_to_close_timeout = pos 10000000000;
  heartbeat_timeout = pos 0;
  retry_policy = none;
}

abbrev opening : List Event
opening =
    record { event_id = 1; attributes = workflow_started "Order" [] empty }
    ∷ record { event_id = 2; attributes = workflow_signaled "pay" (no_payload ∷ []) }
    ∷ record { event_id = 3; attributes = other }
    ∷ []

-- Takes a signal, draws a value, and waits for an activity or a timer.
abbrev order : Body ℕ
order = Workflow.receive "pay" λ args. Workflow.side_effect λ v.
    Workflow.execute_activity "Charge" (v ∷ args) options λ h.
      Workflow.new_timer (pos 5000000000) λ t. Workflow.write suc (
        Workflow.select (
          Workflow.on_future h (λ s. Workflow.finish s.result)
            (Workflow.on_future t (λ s. Workflow.finish []) Workflow.no_default)))

abbrev value : String → ℕ → Payload
value text n = record { metadata = empty; content = n ∷ [] }

abbrev runner : Runner
runner = construct plain_converter info false (scan_history opening) none none

abbrev replay_runner : Runner
replay_runner = record runner { scan = no_scan; is_replaying = true }

replay-reproduces_example :
    (Deterministic.replay plain_converter info none none order 0 empty opening
        (value "a")
        (value "b")
        4
      ≡ replayed_execution
          (scan_history (
            Deterministic.history plain_converter info none none order 0 empty opening
              (value "a")
              4))
          (Deterministic.first_task plain_converter info none none order 0 empty opening
            (value "a")))
    × (match_replay_commands
          (Deterministic.replay plain_converter info none none order 0 empty opening
            (value "a")
            (value "b")
            4).runner.produced_commands
          (scan_history (
            Deterministic.history plain_converter info none none order 0 empty opening
              (value "a")
              4)).commands
        ≡ none)
replay-reproduces_example =
    replay-reproduces plain_converter info none none order 0 empty opening (value "a") (value "b") 4
      (
        Opening.started "Order" [] empty,
        (Opening.signaled "pay" (no_payload ∷ []), (Opening.task, tt)),
      )
      (λ args v h t. ((λ s. tt), ((λ s. tt), tt)))

-- A future and a channel.
abbrev waiting_cases : Workflow.Cases ℕ
waiting_cases =
    Workflow.on_future 0 (λ s. Workflow.finish s.result)
      (Workflow.on_receive "stop" (λ args. Workflow.finish args) Workflow.no_default)

select-Selects_example :
    ((b : Body ℕ) × (Selector.Selects runner waiting_cases b
        × (resume plain_converter (value "a") (Workflow.select waiting_cases) runner 0 empty
            ≡ resume plain_converter (value "a") b runner 0 empty)))
    ⊎ (Selector.NoneReady runner waiting_cases
        × (resume plain_converter (value "a") (Workflow.select waiting_cases) runner 0 empty
            ≡ parked plain_converter (Workflow.select waiting_cases) 0 empty runner))
select-Selects_example = select-Selects plain_converter (value "a") runner 0 empty waiting_cases

abbrev charge : CommandEvent
charge = record { kind = Kind.activity; id = "0"; name = "Charge" }

abbrev sleep : CommandEvent
sleep = record { kind = Kind.timer; id = "t0"; name = "" }

match_replay_commands-iff-Reproduces_example :
    (match_replay_commands (charge ∷ sleep ∷ []) (charge ∷ []) ≡ none)
    ↔ Matching.Reproduces (charge ∷ sleep ∷ []) (charge ∷ [])
match_replay_commands-iff-Reproduces_example =
    match_replay_commands-iff-Reproduces (charge ∷ sleep ∷ []) (charge ∷ [])

abbrev activity_events : List Event
activity_events =
    opening
    ++ record { event_id = 4; attributes = activity_scheduled "0" "Charge" }
      ∷ record { event_id = 5; attributes = update_accepted "bump" [] }
      ∷ record { event_id = 6; attributes = timer_started "t0" }
      ∷ record { event_id = 7; attributes = activity_completed 4 [] }
      ∷ []

scan_history-recorded_example :
    (scan_history activity_events).commands ≡ Commands.recorded 0 activity_events
scan_history-recorded_example = scan_history-recorded activity_events

-- Queries get no answer; an update is refused without arguments.
abbrev no_answer : UserHandlers ℕ
no_answer = record {
  answer = λ x name args. none;
  validators = λ name. some (λ args n. elim args [ [] ↦ some "no arguments" | _ ↦ none ]);
}

abbrev order_handler : TaskHandler ℕ
order_handler = record {
  cache = record { capacity = 10; order = []; index = λ k. false; size = 0 };
  cache_hits = 0;
  replays = 0;
  fail_workflow = false;
  workflows = λ type. some (order, 0);
  resolver = none;
  chain = none;
}

order_handler-IsValid : IsValid order_handler.cache
order_handler-IsValid = record {
  in_step = record { distinct = tt; indexed = λ k. refl; sized = refl };
  fits = λ h. omega arith;
}

abbrev order_task : Task
order_task = record {
  info = info;
  events = opening;
  previous_started_event_id = 0;
  query = none;
  messages = [];
  queries = [];
}

abbrev order_query : Task
order_query = record order_task { events = []; query = some ("total", []) }

handle-IsValid_example :
    IsValid (handle plain_converter (value "a") no_answer none order_task order_handler).1.cache
handle-IsValid_example =
    handle-IsValid plain_converter (value "a") no_answer none order_task order_handler
      order_handler-IsValid

handle_query-Alike_example :
    Queries.Alike order_handler.cache
      (handle plain_converter
        (value "a")
        no_answer
        (some opening)
        order_query
        order_handler).1.cache
handle_query-Alike_example =
    handle_query-Alike plain_converter (value "a") no_answer (some opening) order_query
      ("total", []) order_handler refl
