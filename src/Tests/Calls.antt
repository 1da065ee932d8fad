-- ===== src/Tests/Calls.antt =====
-- Wake-ups, metrics, starts, calls, failures, operations and stores at concrete inputs.
use temporal_cpp.Prelude.{
  ℕ, zero, suc, ◌≡◌, ◌==◌, refl, String, true, false, Option, none, some, List, [], ◌∷◌, ◌++◌,
  empty, string_key, if◌then◌else◌, arith, bind,
}
use temporal_cpp.Prelude.Int.{pos}
use temporal_cpp.History.{Payload, Event, timer_started}
use temporal_cpp.Tests.{info, plain_converter, value, no_answer, order_task, order_handler}
use temporal_cpp.Worker.{PollerScaler, ConcurrencyGate, acquire}
use temporal_cpp.Worker.Wakeups
use temporal_cpp.Worker.Wakeups.{
  Wait, before_wait, permit_ready, slot_ready, wait_step, release_all_step, wake_step, notify_all,
}
use temporal_cpp.Worker.Wakeups.Lost.{release_all-wakes, wake-loses_wakeup, settle, overtaken}
use temporal_cpp.Client.Starts.{
  Client, StartWorkflowOptions, StartRequest, SignalWithStartRequest, started, start_workflow,
  signal_with_start,
}
use temporal_cpp.Client.Starts.Headers.{
  first_runner, plain_start, signalled_start, signal_with_start-drops_headers,
}
use temporal_cpp.Tasks.{handle}
use temporal_cpp.Tasks.Paging.{read_all, handle_paged, paginate, joined}
use temporal_cpp.Rpc.{Status, Page, deadline_exceeded, get_history}
use temporal_cpp.Rpc
use temporal_cpp.Rpc.Truncation.{late_page-truncates}
use temporal_cpp.Activity
use temporal_cpp.Activity.{ActivityTaskHandler, Context, activity_response}
use temporal_cpp.Failures.{
  failure_to_error, workflow_failure, default_failure_converter, application,
  workflow_failure-drops_flag,
}
use temporal_cpp.Nexus
use temporal_cpp.Nexus.{register, start_operation, answered, Operations}
use temporal_cpp.Nexus.Registry.{handle-register}
use temporal_cpp.Data.Files.{store_file, resolve_file, no_fault, write_stops, failed_store-corrupts}

abbrev taken_gate : ConcurrencyGate
taken_gate = record { limit = 1; in_flight = 1; released = false }

-- The thread has fallen asleep before ReleaseAll begins.
abbrev roused : Wait
roused = record {
  mutex = Wakeups.free;
  flag = true;
  waiter = Wakeups.entering;
  stopper = Wakeups.notified;
}

roused-Reachable : Wakeups.Reachable (permit_ready taken_gate) release_all_step roused
unfolding wait_step release_all_step permit_ready acquire notify_all
roused-Reachable =
    Wakeups.stops
      (Wakeups.stops
        (Wakeups.stops (Wakeups.waits (Wakeups.waits (Wakeups.waits Wakeups.start refl) refl) refl)
          refl)
        refl)
      refl

release_all-wakes_example : (settle (permit_ready taken_gate) 2 roused).waiter ≡ Wakeups.through
release_all-wakes_example = release_all-wakes taken_gate roused-Reachable refl

abbrev busy_scaler : PollerScaler
busy_scaler = record {
  always_hot = 2;
  max_scalable = 3;
  empty_threshold = 5;
  target = 1;
  scalable_active = 1;
  empty_streak = 0;
}

wake-loses_wakeup_example :
    Wakeups.Reachable (slot_ready busy_scaler) wake_step overtaken
    × (wait_step (slot_ready busy_scaler) overtaken ≡ none)
    × (wake_step overtaken ≡ none)
wake-loses_wakeup_example = wake-loses_wakeup busy_scaler refl

abbrev trace : Payload
trace = value "t" 7

abbrev start_options : StartWorkflowOptions
start_options = record {
  id = "";
  task_queue = "orders";
  execution_timeout = pos 0;
  run_timeout = pos 0;
  task_timeout = pos 0;
  retry_policy = none;
  memo = empty;
  search_attributes = empty;
  headers = λ k. if k == "trace" then some trace else none;
}

abbrev client : Client
client = record { ns = "default"; identity = "cpp" }

abbrev uuids : ℕ → String
uuids zero = "u0"
uuids (suc n) = "u1"

abbrev first_run : StartRequest → Option String
first_run r = some r.workflow_id

abbrev first_signalled_run : SignalWithStartRequest → Option String
first_signalled_run r = some r.start.workflow_id

signal_with_start-drops_headers_example :
    (start_workflow client uuids first_run [] start_options "Order" []
      ≡ started "u0" (first_run (plain_start client uuids start_options "Order" "pay" [] [])))
    × (signal_with_start client uuids first_signalled_run start_options "Order" "pay" [] []
        ≡ started "u0" (
            first_signalled_run (record {
              start = record (plain_start client uuids start_options "Order" "pay" [] []) {
                search_attributes = empty;
                header = empty;
              };
              signal_name = "pay";
              signal_input = [];
            })))
    × ((first_runner plain_converter info
          (plain_start client uuids start_options "Order" "pay" [] [])).info.headers
        ≡ start_options.headers)
    × ((first_runner plain_converter info
          (signalled_start client uuids start_options "Order" "pay" [] [])).info.headers
        ≡ empty)
signal_with_start-drops_headers_example =
    signal_with_start-drops_headers client uuids start_options "Order" "pay" [] [] plain_converter
      info first_run first_signalled_run

-- The server answers with one page, and then not in time.
abbrev late_server : String → Status × Page
late_server token =
    if token == "p2"
    then (record { code = deadline_exceeded; error_message = "late" }, ([], ""))
    else (
      record { code = Rpc.ok; error_message = "" },
      (record { event_id = 4; attributes = timer_started "t0" } ∷ [], "p2"),
    )

abbrev late_pages : List (List Event)
late_pages = (record { event_id = 4; attributes = timer_started "t0" } ∷ []) ∷ []

late_page-truncates_example :
    (handle_paged plain_converter
        (value "a")
        no_answer
        (get_history late_server)
        5
        order_task
        "p1"
        order_handler
      ≡ read_all (
          handle plain_converter
            (value "a")
            no_answer
            none
            (record order_task { events = order_task.events ++ joined late_pages })
            order_handler))
    × (paginate (get_history late_server) 5 "" ≡ read_all (joined late_pages))
late_page-truncates_example =
    late_page-truncates late_server 5 plain_converter (value "a") no_answer order_task order_handler
      "p1" late_pages late_pages ("p2", (refl, (refl, (refl, refl))))
      ("p2", (refl, (refl, (refl, refl)))) (omega arith) (omega arith) refl refl

abbrev plain_activities : ActivityTaskHandler
plain_activities = record { activities = empty; interceptors = []; failure_converter = none }

abbrev charge_context : Context
charge_context = record {
  info = record {
    activity_id = "0";
    activity_type = "Charge";
    workflow_id = "order-7";
    run_id = "r1";
    task_queue = "orders";
    task_token = "t";
    attempt = 1;
    headers = empty;
  };
  throttle_interval = 0;
  last_report = 0;
  reported = false;
  cancel_requested = false;
  will_complete_async = false;
  readings = 0;
  reports = [];
}

workflow_failure-drops_flag_example :
    (failure_to_error
        (workflow_failure (some default_failure_converter) (application "no card" "Card" true))
      ≡ application "no card" "Card" true)
    × (failure_to_error (workflow_failure none (application "no card" "Card" true))
        ≡ application "no card" "Card" false)
    × (activity_response plain_activities
          (Activity.application_error "no card" "Card" true)
          charge_context
        ≡ Activity.failed
            (record { message = "no card"; failure_type = "Card"; non_retryable = true }))
workflow_failure-drops_flag_example =
    workflow_failure-drops_flag "no card" "Card" true plain_activities charge_context refl

abbrev echo : Payload → Nexus.Ended
echo p = Nexus.returned p

-- RespondNexusTaskCompleted throws.
abbrev refusing : Nexus.Response → Option String
refusing (Nexus.completed token result) = some "rpc failed"
refusing _ = none

handle-register_example :
    (Nexus.handle refusing "t1"
        (register "pay" "echo" echo empty)
        (start_operation "pay" "echo" trace)
      ≡ answered refusing "t1" (echo trace))
    × (Nexus.handle refusing "t1"
          (register "pay" "echo" echo empty)
          (start_operation "paye" "cho" trace)
        ≡ Nexus.handle refusing "t1" empty (start_operation "paye" "cho" trace))
handle-register_example =
    handle-register refusing "t1" "pay" "paye" "echo" "cho" echo empty trace (cc, (cc, (cc, tt)))
      (cc, (cc, (cc, (cc, tt)))) (λ same. cc)

abbrev no_hash : List ℕ → ℕ
no_hash body = 0

abbrev no_bytes : String → List ℕ
no_bytes s = []

abbrev body : Payload
body = record { metadata = empty; content = 1 ∷ 2 ∷ 3 ∷ [] }

failed_store-corrupts_example :
    ((store_file no_hash no_bytes
        (write_stops 1)
        body
        (store_file no_hash no_bytes no_fault body empty).1).0
      ≡ none)
    × (bind (store_file no_hash no_bytes no_fault body empty).0 (λ ref.
          resolve_file true ref
            (store_file no_hash no_bytes
              (write_stops 1)
              body
              (store_file no_hash no_bytes no_fault body empty).1).1)
        ≡ some (record { metadata = empty; content = 1 ∷ [] }))
failed_store-corrupts_example = failed_store-corrupts no_hash no_bytes body empty 1 refl
