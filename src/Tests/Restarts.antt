-- ===== src/Tests/Restarts.antt =====
-- A worker that takes over a run, at a concrete input.
use temporal_cpp.Prelude.{
  ℕ, ◌≡◌, refl, none, some, [], ◌∷◌, empty, string_key, if◌then◌else◌, to_string,
}
use temporal_cpp.History.{no_payload}
use temporal_cpp.History.Scan.{scan_history}
use temporal_cpp.Workflow.Live.{replayed_execution}
use temporal_cpp.Workflow.Opening
use temporal_cpp.Cache.{get}
use temporal_cpp.Workflow.{Execution, is_done}
use temporal_cpp.Tasks.{Task, TaskHandler, handle, terminal, task_completed}
use temporal_cpp.Tasks.Restarted.{served, served_history, handle-resumes}
use temporal_cpp.Determinism.{mismatch}
use temporal_cpp.Proto.{ChildWorkflowOptions, terminate}
use temporal_cpp.Tasks.Offline.{replay_workflow_history}
use temporal_cpp.Tasks.Offline.AutoIds.{auto_id, parent, parent_history, child}
use temporal_cpp.Tasks.Offline.FalseAlarms.{replay_history-auto_id}
use temporal_cpp.Tests.{
  plain_converter, opening, order, value, no_answer, order_handler, order_task,
  order_handler-IsValid,
}

abbrev charged : Execution ℕ
charged =
    served plain_converter (value "a") (value "b") no_answer order_task order_handler order 0
      opening

abbrev taken_over : Task
taken_over = record order_task {
  events =
      served_history plain_converter (value "a") (value "b") no_answer order_task order_handler
        order 0 opening 4;
  previous_started_event_id = 3;
}

handle-resumes_example :
    let resumed = replayed_execution (scan_history taken_over.events) charged in
    let result = handle plain_converter (value "b") no_answer none taken_over order_handler in
    (result.0 ≡ task_completed (terminal charged.runner) [] [])
    × ((get "r1" result.1.cache).0
        ≡ (if is_done plain_converter (value "b") charged then none else some resumed))
handle-resumes_example =
    handle-resumes plain_converter (value "a") (value "b") no_answer taken_over order_handler order
      0 opening none 4 refl refl refl refl refl refl refl
      (
        Opening.started "Order" [] empty,
        (Opening.signaled "pay" (no_payload ∷ []), (Opening.task, tt)),
      )
      (λ args v h t. ((λ s. tt), ((λ s. tt), tt))) order_handler-IsValid

abbrev shipping : ChildWorkflowOptions
shipping = record { id = ""; task_queue = ""; parent_close_policy = terminate }

abbrev shipped : Task
shipped = record order_task {
  events = parent_history "Order" "Ship" "order-7";
  previous_started_event_id = 3;
}

abbrev shipper : TaskHandler ℕ
shipper = record order_handler { workflows = λ type. some (parent "Ship" [] shipping, 0) }

replay_history-auto_id_example :
    ((handle plain_converter (value "a") no_answer none shipped shipper).0
      ≡ task_completed [] [] [])
    × (replay_workflow_history plain_converter (value "a") "orders" "default" shipped.events shipper
        ≡ some (record {
          message = mismatch 0 (child "Ship" (auto_id "order-7")) (child "Ship" (auto_id "replay"));
          error_type = "NonDeterministicError";
        }))
unfolding to_string
replay_history-auto_id_example =
    replay_history-auto_id plain_converter (value "a") "orders" "default" no_answer none shipped
      shipper "Ship" [] shipping 0 refl refl refl refl refl refl refl refl
