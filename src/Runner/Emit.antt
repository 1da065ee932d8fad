-- ===== src/Runner/Emit.antt =====
-- The Emit functions of `WorkflowRunner`: each appends one command for the server.
use temporal_cpp.Prelude.{ℕ, String, Bool, List, Map, ◌==◌, string_key, if◌then◌else◌}
use temporal_cpp.Prelude.Int.{ℤ}
use temporal_cpp.History.{Payload, Payloads}
use temporal_cpp.Proto.{
  to_proto_duration, timeout, to_proto_retry_policy, ActivityOptions, ChildWorkflowOptions,
}
use temporal_cpp.Runner.{Command, Runner, emit}
use mathlib.Core.Option

abbrev pub queue_or : String → String → String
queue_or default queue = if queue == "" then default else queue

-- The command of EmitScheduleActivity.
unfoldable pub activity_command :
    String → String → Payloads → ActivityOptions → Map String Payload → Runner → Command
unfolding to_proto_retry_policy timeout
activity_command id activity_type input options header r = Command.schedule_activity (record {
  activity_id = id;
  activity_type = activity_type;
  task_queue = queue_or r.info.task_queue options.task_queue;
  input = input;
  header = header;
  schedule_to_close = timeout options.schedule_to_close_timeout;
  schedule_to_start = timeout options.schedule_to_start_timeout;
  start_to_close = timeout options.start_to_close_timeout;
  heartbeat = timeout options.heartbeat_timeout;
  retry_policy = Option.map to_proto_retry_policy options.retry_policy;
})

unfoldable pub emit_schedule_activity :
    String → String → Payloads → ActivityOptions → Map String Payload → Runner → Runner
emit_schedule_activity id activity_type input options header r =
    emit (activity_command id activity_type input options header r) r

unfoldable pub emit_start_timer : String → ℤ → Runner → Runner
emit_start_timer id duration r = emit (Command.start_timer id (to_proto_duration duration)) r

unfoldable pub emit_cancel_timer : String → Runner → Runner
emit_cancel_timer id r = emit (Command.cancel_timer id) r

unfoldable pub emit_request_cancel_activity : ℕ → Runner → Runner
emit_request_cancel_activity scheduled r = emit (Command.request_cancel_activity scheduled) r

unfoldable pub emit_start_child_workflow :
    String → String → Payloads → ChildWorkflowOptions → Runner → Runner
emit_start_child_workflow id workflow_type input options r =
    emit
      (Command.start_child (record {
        ns = r.info.ns;
        workflow_id = id;
        workflow_type = workflow_type;
        task_queue = queue_or r.info.task_queue options.task_queue;
        input = input;
        parent_close_policy = options.parent_close_policy;
      }))
      r

unfoldable pub emit_nexus_operation : String → String → String → Payload → ℤ → Runner → Runner
unfolding timeout
emit_nexus_operation endpoint service operation input schedule_to_close r =
    emit (Command.schedule_nexus endpoint service operation input (timeout schedule_to_close)) r

unfoldable pub emit_request_cancel_external_workflow : String → Bool → Runner → Runner
emit_request_cancel_external_workflow id child_only r =
    emit (Command.request_cancel_external r.info.ns id child_only) r

unfoldable pub emit_signal_external_workflow : String → String → Payloads → Runner → Runner
emit_signal_external_workflow id name input r =
    emit (Command.signal_external r.info.ns id name input) r

unfoldable pub emit_upsert_search_attributes : Map String Payload → Runner → Runner
emit_upsert_search_attributes attributes r = emit (Command.upsert_search_attributes attributes) r

unfoldable pub emit_record_marker : String → List (String × Payloads) → Runner → Runner
emit_record_marker name details r = emit (Command.record_marker name details) r
