-- ===== src/Tasks/Offline.antt =====
-- WorkflowTaskHandler::ReplayHistory (src/internal/workflow_task_handler.cpp) and what
-- ReplayWorkflowHistory (src/internal/worker_impl.cpp) makes of its verdict: the replay of a history
-- in a test, without a server.
pub mod AutoIds
pub mod FalseAlarms
use temporal_cpp.Prelude.{
  ℕ, String, true, Option, none, some, List, [], ◌∷◌, ◌==◌, string_key, empty, if◌then◌else◌,
}
use Prim.Native.String.{◌++◌ as append}
use temporal_cpp.Determinism.{match_replay_commands}
use temporal_cpp.History.{Payload, Event, workflow_started}
use temporal_cpp.History.Scan.{scan_history}
use temporal_cpp.Runner.{WorkflowInfo}
use temporal_cpp.Runner.Markers.{Converter}
use temporal_cpp.Workflow.{Body, Execution, construct, run}
use temporal_cpp.Tasks.{TaskHandler}

-- An exception: its message and its type.
pub record ReplayError : Type 0 where
  pub message : String
  pub error_type : String

pub data ReplayVerdict : Type 0 where
  refused : ReplayError → ReplayVerdict
  checked : Option String → ReplayVerdict

-- The type of the workflow, empty without a start event.
unfoldable pub started_type : List Event → String
started_type [] = ""
started_type (ev ∷ evs) =
    let later = started_type evs in
    elim ev.attributes [ workflow_started type input headers ↦ type | _ ↦ later ]

abbrev pub replay_info : String → String → String → WorkflowInfo
replay_info task_queue ns type = record {
  workflow_id = "replay";
  run_id = "";
  workflow_type = type;
  task_queue = task_queue;
  ns = ns;
  headers = empty;
}

-- The exception that ReplayWorkflowHistory throws on a verdict.
unfoldable pub exception_of : ReplayVerdict → Option ReplayError
exception_of (refused e) = some e
exception_of (checked none) = none
exception_of (checked (some mismatch)) =
    some (record { message = mismatch; error_type = "NonDeterministicError" })

module _ (c : Converter) (fresh : ℕ → Payload) (task_queue ns : String) {U : Type 0} where
  -- The runner after it was driven through the history.
  abbrev pub replayed_offline : String → Body U × U → List Event → TaskHandler U → Execution U
  replayed_offline type wf events th = run c fresh (record {
    runner =
        construct c (replay_info task_queue ns type) true (scan_history events) th.resolver
          th.chain;
    user = wf.1;
    update_handlers = empty;
    rest = wf.0;
  })

  unfoldable pub replay_history : List Event → TaskHandler U → ReplayVerdict
  unfolding started_type
  replay_history events th =
      let type = started_type events in
      if type == ""
      then refused (record {
        message = "history has no WorkflowExecutionStarted event";
        error_type = "ReplayError";
      })
      else elim (th.workflows type) [
        | none ↦ refused (record {
          message = append "no workflow registered for type: " type;
          error_type = "ReplayError";
        })
        | some wf ↦
            let x = replayed_offline type wf events th in
            checked (match_replay_commands x.runner.produced_commands x.runner.scan.commands)
      ]

  -- ReplayWorkflowHistory, once the history is parsed.
  unfoldable pub replay_workflow_history : List Event → TaskHandler U → Option ReplayError
  unfolding replay_history exception_of
  replay_workflow_history events th = exception_of (replay_history events th)
