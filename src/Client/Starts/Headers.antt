-- ===== src/Client/Starts/Headers.antt =====
-- From the options of a start to the headers that the workflow reads.
use temporal_cpp.Prelude.{
  ℕ, ◌≡◌, refl, String, false, Option, none, [], ◌∷◌, empty, string_key, fun_ext, arith,
}
use temporal_cpp.History.{Payloads, Event, workflow_started, no_scan}
use temporal_cpp.History.Scan.{scan_history}
use temporal_cpp.Runner.{Runner, WorkflowInfo}
use temporal_cpp.Runner.Markers.{Converter}
use temporal_cpp.Workflow.{construct}
use temporal_cpp.Interceptors.{build_chain, wrap_each}
use temporal_cpp.Client.Starts.{
  Client, StartWorkflowOptions, StartRequest, SignalWithStartRequest, started, start_request,
  start_workflow, signal_with_start_request, signal_with_start, id_or,
}

-- The event that a start is recorded as.
abbrev pub recorded_start : StartRequest → Event
recorded_start r = record {
  event_id = 1;
  attributes = workflow_started r.workflow_type r.input r.header;
}

-- The runner that a worker makes for the first task of a run.
abbrev pub first_runner : Converter → WorkflowInfo → StartRequest → Runner
first_runner c info r = construct c info false (scan_history (recorded_start r ∷ [])) none none

-- The start that SignalWithStart asks for, in the fields of a StartWorkflow with the same options.
module _ (c : Client) (uuid : ℕ → String) (options : StartWorkflowOptions)
    (workflow_type signal_name : String) (signal_input input : Payloads) where
  abbrev pub plain_start : StartRequest
  plain_start =
      start_request c (id_or (uuid 0) options.id) (uuid 1)
        (record { workflow_type = workflow_type; options = options; args = input }) options.headers

  abbrev pub signalled_start : StartRequest
  signalled_start =
      (signal_with_start_request c uuid options workflow_type signal_name signal_input input).start

  -- Without interceptors, StartWorkflow and SignalWithStart send requests that agree in all but two
  -- fields: the latter drops the search attributes and the headers of its options. So a workflow
  -- reads the headers of the options if StartWorkflow started it, and none if SignalWithStart did.
  pub signal_with_start-drops_headers :
      (conv : Converter) (info : WorkflowInfo) (server : StartRequest → Option String)
      (signal_server : SignalWithStartRequest → Option String)
      → (start_workflow c uuid server [] options workflow_type input
          ≡ started (id_or (uuid 0) options.id) (server plain_start))
        × (signal_with_start c uuid signal_server options workflow_type signal_name signal_input
              input
            ≡ started (id_or (uuid 0) options.id) (
                signal_server (record {
                  start = record plain_start { search_attributes = empty; header = empty };
                  signal_name = signal_name;
                  signal_input = signal_input;
                })))
        × ((first_runner conv info plain_start).info.headers ≡ options.headers)
        × ((first_runner conv info signalled_start).info.headers ≡ empty)
  unfolding start_workflow build_chain wrap_each signal_with_start construct scan_history no_scan
  signal_with_start-drops_headers conv info server signal_server =
      (refl, refl, fun_ext λ k. ground arith, refl)
