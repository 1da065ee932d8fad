-- ===== src/Tests/Runs.antt =====
-- Calls of a workflow function at concrete inputs.
use temporal_cpp.Prelude.{
  Option, ◌≡◌, refl, true, false, none, some, [], ◌∷◌, ◌++◌, empty, arith, to_string, string_key,
  number_key,
}
use temporal_cpp.Prelude.Int.{pos}
use temporal_cpp.Determinism.{Kind, CommandEvent, match_replay_commands, command_matches_event}
use temporal_cpp.History.{no_payload, no_scan, activity_completed}
use temporal_cpp.History.Scan.{scan_history, scan_attributes}
use temporal_cpp.Runner.Calls.{schedule_activity}
use temporal_cpp.Runner.Events.{apply_attributes}
use temporal_cpp.Runner.{Runner, Command, application_error}
use temporal_cpp.Runner.Agreement
use temporal_cpp.Runner.Agreement.{schedule_activity-agrees}
use temporal_cpp.Runner.{returned, LocalActivityResolver}
use temporal_cpp.Determinism
use temporal_cpp.Runner.Versions.{twice, version_marker, get_version_twice-refused}
use temporal_cpp.Runner.Emit.{activity_command}
use temporal_cpp.Runner.Unregistered
use temporal_cpp.Runner.Unregistered.{then_activity, unregistered-refused}
use temporal_cpp.Runner.Signals.{
  signal_run-in_order, arrives, consumes, signal_run, unread, arrivals,
}
use temporal_cpp.Runner.Cancellation.{schedule_and_cancel, schedule_and_cancel-diverges}
use temporal_cpp.Workflow.{construct}
use temporal_cpp.Tests.{plain_converter, options, runner, replay_runner, charge}

abbrev scheduled_runner : Runner
scheduled_runner = record replay_runner {
  scan = record no_scan {
    activities = λ k. some Agreement.scheduled_only;
    sched_event_to_activity = λ k. some "0";
    activity_to_sched_event = λ k. some 4;
  };
}

schedule_activity-agrees_example :
    (apply_attributes 5
        (activity_completed 4 (no_payload ∷ []))
        (schedule_activity "Charge" [] options scheduled_runner).1).futures
      0
    ≡ (schedule_activity "Charge" [] options (record scheduled_runner {
      scan = scan_attributes 5 (activity_completed 4 (no_payload ∷ [])) scheduled_runner.scan;
    })).1.futures
        0
unfolding to_string construct
schedule_activity-agrees_example =
    schedule_activity-agrees "Charge" [] options scheduled_runner 5 4
      (Agreement.completed (no_payload ∷ [])) refl refl

abbrev local_runner : Runner
local_runner = record runner {
  local_activity_resolver =
      some (λ type. some (λ attempt input. application_error "down" "Outage" false));
}

-- A worker on which the activity would now succeed.
abbrev mended : Option LocalActivityResolver
mended = some (λ type. some (λ attempt input. returned []))

signal_run-in_order_example :
    (signal_run "pay" (consumes ∷ arrives [] ∷ consumes ∷ []) runner).0
      ++ unread "pay" (signal_run "pay" (consumes ∷ arrives [] ∷ consumes ∷ []) runner).1
    ≡ unread "pay" runner ++ arrivals (consumes ∷ arrives [] ∷ consumes ∷ [])
unfolding construct
signal_run-in_order_example =
    signal_run-in_order "pay" (consumes ∷ arrives [] ∷ consumes ∷ []) runner (omega arith)

abbrev versioned_runner : Runner
versioned_runner = record replay_runner { change_versions = λ id. some (pos 2) }

get_version_twice-refused_example :
    match_replay_commands
      (schedule_activity "Charge" [] options
        (twice plain_converter "step" (pos 1) (pos 2) versioned_runner)).1.produced_commands
      (version_marker ∷ charge ∷ [])
    ≡ some (Determinism.mismatch 1 charge version_marker)
unfolding construct
get_version_twice-refused_example =
    get_version_twice-refused plain_converter "step" (pos 1) (pos 2) (pos 2) "Charge" [] options
      versioned_runner refl refl refl

-- A worker without local activities of its own.
abbrev bare_runner : Runner
bare_runner = record runner { local_activity_resolver = some (λ type. none) }

unregistered-refused_example :
    ((then_activity plain_converter "Ping" [] none "Charge" [] options bare_runner).commands
      ≡ activity_command "0" "Charge" [] options empty bare_runner ∷ [])
    × (match_replay_commands
          (then_activity plain_converter "Ping" [] none "Charge" [] options
            (record bare_runner { scan = no_scan; is_replaying = true })).produced_commands
          (charge ∷ [])
        ≡ some (Determinism.mismatch 0 charge Unregistered.local_marker))
unfolding construct scan_history no_scan activity_command to_string
unregistered-refused_example =
    unregistered-refused plain_converter "Ping" [] none "Charge" [] options bare_runner no_scan
      (λ type. none) refl refl refl refl refl refl

schedule_and_cancel-diverges_example :
    (schedule_and_cancel "Charge" [] options runner
      ≡ (schedule_activity "Charge" [] options runner).1)
    × ((schedule_and_cancel "Charge" [] options runner).produced_commands
        ≡ runner.produced_commands
          ++ record { kind = Kind.activity; id = to_string runner.activity_seq; name = "Charge" }
            ∷ [])
    × ((schedule_and_cancel "Charge" [] options scheduled_runner).produced_commands
        ≡ scheduled_runner.produced_commands
          ++ record {
            kind = Kind.activity;
            id = to_string scheduled_runner.activity_seq;
            name = "Charge";
          }
            ∷ record { kind = Kind.request_cancel_activity; id = to_string 4; name = "" }
            ∷ [])
    × ((schedule_and_cancel "Charge" [] options scheduled_runner).commands
        ≡ scheduled_runner.commands ++ Command.request_cancel_activity 4 ∷ [])
unfolding construct scan_history
schedule_and_cancel-diverges_example =
    schedule_and_cancel-diverges "Charge" [] options runner scheduled_runner 4 refl refl refl
