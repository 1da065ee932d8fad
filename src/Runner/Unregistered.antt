-- ===== src/Runner/Unregistered.antt =====
-- A local activity that the worker has not registered (ExecuteLocalActivity of
-- src/internal/workflow_task_handler.cpp), in a workflow that goes on behind its error.
use temporal_cpp.Prelude.{
  suc, ◌≡◌, refl, ap, ◌∙◌, String, true, Option, none, some, [], ◌∷◌, ◌++◌, to_string, arith,
}
use temporal_cpp.Determinism.{
  CommandEvent, Kind, mismatch, match_replay_commands, command_matches_event,
}
use temporal_cpp.Determinism.Matching.{match_replay_commands-first_divergence, nil}
use temporal_cpp.History.{Payloads, Prescan}
use temporal_cpp.Proto.{ActivityOptions, RetryPolicy}
use temporal_cpp.Runner.{Runner, produce, LocalActivityResolver}
use temporal_cpp.Runner.Calls.{schedule_activity, augmented}
use temporal_cpp.Runner.Emit.{activity_command, emit_schedule_activity}
use temporal_cpp.Runner.LocalActivity.{execute_local_activity, run_live}
use temporal_cpp.Runner.Markers.{Converter}
use temporal_cpp.Runner.Versions.{produced-schedule}

abbrev pub local_marker : CommandEvent
local_marker = record { kind = Kind.marker; id = "LocalActivity"; name = "" }

module _ (c : Converter) (type : String) (input : Payloads) (policy : Option RetryPolicy)
    (activity_type : String) (args : Payloads) (options : ActivityOptions) where
  -- The workflow calls the local activity, catches its error, and schedules an activity.
  abbrev pub then_activity : Runner → Runner
  then_activity r =
      (schedule_activity activity_type args options
        (execute_local_activity c type input policy r).1).1

  -- The state behind the call.
  abbrev called : Runner → Runner
  called r =
      produce Kind.marker "LocalActivity" ""
        (record r { local_activity_seq = suc r.local_activity_seq })

  called-eq :
      (r : Runner) (resolver : LocalActivityResolver)
      → r.local_activity_resolver ≡ some resolver
      → resolver type ≡ none
      → r.scan.local_activities ≡ []
      → (execute_local_activity c type input policy r).1 ≡ called r
  unfolding execute_local_activity run_live
  called-eq r resolver e f n = ground arith

  abbrev pub activity_event : Runner → CommandEvent
  activity_event r = record {
    kind = Kind.activity;
    id = to_string r.activity_seq;
    name = activity_type;
  }

  -- A local activity that is not registered sends no command, but counts as a marker that was
  -- produced. A workflow that goes on behind its error and schedules an activity sends that activity
  -- alone; and on the history that records it, with no marker, the replay by a worker with the same
  -- registrations is refused, as it finds the activity where it produced a marker.
  pub unregistered-refused :
      (r : Runner) (ps : Prescan) (resolver : LocalActivityResolver)
      → r.local_activity_resolver ≡ some resolver
      → resolver type ≡ none
      → r.scan.local_activities ≡ []
      → ps.local_activities ≡ []
      → r.scan.activities (to_string r.activity_seq) ≡ none
      → r.produced_commands ≡ []
      → ((then_activity r).commands
          ≡ r.commands
            ++ activity_command
                (to_string r.activity_seq)
                activity_type
                args
                options
                (augmented r.outbound_chain activity_type options args r.info.headers)
                (called r)
              ∷ [])
        × (match_replay_commands
              (then_activity (record r { scan = ps; is_replaying = true })).produced_commands
              (activity_event r ∷ [])
            ≡ some (mismatch 0 (activity_event r) local_marker))
  unfolding schedule_activity emit_schedule_activity activity_command command_matches_event
  unregistered-refused r ps resolver e f n m fresh p =
      let r' = record r { scan = ps; is_replaying = true } in
      let live = called-eq r resolver e f n in
      let again = called-eq r' resolver e f m in
      let scheduled = λ (x : Runner). (schedule_activity activity_type args options x).1 in
      let produced : (then_activity r').produced_commands ≡ local_marker ∷ activity_event r ∷ [] =
        ap (λ x. (scheduled x).produced_commands) again
        ∙ produced-schedule activity_type args options (called r')
        ∙ ap (λ l. (l ++ local_marker ∷ []) ++ activity_event r ∷ []) p in
      (
        ap (λ x. (scheduled x).commands) live ∙ rw fresh,
        ap (λ l. match_replay_commands l (activity_event r ∷ [])) produced
            ∙ (match_replay_commands-first_divergence local_marker (activity_event r)
                (activity_event r ∷ []) [] nil refl).0,
      )
