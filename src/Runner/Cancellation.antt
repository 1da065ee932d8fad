-- ===== src/Runner/Cancellation.antt =====
-- Cancelling an activity.
use temporal_cpp.Prelude.{
  ℕ, ◌≡◌, String, none, some, [], ◌∷◌, ◌++◌, arith, append_assoc, string_key, number_key, beq_refl,
  to_string,
}
use temporal_cpp.Determinism.{Kind, CommandEvent}
use temporal_cpp.History.{Payloads}
use temporal_cpp.Proto.{ActivityOptions}
use temporal_cpp.Runner.{Runner, Command}
use temporal_cpp.Runner.Calls.{schedule_activity, cancel}
use temporal_cpp.Runner.Emit.{emit_schedule_activity, emit_request_cancel_activity}
use temporal_cpp.Runner.Agreement.{scheduled_only}

module _ (type : String) (input : Payloads) (options : ActivityOptions) where
  -- Schedules an activity and cancels it in the same workflow task.
  abbrev pub schedule_and_cancel : Runner → Runner
  schedule_and_cancel r = let (h, r₁) = schedule_activity type input options r in cancel h r₁

  abbrev activity_event : Runner → CommandEvent
  activity_event r = record { kind = Kind.activity; id = to_string r.activity_seq; name = type }

  -- While the history does not hold the schedule, the cancellation is dropped without a trace: the
  -- runner is as after the schedule alone, and has produced the activity alone. On a replay whose
  -- history holds the schedule, the same two calls produce a cancellation behind the activity, and
  -- send it.
  pub schedule_and_cancel-diverges :
      (live replay : Runner) (scheduled : ℕ)
      → live.scan.activity_to_sched_event (to_string live.activity_seq) ≡ none
      → replay.scan.activity_to_sched_event (to_string replay.activity_seq) ≡ some scheduled
      → replay.scan.activities (to_string replay.activity_seq) ≡ some scheduled_only
      → (schedule_and_cancel live ≡ (schedule_activity type input options live).1)
        × ((schedule_and_cancel live).produced_commands
            ≡ live.produced_commands ++ activity_event live ∷ [])
        × ((schedule_and_cancel replay).produced_commands
            ≡ replay.produced_commands
              ++ activity_event replay
                ∷ record {
                  kind = Kind.request_cancel_activity;
                  id = to_string scheduled;
                  name = "";
                }
                ∷ [])
        × ((schedule_and_cancel replay).commands
            ≡ replay.commands ++ Command.request_cancel_activity scheduled ∷ [])
  unfolding schedule_activity cancel emit_schedule_activity emit_request_cancel_activity
  schedule_and_cancel-diverges live replay scheduled el er ea = (
    ground (arith, beq_refl live.next_future),
    ground (arith, beq_refl live.next_future),
    ground (
      arith,
      append_assoc replay.produced_commands (activity_event replay ∷ []) (
          record { kind = Kind.request_cancel_activity; id = to_string scheduled; name = "" } ∷ []),
    ),
    ground arith,
  )
