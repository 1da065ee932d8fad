-- ===== src/Runner/Agreement.antt =====
-- The two ways in which an activity's future gets its outcome: an event that arrives while the
-- workflow is cached, and the scan of a history that holds the event, on a replay.
use temporal_cpp.Prelude.{
  ℕ, ◌≡◌, String, true, some, arith, to_string, number_key, string_key, beq_refl,
}
use temporal_cpp.History.{
  Payloads, Failure, Attributes, ActivityOutcome, no_activity, activity_completed, activity_failed,
  activity_timed_out, activity_canceled,
}
use temporal_cpp.History.Scan.{scan_attributes, update_activity}
use temporal_cpp.Proto.{ActivityOptions}
use temporal_cpp.Runner.{Runner}
use temporal_cpp.Runner.Calls.{schedule_activity}
use temporal_cpp.Runner.Events.{apply_attributes, resolve_activity}

-- The events that resolve an activity, with the event id of its schedule.
pub data ResolvesActivity (s : ℕ) : Attributes → Type 0 where
  completed : (r : Payloads) → ResolvesActivity s (activity_completed s r)
  failed : (f : Failure) → ResolvesActivity s (activity_failed s f)
  timed_out : ResolvesActivity s (activity_timed_out s)
  canceled : ResolvesActivity s (activity_canceled s)

-- A scheduled activity without an outcome yet.
abbrev pub scheduled_only : ActivityOutcome
scheduled_only = record no_activity { scheduled = true }

module _ (type : String) (input : Payloads) (options : ActivityOptions) where
  abbrev call : Runner → Runner
  call r = (schedule_activity type input options r).1

  -- On a cached workflow whose scan has the schedule of an activity and no outcome yet, an event
  -- that resolves the activity gives its future the state that the same call gets on a replay whose
  -- scan holds the event already: both paths agree on every field, for each way in which an
  -- activity can end.
  pub schedule_activity-agrees :
      (r : Runner) (i s : ℕ) {a : Attributes}
      → ResolvesActivity s a
      → r.scan.sched_event_to_activity s ≡ some (to_string r.activity_seq)
      → r.scan.activities (to_string r.activity_seq) ≡ some scheduled_only
      → (apply_attributes i a (call r)).futures r.next_future
        ≡ (call (record r { scan = scan_attributes i a r.scan })).futures r.next_future
  unfolding schedule_activity apply_attributes resolve_activity scan_attributes update_activity
  schedule_activity-agrees r i s (completed p) e o =
      ground (arith, beq_refl (to_string r.activity_seq))
  schedule_activity-agrees r i s (failed f) e o =
      ground (arith, beq_refl (to_string r.activity_seq))
  schedule_activity-agrees r i s timed_out e o = ground (arith, beq_refl (to_string r.activity_seq))
  schedule_activity-agrees r i s canceled e o = ground (arith, beq_refl (to_string r.activity_seq))
