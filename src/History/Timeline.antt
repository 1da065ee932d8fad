-- ===== src/History/Timeline.antt =====
-- What ScanHistory holds back for the incremental replay behind the first accepted update.
use temporal_cpp.Prelude.{List, [], ◌∷◌, ◌++◌, if◌then◌else◌}
use temporal_cpp.History.{
  Event, ReplayStep, deferred, update, update_accepted, activity_completed, activity_failed,
  activity_timed_out, activity_canceled, timer_fired, child_completed, child_failed, child_canceled,
  nexus_completed, nexus_failed, nexus_timed_out, nexus_canceled, workflow_signaled,
  workflow_cancel_requested,
}
use temporal_cpp.History.Scan.{is_update}

-- The steps that one event contributes behind the first accepted update: an update runs its handler;
-- the end of an activity, a timer that fires, the end of a child workflow or of a Nexus operation, a
-- signal and a request to cancel the workflow are held back; no other event is.
pub step_of : Event → List ReplayStep
step_of ev = elim ev.attributes [
  | update_accepted name args ↦ update name args ∷ []
  | activity_completed s result ↦ deferred ev ∷ []
  | activity_failed s failure ↦ deferred ev ∷ []
  | activity_timed_out s ↦ deferred ev ∷ []
  | activity_canceled s ↦ deferred ev ∷ []
  | timer_fired t ↦ deferred ev ∷ []
  | child_completed w result ↦ deferred ev ∷ []
  | child_failed w failure ↦ deferred ev ∷ []
  | child_canceled w ↦ deferred ev ∷ []
  | nexus_completed s result ↦ deferred ev ∷ []
  | nexus_failed s failure ↦ deferred ev ∷ []
  | nexus_timed_out s ↦ deferred ev ∷ []
  | nexus_canceled s ↦ deferred ev ∷ []
  | workflow_signaled name args ↦ deferred ev ∷ []
  | workflow_cancel_requested ↦ deferred ev ∷ []
  | _ ↦ []
]

pub steps : List Event → List ReplayStep
steps [] = []
steps (ev ∷ evs) = step_of ev ++ steps evs

-- The history from the first accepted update on.
pub from_first_update : List Event → List Event
from_first_update [] = []
from_first_update (ev ∷ evs) =
    let rest = from_first_update evs in if is_update ev.attributes then ev ∷ evs else rest
