-- ===== src/History.antt =====
-- The data of src/internal/workflow_task_handler.cpp that a replay reads: the events of a history
-- (of each event, the attributes that the handler reads) and the `Prescan` of a whole history.
-- Payloads are include/temporal/common/payload.h; the conversion from protobuf payloads, a copy of
-- both fields, is left out.
pub mod Scan
pub mod Commands
pub mod Timeline
use temporal_cpp.Prelude.{
  ℕ, String, Bool, false, Option, none, some, List, [], ◌∷◌, Map, empty, ◌==◌, string_key,
  if◌then◌else◌,
}
use temporal_cpp.Determinism.{CommandEvent}

pub record Payload : Type 0 where
  pub metadata : Map String String
  pub content : List ℕ

abbrev pub Payloads : Type 0
Payloads = List Payload

-- The details of a marker command, by key.
unfoldable pub details_of : List (String × Payloads) → Map String Payloads
details_of [] key = none
details_of ((k, v) ∷ rest) key =
    let found = details_of rest key in if key == k then some v else found

-- `Payload{}`
abbrev pub no_payload : Payload
no_payload = record { metadata = empty; content = [] }

-- The fields that are read of a protobuf Failure: its message and its application failure type.
pub record Failure : Type 0 where
  pub message : String
  pub failure_type : String

-- The attributes of each event type that the handler reads; `other` is every other type.
pub data Attributes : Type 0 where
  workflow_started : String → Payloads → Map String Payload → Attributes
  activity_scheduled : String → String → Attributes
  activity_cancel_requested : ℕ → Attributes
  activity_completed : ℕ → Payloads → Attributes
  activity_failed : ℕ → Failure → Attributes
  activity_timed_out : ℕ → Attributes
  activity_canceled : ℕ → Attributes
  timer_started : String → Attributes
  timer_fired : String → Attributes
  timer_canceled : String → Attributes
  child_initiated : String → String → Attributes
  child_completed : String → Payloads → Attributes
  child_failed : String → Failure → Attributes
  child_canceled : String → Attributes
  request_cancel_external_initiated : String → Attributes
  signal_external_initiated : String → Attributes
  search_attributes_upserted : Attributes
  nexus_scheduled : Attributes
  nexus_completed : ℕ → Payload → Attributes
  nexus_failed : ℕ → Failure → Attributes
  nexus_timed_out : ℕ → Attributes
  nexus_canceled : ℕ → Attributes
  workflow_signaled : String → Payloads → Attributes
  update_accepted : String → Payloads → Attributes
  workflow_cancel_requested : Attributes
  marker_recorded : String → Map String Payloads → Attributes
  workflow_completed : Attributes
  workflow_failed : Attributes
  workflow_continued_as_new : Attributes
  other : Attributes

pub record Event : Type 0 where
  pub event_id : ℕ
  pub attributes : Attributes

pub record ActivityOutcome : Type 0 where
  pub scheduled : Bool
  pub resolved : Bool
  pub failed : Bool
  pub cancel_requested : Bool
  pub result : Payloads
  pub failure_type : String
  pub failure_message : String

pub record TimerOutcome : Type 0 where
  pub started : Bool
  pub fired : Bool
  pub cancelled : Bool

pub record ChildOutcome : Type 0 where
  pub initiated : Bool
  pub cancel_requested : Bool
  pub resolved : Bool
  pub failed : Bool
  pub result : Payloads
  pub failure_type : String
  pub failure_message : String

pub record NexusOpOutcome : Type 0 where
  pub scheduled : Bool
  pub resolved : Bool
  pub failed : Bool
  pub result : Payloads
  pub failure_type : String
  pub failure_message : String

-- The values that `operator[]` puts under a missing key.
abbrev pub no_activity : ActivityOutcome
no_activity = record {
  scheduled = false;
  resolved = false;
  failed = false;
  cancel_requested = false;
  result = [];
  failure_type = "";
  failure_message = "";
}

abbrev pub no_timer : TimerOutcome
no_timer = record { started = false; fired = false; cancelled = false }

abbrev pub no_child : ChildOutcome
no_child = record {
  initiated = false;
  cancel_requested = false;
  resolved = false;
  failed = false;
  result = [];
  failure_type = "";
  failure_message = "";
}

abbrev pub no_nexus_op : NexusOpOutcome
no_nexus_op = record {
  scheduled = false;
  resolved = false;
  failed = false;
  result = [];
  failure_type = "";
  failure_message = "";
}

pub record MutableSideEffectMarkerRaw : Type 0 where
  pub id : Payload
  pub call_index : Payload
  pub value : Payload

pub record LocalActivityMarkerRaw : Type 0 where
  pub failed : Bool
  pub result : Payloads
  pub failure_type : Payload
  pub failure_message : Payload

-- A ReplayStep: a deferred event, or an accepted update.
pub data ReplayStep : Type 0 where
  deferred : Event → ReplayStep
  update : String → Payloads → ReplayStep

pub record Prescan : Type 0 where
  pub input : Payloads
  pub headers : Map String Payload
  pub activities : Map String ActivityOutcome
  pub timers : Map String TimerOutcome
  pub children : Map String ChildOutcome
  pub nexus_ops : Map String NexusOpOutcome
  pub signals : Map String (List Payloads)
  pub cancel_requested : Bool
  pub ext_signals_initiated : ℕ
  pub upserts_initiated : ℕ
  pub sched_event_to_activity : Map ℕ String
  pub activity_to_sched_event : Map String ℕ
  pub sched_event_to_nexus : Map ℕ String
  pub nexus_ops_scheduled : ℕ
  pub last_event_id : ℕ
  pub commands : List CommandEvent
  pub side_effects : List Payload
  pub version_markers : List (Payloads × Payloads)
  pub mutable_side_effect_markers : List MutableSideEffectMarkerRaw
  pub local_activities : List LocalActivityMarkerRaw
  pub post_update_timeline : List ReplayStep

-- `Prescan ps;`
unfoldable pub no_scan : Prescan
no_scan = record {
  input = [];
  headers = empty;
  activities = empty;
  timers = empty;
  children = empty;
  nexus_ops = empty;
  signals = empty;
  cancel_requested = false;
  ext_signals_initiated = 0;
  upserts_initiated = 0;
  sched_event_to_activity = empty;
  activity_to_sched_event = empty;
  sched_event_to_nexus = empty;
  nexus_ops_scheduled = 0;
  last_event_id = 0;
  commands = [];
  side_effects = [];
  version_markers = [];
  mutable_side_effect_markers = [];
  local_activities = [];
  post_update_timeline = [];
}
