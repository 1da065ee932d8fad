-- ===== src/Runner.antt =====
-- The state of `WorkflowRunner` (src/internal/workflow_task_handler.cpp), the futures and outbound
-- commands that it holds. A `std::shared_ptr<FutureState>` is a handle into `futures`, so that the
-- workflow body and the maps of the runner share one state.
pub mod Emit
pub mod Calls
pub mod Markers
pub mod LocalActivity
pub mod LocalReplay
pub mod Events
pub mod Agreement
pub mod Versions
pub mod Unregistered
pub mod Signals
pub mod Cancellation
use temporal_cpp.Prelude.{
  ℕ, suc, String, Bool, false, Option, List, [], ◌∷◌, ◌++◌, Map, empty, ◌==◌, number_key,
  if◌then◌else◌,
}
use temporal_cpp.Prelude.Int.{ℤ}
use temporal_cpp.Determinism.{Kind, CommandEvent}
use temporal_cpp.History.{Payload, Payloads, Failure, Prescan}
use temporal_cpp.Proto.{
  Duration, ProtoRetryPolicy, ActivityOptions, ParentClosePolicy, ChildWorkflowOptions,
}

-- FutureState::Op
pub data Op : Type 0 where
  none timer activity child_workflow nexus_operation : Op

pub record FutureState : Type 0 where
  pub ready : Bool
  pub failed : Bool
  pub cancelled : Bool
  pub result : Payloads
  pub failure_type : String
  pub failure_message : String
  pub op : Op
  pub op_id : String

abbrev pub pending : Op → String → FutureState
pending op id = record {
  ready = false;
  failed = false;
  cancelled = false;
  result = [];
  failure_type = "";
  failure_message = "";
  op = op;
  op_id = id;
}

pub record WorkflowInfo : Type 0 where
  pub workflow_id : String
  pub run_id : String
  pub workflow_type : String
  pub task_queue : String
  pub ns : String
  pub headers : Map String Payload

-- cmd::Command, with the attributes that the runner sets.
pub record ScheduleActivity : Type 0 where
  pub activity_id : String
  pub activity_type : String
  pub task_queue : String
  pub input : Payloads
  pub header : Map String Payload
  pub schedule_to_close : Option Duration
  pub schedule_to_start : Option Duration
  pub start_to_close : Option Duration
  pub heartbeat : Option Duration
  pub retry_policy : Option ProtoRetryPolicy

pub record StartChild : Type 0 where
  pub ns : String
  pub workflow_id : String
  pub workflow_type : String
  pub task_queue : String
  pub input : Payloads
  pub parent_close_policy : ParentClosePolicy

pub data Command : Type 0 where
  schedule_activity : ScheduleActivity → Command
  start_timer : String → Duration → Command
  cancel_timer : String → Command
  request_cancel_activity : ℕ → Command
  start_child : StartChild → Command
  schedule_nexus : String → String → String → Payload → Option Duration → Command
  request_cancel_external : String → String → Bool → Command
  signal_external : String → String → String → Payloads → Command
  upsert_search_attributes : Map String Payload → Command
  record_marker : String → List (String × Payloads) → Command
  complete_workflow : Payloads → Command
  fail_workflow : Failure → Command
  continue_as_new : String → Payloads → Command

pub data Status : Type 0 where
  blocked completed failed continued : Status

-- A run of an activity function: it returns, throws an ApplicationError (message, type and
-- whether it is non-retryable), or throws another exception.
pub data ActivityRun : Type 0 where
  returned : Payloads → ActivityRun
  application_error : String → String → Bool → ActivityRun
  exception : String → ActivityRun

-- A registered activity, on the number of the attempt and the input.
abbrev pub ActivityFn : Type 0
ActivityFn = ℕ → Payloads → ActivityRun

abbrev pub LocalActivityResolver : Type 0
LocalActivityResolver = String → Option ActivityFn

-- What the interceptors of the application make of an activity's header.
abbrev pub OutboundChain : Type 0
OutboundChain = String → ActivityOptions → Payloads → Map String Payload → Map String Payload

pub record Runner : Type 0 where
  pub info : WorkflowInfo
  pub is_replaying : Bool
  pub scan : Prescan
  pub futures : ℕ → FutureState
  pub next_future : ℕ
  pub signal_cursor : Map String ℕ
  pub activity_futures : Map String ℕ
  pub timer_futures : Map String ℕ
  pub child_futures : Map String ℕ
  pub nexus_futures : Map String ℕ
  pub cancel_futures : List ℕ
  pub commands : List Command
  pub produced_commands : List CommandEvent
  pub status : Status
  pub result : Payloads
  pub failure : Failure
  pub continue_as_new : String × Payloads
  pub activity_seq : ℕ
  pub timer_seq : ℕ
  pub child_seq : ℕ
  pub nexus_seq : ℕ
  pub side_effect_seq : ℕ
  pub ext_signal_seq : ℕ
  pub upsert_seq : ℕ
  pub change_versions : Map String ℤ
  pub mse_recorded : Map String (List (ℤ × Payload))
  pub mse_call_count : Map String ℕ
  pub mse_cursor : Map String ℕ
  pub mse_current : Map String Payload
  pub local_activity_seq : ℕ
  pub local_activity_resolver : Option LocalActivityResolver
  pub outbound_chain : Option OutboundChain

-- `std::make_shared<FutureState>()`, filled in: a new handle.
abbrev pub allocate : FutureState → Runner → Runner
allocate s r = record r {
  futures = λ h. if h == r.next_future then s else r.futures h;
  next_future = suc r.next_future;
}

-- An assignment through a `shared_ptr<FutureState>`.
abbrev pub write_future : ℕ → (FutureState → FutureState) → Runner → Runner
write_future h f r = record r { futures = λ j. if j == h then f (r.futures h) else r.futures j }

-- `produced_commands_.push_back({kind, id, name})`
abbrev pub produce : Kind → String → String → Runner → Runner
produce k i n r = record r {
  produced_commands = r.produced_commands ++ record { kind = k; id = i; name = n } ∷ [];
}

-- `commands_.push_back(c)`
abbrev pub emit : Command → Runner → Runner
emit c r = record r { commands = r.commands ++ c ∷ [] }
