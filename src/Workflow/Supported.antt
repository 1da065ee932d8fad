-- ===== src/Workflow/Supported.antt =====
-- A class of workflow bodies, and how a server records their commands.
use temporal_cpp.Prelude.{
  ℕ, suc, ◌+◌, ◌≡◌, String, Bool, true, Option, none, some, List, [], ◌∷◌, ◌++◌, Map, string_key,
}
use temporal_cpp.Determinism.{Kind, CommandEvent}
use temporal_cpp.History.{
  Payload, Payloads, Attributes, Event, Prescan, TimerOutcome, no_timer, ChildOutcome, no_child,
  child_initiated, activity_scheduled, timer_started, signal_external_initiated,
  search_attributes_upserted, marker_recorded, other, details_of,
}
use temporal_cpp.Runner.{Command, FutureState, ScheduleActivity, StartChild}
use temporal_cpp.Proto.{Duration}
use temporal_cpp.Runner.Agreement.{scheduled_only}
use temporal_cpp.Workflow.{
  Body, finish, raise, continue_as_new, execute_activity, new_timer, signal_external, upsert, get,
  is_ready, receive, receive_async, has_pending, is_cancel_requested, await_cancellation,
  execute_child, side_effect, write, read, set_update_handler, select, Cases, no_default,
  default_case, on_future, on_receive,
}

-- Bodies built from activities, timers, child workflows, external signals, search attributes, side effects, signal
-- channels, futures (that of a cancellation too), selectors and shared variables. Not among them:
-- requests to cancel, Nexus operations, versions and local activities.
abbrev mutual
  pub Supported : {U : Type 0} → Body U → Type 0
  Supported (finish result) = Unit
  Supported (raise failure) = Unit
  Supported (continue_as_new type input) = Unit
  Supported (execute_activity type input options k) = (h : ℕ) → Supported (k h)
  Supported (new_timer duration k) = (h : ℕ) → Supported (k h)
  Supported (execute_child type input options k) = (h : ℕ) → Supported (k h)
  Supported (signal_external id name input k) = Supported k
  Supported (upsert attributes k) = Supported k
  Supported (get h k) = (s : FutureState) → Supported (k s)
  Supported (is_ready h k) = (b : Bool) → Supported (k b)
  Supported (receive name k) = (args : Payloads) → Supported (k args)
  Supported (receive_async name k) = (taken : Option Payloads) → Supported (k taken)
  Supported (has_pending name k) = (b : Bool) → Supported (k b)
  Supported (is_cancel_requested k) = (b : Bool) → Supported (k b)
  Supported (await_cancellation k) = (h : ℕ) → Supported (k h)
  Supported (side_effect k) = (v : Payload) → Supported (k v)
  Supported {U} (write f k) = Supported k
  Supported {U} (read k) = (u : U) → Supported (k u)
  Supported (select cases) = SupportedCases cases
  Supported (set_update_handler name handler k) = Supported k
  Supported _ = ⊥

  pub SupportedCases : {U : Type 0} → Cases U → Type 0
  SupportedCases no_default = Unit
  SupportedCases (default_case k) = Supported k
  SupportedCases (on_future h k rest) = ((s : FutureState) → Supported (k s)) × SupportedCases rest
  SupportedCases (on_receive name k rest) =
      ((args : Payloads) → Supported (k args)) × SupportedCases rest

-- The attributes of the event that a server records for a command of such a body. (`details` of a
-- marker are the command's, by key.)
unfoldable pub recorded_as : Command → Attributes
unfolding details_of
recorded_as (Command.schedule_activity a) = activity_scheduled a.activity_id a.activity_type
recorded_as (Command.start_timer id duration) = timer_started id
recorded_as (Command.start_child a) = child_initiated a.workflow_id a.workflow_type
recorded_as (Command.signal_external ns id name input) = signal_external_initiated id
recorded_as (Command.upsert_search_attributes attributes) = search_attributes_upserted
recorded_as (Command.record_marker name details) = marker_recorded name (details_of details)
recorded_as _ = other

-- The events of a list of commands, in order, from an event id on.
unfoldable pub recorded_from : ℕ → List Command → List Event
unfolding recorded_as
recorded_from i [] = []
recorded_from i (c ∷ cs) =
    record { event_id = i; attributes = recorded_as c } ∷ recorded_from (suc i) cs

-- The command event that such a command is matched as.
unfoldable pub event_of : Command → CommandEvent
event_of (Command.schedule_activity a) = record {
  kind = Kind.activity;
  id = a.activity_id;
  name = a.activity_type;
}
event_of (Command.start_timer id duration) = record { kind = Kind.timer; id = id; name = "" }
event_of (Command.start_child a) = record {
  kind = Kind.child_workflow;
  id = a.workflow_id;
  name = a.workflow_type;
}
event_of (Command.signal_external ns id name input) = record {
  kind = Kind.signal_external_workflow;
  id = id;
  name = "";
}
event_of (Command.record_marker name details) = record { kind = Kind.marker; id = name; name = "" }
event_of _ = record { kind = Kind.upsert_search_attributes; id = ""; name = "" }

-- A scan without any recorded command.
pub record IsBlank (ps : Prescan) : Type 0 where
  pub no_activities : (id : String) → ps.activities id ≡ none
  pub no_timers : (id : String) → ps.timers id ≡ none
  pub no_children : (id : String) → ps.children id ≡ none
  pub no_ext_signals : ps.ext_signals_initiated ≡ 0
  pub no_upserts : ps.upserts_initiated ≡ 0
  pub no_side_effects : ps.side_effects ≡ []

abbrev pub is_signal : Command → ℕ
is_signal (Command.signal_external ns id name input) = 1
is_signal _ = 0

abbrev pub is_upsert : Command → ℕ
is_upsert (Command.upsert_search_attributes attributes) = 1
is_upsert _ = 0

abbrev pub total : (Command → ℕ) → List Command → ℕ
total f [] = 0
total f (c ∷ cs) = f c + total f cs

-- The values of the side effects among the commands.
abbrev pub value_of : Command → List Payload
value_of (Command.record_marker name (id ∷ (key, v ∷ vs) ∷ rest)) = v ∷ []
value_of _ = []

abbrev pub values : List Command → List Payload
values [] = []
values (c ∷ cs) = value_of c ++ values cs

abbrev pub started_only : TimerOutcome
started_only = record no_timer { started = true }

abbrev pub initiated_only : ChildOutcome
initiated_only = record no_child { initiated = true }

-- What a scan must hold of a command for the replay of the call.
abbrev pub Holds : Prescan → Command → Type 0
Holds ps (Command.schedule_activity a) = ps.activities a.activity_id ≡ some scheduled_only
Holds ps (Command.start_timer id duration) = ps.timers id ≡ some started_only
Holds ps (Command.start_child a) = ps.children a.workflow_id ≡ some initiated_only
Holds ps _ = Unit {0}

abbrev pub AllHold : Prescan → List Command → Type 0
AllHold ps [] = Unit {0}
AllHold ps (c ∷ cs) = Holds ps c × AllHold ps cs

pub record Records (ps : Prescan) (cs : List Command) : Type 0 where
  pub scheduled : AllHold ps cs
  pub ext_signals : total is_signal cs ≡ ps.ext_signals_initiated
  pub upserts : total is_upsert cs ≡ ps.upserts_initiated
  pub side_effects : values cs ≡ ps.side_effects

-- The commands of supported bodies.
pub data IsPlain : Command → Type 0 where
  activity : (a : ScheduleActivity) → IsPlain (Command.schedule_activity a)
  timer : (id : String) (duration : Duration) → IsPlain (Command.start_timer id duration)
  child : (a : StartChild) → IsPlain (Command.start_child a)
  signal :
      (ns id name : String) (input : Payloads) → IsPlain (Command.signal_external ns id name input)
  upserts :
      (attributes : Map String Payload) → IsPlain (Command.upsert_search_attributes attributes)
  effect :
      (id : Payloads) (v : Payload)
      → IsPlain
          (Command.record_marker "SideEffect" (("side-effect-id", id) ∷ ("data", v ∷ []) ∷ []))

abbrev pub AllPlain : List Command → Type 0
AllPlain [] = Unit {0}
AllPlain (c ∷ cs) = IsPlain c × AllPlain cs
