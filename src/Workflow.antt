-- ===== src/Workflow.antt =====
-- A workflow body and the coroutine that runs it: RunBody, Run, ApplyAndResume and
-- ReapplyHistoricalUpdates of `WorkflowRunner` (src/internal/workflow_task_handler.cpp), with the
-- calls of include/temporal/workflow/{context,future,channel,selector}.h that reach the runner.
--
-- The application's workflow function is a tree: each node is one call on the workflow context and
-- continues with what the call returns. The variables that the function and its handlers share are
-- one value of a type `U`. Parking the coroutine keeps the tree that is left.
pub mod Supported
pub mod Waits
pub mod Live
pub mod Selector
pub mod Sends
pub mod Effects
pub mod Silent
pub mod Replay
pub mod Marks
pub mod Recorded
pub mod Opening
pub mod Deterministic
use temporal_cpp.Prelude.{
  ℕ, String, Bool, true, false, Option, none, some, List, [], ◌∷◌, ◌++◌, Map, empty, insert, not,
  ◌||◌, if◌then◌else◌, string_key, ◌==◌,
}
use temporal_cpp.Prelude.Int.{ℤ}
use temporal_cpp.Determinism.{Kind, CommandEvent}
use temporal_cpp.History.{
  Payload, Payloads, Failure, Event, Prescan, no_payload, ReplayStep, deferred, update,
}
use temporal_cpp.Proto.{ActivityOptions, ChildWorkflowOptions, RetryPolicy}
use temporal_cpp.Runner.{
  Runner, FutureState, Status, completed, failed, continued, blocked, produce, pending, Op,
  WorkflowInfo, LocalActivityResolver, OutboundChain,
}
use temporal_cpp.Runner.Calls
use temporal_cpp.Runner.Markers
use temporal_cpp.Runner.LocalActivity
use temporal_cpp.Runner.Events.{apply_event_to_state, apply_events}
use temporal_cpp.Runner.Markers.{
  Converter, Outcome, MutableSideEffectStep, replay_change, replay_unchanged, live, ok, error,
}

-- A handler, on its arguments and the shared variables.
abbrev pub Handler : Type 0 → Type 0
Handler U = Payloads → U → U × Outcome Payloads

mutual
  pub data Body (U : Type 0) : Type 0 where
    finish : Payloads → Body U
    raise : Failure → Body U
    continue_as_new : String → Payloads → Body U
    execute_activity : String → Payloads → ActivityOptions → (ℕ → Body U) → Body U
    new_timer : ℤ → (ℕ → Body U) → Body U
    execute_child : String → Payloads → ChildWorkflowOptions → (ℕ → Body U) → Body U
    execute_nexus : String → String → String → Payload → ℤ → (ℕ → Body U) → Body U
    cancel : ℕ → Body U → Body U
    cancel_external : String → Body U → Body U
    signal_external : String → String → Payloads → Body U → Body U
    upsert : Map String Payload → Body U → Body U
    get : ℕ → (FutureState → Body U) → Body U
    is_ready : ℕ → (Bool → Body U) → Body U
    receive : String → (Payloads → Body U) → Body U
    receive_async : String → (Option Payloads → Body U) → Body U
    has_pending : String → (Bool → Body U) → Body U
    is_cancel_requested : (Bool → Body U) → Body U
    await_cancellation : (ℕ → Body U) → Body U
    side_effect : (Payload → Body U) → Body U
    get_version : String → ℤ → ℤ → (Outcome ℤ → Body U) → Body U
    local_activity : String → Payloads → Option RetryPolicy → (Outcome Payloads → Body U) → Body U
    write : (U → U) → Body U → Body U
    read : (U → Body U) → Body U
    set_update_handler : String → Handler U → Body U → Body U
    select : Cases U → Body U

  -- The cases of a Selector, in the order of AddFuture and AddReceive, with its default at the end.
  pub data Cases (U : Type 0) : Type 0 where
    no_default : Cases U
    default_case : Body U → Cases U
    on_future : ℕ → (FutureState → Body U) → Cases U → Cases U
    on_receive : String → (Payloads → Body U) → Cases U → Cases U

pub record Execution (U : Type 0) : Type 0 where
  pub runner : Runner
  pub user : U
  pub update_handlers : Map String (Handler U)
  pub rest : Body U

-- The terminal part of RunBody: the status, and the terminal command.
unfoldable pub finished : Status → Kind → Runner → Runner
finished status kind r = produce kind "" "" (record r { status = status })

-- `commands_.clear(); produced_commands_.clear();`
abbrev pub clear : Runner → Runner
clear r = record r { commands = []; produced_commands = [] }

-- The constructor of WorkflowRunner.
unfoldable pub construct :
    Converter
    → WorkflowInfo
    → Bool
    → Prescan
    → Option LocalActivityResolver
    → Option OutboundChain
    → Runner
construct c info is_replaying scan resolver chain = record {
  info = record info { headers = scan.headers };
  is_replaying = is_replaying;
  scan = scan;
  futures = λ h. pending Op.none "";
  next_future = 0;
  signal_cursor = empty;
  activity_futures = empty;
  timer_futures = empty;
  child_futures = empty;
  nexus_futures = empty;
  cancel_futures = [];
  commands = [];
  produced_commands = [];
  status = blocked;
  result = [];
  failure = record { message = ""; failure_type = "" };
  continue_as_new = ("", []);
  activity_seq = 0;
  timer_seq = 0;
  child_seq = 0;
  nexus_seq = 0;
  side_effect_seq = 0;
  ext_signal_seq = 0;
  upsert_seq = 0;
  change_versions = Markers.recorded_versions c scan.version_markers empty;
  mse_recorded = Markers.recorded_changes c scan.mutable_side_effect_markers empty;
  mse_call_count = empty;
  mse_cursor = empty;
  mse_current = empty;
  local_activity_seq = 0;
  local_activity_resolver = resolver;
  outbound_chain = chain;
}

module _ (c : Converter) (fresh : ℕ → Payload) {U : Type 0} where
  -- Runs the body until it parks or ends. `fresh n` is what the function of the n-th SideEffect
  -- call returns if this execution runs it.
  unfoldable mutual
    unfolding finished

    pub resume : Body U → Runner → U → Map String (Handler U) → Execution U
    resume (finish result) r u hs = record {
      runner = finished completed Kind.complete_workflow (record r { result = result });
      user = u;
      update_handlers = hs;
      rest = finish result;
    }
    resume (raise failure) r u hs = record {
      runner = finished failed Kind.fail_workflow (record r { failure = failure });
      user = u;
      update_handlers = hs;
      rest = raise failure;
    }
    resume (continue_as_new type input) r u hs = record {
      runner =
          finished continued Kind.continue_as_new (record r { continue_as_new = (type, input) });
      user = u;
      update_handlers = hs;
      rest = continue_as_new type input;
    }
    resume (execute_activity type input options k) r u hs =
        let (h, r₁) = Calls.schedule_activity type input options r in resume (k h) r₁ u hs
    resume (new_timer duration k) r u hs =
        let (h, r₁) = Calls.start_timer duration r in resume (k h) r₁ u hs
    resume (execute_child type input options k) r u hs =
        let (h, r₁) = Calls.start_child_workflow type input options r in resume (k h) r₁ u hs
    resume (execute_nexus endpoint service operation input timeout k) r u hs =
        let (h, r₁) = Calls.schedule_nexus_operation endpoint service operation input timeout r in
        resume (k h) r₁ u hs
    resume (cancel h k) r u hs = resume k (Calls.cancel h r) u hs
    resume (cancel_external id k) r u hs = resume k (Calls.cancel_external_workflow id r) u hs
    resume (signal_external id name input k) r u hs =
        resume k (Calls.signal_external_workflow id name input r) u hs
    resume (upsert attributes k) r u hs =
        resume k (Calls.upsert_search_attributes attributes r) u hs
    resume (get h k) r u hs = elim (r.futures h).ready [
      | true ↦ resume (k (r.futures h)) r u hs
      | false ↦ record { runner = r; user = u; update_handlers = hs; rest = get h k }
    ]
    resume (is_ready h k) r u hs = resume (k (r.futures h).ready) r u hs
    resume (receive name k) r u hs =
        let (taken, r₁) = Calls.try_consume_signal name r in
        elim taken [
          | some args ↦ resume (k args) r₁ u hs
          | none ↦ record { runner = r₁; user = u; update_handlers = hs; rest = receive name k }
        ]
    resume (receive_async name k) r u hs =
        let (taken, r₁) = Calls.try_consume_signal name r in resume (k taken) r₁ u hs
    resume (has_pending name k) r u hs = resume (k (Calls.has_signal name r)) r u hs
    resume (is_cancel_requested k) r u hs = resume (k r.scan.cancel_requested) r u hs
    resume (await_cancellation k) r u hs =
        let (h, r₁) = Calls.await_cancellation r in resume (k h) r₁ u hs
    resume (side_effect k) r u hs =
        let (v, r₁) = Markers.side_effect c (fresh r.side_effect_seq) r in resume (k v) r₁ u hs
    resume (get_version id lo hi k) r u hs =
        let (v, r₁) = Markers.get_version c id lo hi r in resume (k v) r₁ u hs
    resume (local_activity type input policy k) r u hs =
        let (v, r₁) = LocalActivity.execute_local_activity c type input policy r in
        resume (k v) r₁ u hs
    resume (write f k) r u hs = resume k r (f u) hs
    resume (read k) r u hs = resume (k u) r u hs
    resume (set_update_handler name handler k) r u hs = resume k r u (insert name handler hs)
    resume (select cases) r u hs = resume_cases cases cases r u hs

    -- Select: the first case that is ready, the default, or a wait from which all the cases are
    -- looked at again.
    pub resume_cases : Cases U → Cases U → Runner → U → Map String (Handler U) → Execution U
    resume_cases no_default cases r u hs = record {
      runner = r;
      user = u;
      update_handlers = hs;
      rest = select cases;
    }
    resume_cases (default_case k) cases r u hs = resume k r u hs
    resume_cases (on_future h k rest) cases r u hs =
        let chosen = resume (k (r.futures h)) r u hs in
        let others = resume_cases rest cases r u hs in
        elim (r.futures h).ready [ true ↦ chosen | false ↦ others ]
    resume_cases (on_receive name k rest) cases r u hs =
        let (taken, r₁) = Calls.try_consume_signal name r in
        let chosen = elim taken as (λ t. Execution U) [
          | some args ↦ resume (k args) r₁ u hs
          | none ↦ record { runner = r₁; user = u; update_handlers = hs; rest = receive name k }
        ] in
        let others = resume_cases rest cases r u hs in
        elim (Calls.has_signal name r) [ true ↦ chosen | false ↦ others ]

  abbrev pub is_done : Execution U → Bool
  is_done x = elim x.runner.status [ blocked ↦ false | _ ↦ true ]

  -- Coroutine::Resume: a coroutine that is done is left alone.
  unfoldable pub resume_coroutine : Execution U → Execution U
  unfolding resume
  resume_coroutine x = if is_done x then x else resume x.rest x.runner x.user x.update_handlers

  -- One step of the deferred timeline.
  unfoldable pub reapply : ReplayStep → Execution U → Execution U
  reapply (deferred ev) x = record x { runner = apply_event_to_state ev x.runner }
  reapply (update name args) x = elim (x.update_handlers name) [
    | none ↦ x
    | some handler ↦ record x { user = (handler args x.user).0 }
  ]

  unfoldable pub reapply_historical_updates : List ReplayStep → Execution U → Execution U
  unfolding reapply resume_coroutine
  reapply_historical_updates [] x = x
  reapply_historical_updates (step ∷ steps) x =
      let rest = reapply_historical_updates steps (resume_coroutine (reapply step x)) in
      if is_done x then x else rest

  unfoldable pub run : Execution U → Execution U
  unfolding resume_coroutine reapply_historical_updates
  run x =
      let x₁ = resume_coroutine (record x { runner = clear x.runner }) in
      reapply_historical_updates x₁.runner.scan.post_update_timeline x₁

  unfoldable pub apply_and_resume : List Event → Execution U → Execution U
  unfolding resume_coroutine
  apply_and_resume events x =
      resume_coroutine (record x { runner = apply_events events (clear x.runner) })
