-- ===== src/Tasks/Offline/AutoIds.antt =====
-- A child workflow without an id of its own (StartChildWorkflow of
-- src/internal/workflow_task_handler.cpp derives one from the id of the parent), replayed by Handle
-- and by ReplayHistory.
use temporal_cpp.Prelude.{
  ℕ, ◌≡◌, refl, ap, ◌∙◌, String, true, false, Option, none, some, List, [], ◌∷◌, ◌==◌, ◌++◌,
  or_else, Bool, string_key, empty, beq_refl, Bool-cases, inl, inr, to_string, arith,
}
use Prim.Native.String.{◌++◌ as append}
use temporal_cpp.Determinism.{
  match_replay_commands, mismatch, command_matches_event, Kind, CommandEvent,
}
use temporal_cpp.History.{
  Payload, Payloads, Event, Prescan, no_child, workflow_started, other, child_initiated,
}
use temporal_cpp.History.Scan.{scan_history}
use temporal_cpp.Proto.{ChildWorkflowOptions}
use temporal_cpp.Runner.{
  WorkflowInfo, LocalActivityResolver, OutboundChain, Runner, FutureState, blocked,
}
use temporal_cpp.Runner.Markers.{Converter}
use temporal_cpp.Runner.Calls.{start_child_workflow}
use temporal_cpp.Runner.Emit.{emit_start_child_workflow}
use temporal_cpp.Workflow
use temporal_cpp.Workflow.Waits.{get-eq}
use temporal_cpp.Workflow.{
  Body, Execution, construct, run, resume, resume_coroutine, reapply_historical_updates,
}

abbrev pub auto_id : String → String
auto_id workflow_id = append workflow_id (append "_c" (to_string 0))

-- Starts a child without an id, and waits for its result.
abbrev pub parent : {U : Type 0} → String → Payloads → ChildWorkflowOptions → Body U
parent type input options =
    Workflow.execute_child type input (record options { id = "" })
      λ h. Workflow.get h λ s. Workflow.finish s.result

-- The history of the parent's first task, for the workflow id of the parent.
abbrev pub parent_history : String → String → String → List Event
parent_history type child_type workflow_id =
    record { event_id = 1; attributes = workflow_started type [] empty }
    ∷ record { event_id = 2; attributes = other }
    ∷ record { event_id = 3; attributes = other }
    ∷ record { event_id = 4; attributes = other }
    ∷ record { event_id = 5; attributes = child_initiated (auto_id workflow_id) child_type }
    ∷ []

-- The start of a child, as the non-determinism check sees it.
abbrev pub child : String → String → CommandEvent
child type id = record { kind = Kind.child_workflow; id = id; name = type }

-- What the call leaves when the scan holds no outcome of the child yet.
record Started (id type : String) (b : Bool) (r : Runner) (result : ℕ × Runner) : Type 0 where
  produced : result.1.produced_commands ≡ r.produced_commands ++ child type id ∷ []
  silent : b ≡ true → result.1.commands ≡ r.commands
  waits : (result.1.futures result.0).ready ≡ false
  same : result.1.scan ≡ r.scan
  status : result.1.status ≡ r.status

child_id : Runner → String
child_id r = append r.info.workflow_id (append "_c" (to_string r.child_seq))

start_child_workflow-Started :
    (type : String) (input : Payloads) (options : ChildWorkflowOptions) (r : Runner) (b : Bool)
    → or_else no_child (r.scan.children (child_id r)) ≡ record no_child { initiated = b }
    → Started (child_id r) type b r (start_child_workflow type input (record options { id = "" }) r)
unfolding start_child_workflow child_id emit_start_child_workflow
start_child_workflow-Started type input options r true e = rw e (record {
  produced = refl;
  silent = λ h. refl;
  waits = ground arith;
  same = refl;
  status = refl;
})
start_child_workflow-Started type input options r false e = rw e (record {
  produced = refl;
  silent = λ h. ground arith;
  waits = ground arith;
  same = refl;
  status = refl;
})

module _ (type child_type w : String) where
  child_scan : Prescan
  child_scan = scan_history (parent_history type child_type w)

  child_scan-children :
      (i : String)
      → or_else no_child (child_scan.children i) ≡ record no_child { initiated = i == auto_id w }
  unfolding child_scan scan_history
  child_scan-children i = elim (Bool-cases (i == auto_id w)) [
    | inl e ↦ rw e refl
    | inr e ↦ rw e refl
  ]

  child_scan-commands : child_scan.commands ≡ child child_type (auto_id w) ∷ []
  unfolding child_scan scan_history
  child_scan-commands = refl

  child_scan-no_timeline : child_scan.post_update_timeline ≡ []
  unfolding child_scan scan_history
  child_scan-no_timeline = refl

module _ (c : Converter) (fresh : ℕ → Payload) {U : Type 0} (type child_type w : String)
    (input : Payloads) (options : ChildWorkflowOptions) (user : U) (info : WorkflowInfo)
    (resolver : Option LocalActivityResolver) (chain : Option OutboundChain) where
  reapply-none : (x : Execution U) → reapply_historical_updates c fresh [] x ≡ x
  unfolding reapply_historical_updates
  reapply-none x = refl

  abbrev pub first : Runner
  first = construct c info true (scan_history (parent_history type child_type w)) resolver chain

  abbrev pub ran : Execution U
  ran = run c fresh (record {
    runner = first;
    user = user;
    update_handlers = empty;
    rest = parent child_type input options;
  })

  abbrev called : ℕ × Runner
  called = start_child_workflow child_type input (record options { id = "" }) first

  called-Started :
      Started
        (auto_id info.workflow_id)
        child_type
        (auto_id info.workflow_id == auto_id w)
        first
        called
  unfolding construct child_id child_scan
  called-Started =
      start_child_workflow-Started child_type input options first
        (auto_id info.workflow_id == auto_id w)
        (child_scan-children type child_type w (auto_id info.workflow_id))

  run-get :
      (r : ℕ × Runner) (k : FutureState → Body U)
      → (r.1.futures r.0).ready ≡ false
      → resume c fresh (Workflow.get r.0 k) r.1 user empty
        ≡ record { runner = r.1; user = user; update_handlers = empty; rest = Workflow.get r.0 k }
  run-get r k e = get-eq c fresh r.0 k r.1 user empty false e

  abbrev parked : Execution U
  parked = record {
    runner = called.1;
    user = user;
    update_handlers = empty;
    rest = Workflow.get called.0 λ s. Workflow.finish s.result;
  }

  ran-parked : ran ≡ parked
  unfolding run resume resume_coroutine construct child_scan
  ran-parked =
      let d = called-Started in
      let quiet : called.1.scan.post_update_timeline ≡ [] =
        ap (λ ps. ps.post_update_timeline) d.same ∙ child_scan-no_timeline type child_type w in
      ap (λ x. reapply_historical_updates c fresh x.runner.scan.post_update_timeline x)
        (run-get called (λ s. Workflow.finish s.result) d.waits)
      ∙ ap (λ steps. reapply_historical_updates c fresh steps parked) quiet
      ∙ reapply-none parked

  -- The runner after the replay: what it produced, what it sends, what was recorded.
  pub record Ran : Type 0 where
    pub produced : ran.runner.produced_commands ≡ child child_type (auto_id info.workflow_id) ∷ []
    pub silent : (auto_id info.workflow_id == auto_id w) ≡ true → ran.runner.commands ≡ []
    pub recorded : ran.runner.scan.commands ≡ child child_type (auto_id w) ∷ []
    pub status : ran.runner.status ≡ blocked

  pub ran-Ran : Ran
  unfolding construct child_scan
  ran-Ran =
      let d = called-Started in
      record {
        produced = ap (λ x. x.runner.produced_commands) ran-parked ∙ d.produced;
        silent = λ h. ap (λ x. x.runner.commands) ran-parked ∙ d.silent h;
        recorded =
            ap (λ x. x.runner.scan.commands) ran-parked
            ∙ ap (λ ps. ps.commands) d.same
            ∙ child_scan-commands type child_type w;
        status = ap (λ x. x.runner.status) ran-parked ∙ d.status;
      }

module _ (a b name : String) where
  pub match-same :
      (a == b) ≡ true → match_replay_commands (child name a ∷ []) (child name b ∷ []) ≡ none
  unfolding match_replay_commands command_matches_event
  match-same e = rw (e, beq_refl name)

  pub match-different :
      (a == b) ≡ false
      → match_replay_commands (child name a ∷ []) (child name b ∷ [])
        ≡ some (mismatch 0 (child name b) (child name a))
  unfolding match_replay_commands command_matches_event
  match-different e = rw e
