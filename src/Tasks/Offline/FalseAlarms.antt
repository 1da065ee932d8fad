-- ===== src/Tasks/Offline/FalseAlarms.antt =====
-- ReplayHistory beside Handle (src/internal/workflow_task_handler.cpp) on one and the same history.
use temporal_cpp.Prelude.{
  ℕ, ◌≡◌, ap, ◌∙◌, String, true, false, Option, none, some, List, [], ◌∷◌, ◌++◌, ltb, ◌==◌,
  string_key, beq_refl, suc, Bool,
}
use temporal_cpp.Determinism.{match_replay_commands, mismatch}
use temporal_cpp.History.{Payload, Payloads, Event}
use temporal_cpp.Proto.{ChildWorkflowOptions}
use temporal_cpp.Cache.{put}
use temporal_cpp.Runner.{Runner, blocked}
use temporal_cpp.Runner.Markers.{Converter}
use temporal_cpp.Workflow.{Body, Execution}
use temporal_cpp.Tasks.Messages.{UserHandlers}
use temporal_cpp.Tasks.Restarted.{handle-on_replay, complete-quiet}
use temporal_cpp.Tasks.Offline.AutoIds.{
  auto_id, parent, parent_history, child, match-same, match-different, ran, Ran, ran-Ran,
}
use temporal_cpp.Tasks.Offline.{
  exception_of, checked, replay_history, replay_workflow_history, replay_info, started_type,
}
use temporal_cpp.Tasks.{
  Task, TaskHandler, Response, task_completed, handle, on_replay, after_check, rebuilt,
  is_full_history, terminal,
}

module _ (c : Converter) (fresh : ℕ → Payload) {U : Type 0} (handlers : UserHandlers U) (t : Task)
    (th : TaskHandler U) (child_type : String) (input : Payloads) (options : ChildWorkflowOptions)
    (user : U) where
  abbrev own_history : List Event
  own_history = parent_history t.info.workflow_type child_type t.info.workflow_id

  abbrev rebuilt_parent : Execution U
  rebuilt_parent =
      ran c fresh t.info.workflow_type child_type t.info.workflow_id input options user t.info
        th.resolver th.chain

  rebuilt_parent-Ran :
      Ran c fresh t.info.workflow_type child_type t.info.workflow_id input options user t.info
        th.resolver th.chain
  rebuilt_parent-Ran =
      ran-Ran c fresh t.info.workflow_type child_type t.info.workflow_id input options user t.info
        th.resolver th.chain

  terminal-blocked : (r : Runner) → r.status ≡ blocked → terminal r ≡ []
  terminal-blocked r e = rw e

  on_replay-parent :
      t.messages ≡ []
      → t.queries ≡ []
      → ltb 0 t.previous_started_event_id ≡ true
      → t.events ≡ own_history
      → (on_replay c fresh handlers t
          (parent child_type input options, user)
          (record th { replays = suc th.replays })).0
        ≡ task_completed [] [] []
  unfolding on_replay after_check
  on_replay-parent m q l e =
      let x = rebuilt_parent in
      let o = rebuilt_parent-Ran in
      let own = auto_id t.info.workflow_id in
      let th₁ : TaskHandler U = record th { replays = suc th.replays } in
      let th₂ : TaskHandler U = record th₁ { cache = put t.info.run_id x th.cache } in
      let check : Bool → List Event → Response = λ b events.
        let y =
          rebuilt c fresh handlers t b (parent child_type input options, user) events th.resolver
            th.chain in
        (after_check c fresh handlers t y
          (match_replay_commands y.runner.produced_commands y.runner.scan.commands) th₁).0 in
      let passed : match_replay_commands x.runner.produced_commands x.runner.scan.commands ≡ none =
        ap (λ p. match_replay_commands p x.runner.scan.commands) o.produced
        ∙ ap (match_replay_commands (child child_type own ∷ [])) o.recorded
        ∙ match-same own own child_type (beq_refl own) in
      let nothing : x.runner.commands ++ terminal x.runner ≡ [] =
        ap (λ s. s ++ terminal x.runner) (o.silent (beq_refl own))
        ∙ terminal-blocked x.runner o.status in
      ap (λ b. check b t.events) l
      ∙ ap (check true) e
      ∙ ap (λ verdict. (after_check c fresh handlers t x verdict th₁).0) passed
      ∙ complete-quiet c fresh handlers t x th₂ m q
      ∙ ap (λ sent. task_completed sent [] []) nothing

module _ (c : Converter) (fresh : ℕ → Payload) (task_queue ns : String) {U : Type 0}
    (th : TaskHandler U) (type child_type w : String) (input : Payloads)
    (options : ChildWorkflowOptions) (user : U) where
  replay_history-diverges :
      th.workflows type ≡ some (parent child_type input options, user)
      → (type == "") ≡ false
      → (auto_id "replay" == auto_id w) ≡ false
      → replay_history c fresh task_queue ns (parent_history type child_type w) th
        ≡ checked
            (some (mismatch 0 (child child_type (auto_id w)) (child child_type (auto_id "replay"))))
  unfolding replay_history started_type
  replay_history-diverges registered named other_id =
      let x =
        ran c fresh type child_type w input options user (replay_info task_queue ns type)
          th.resolver th.chain in
      let o =
        ran-Ran c fresh type child_type w input options user (replay_info task_queue ns type)
          th.resolver th.chain in
      let diverged =
        ap (λ p. match_replay_commands p x.runner.scan.commands) o.produced
        ∙ ap (match_replay_commands (child child_type (auto_id "replay") ∷ [])) o.recorded
        ∙ match-different (auto_id "replay") (auto_id w) child_type other_id in
      rw (named, registered) (ap checked diverged)

module _ (c : Converter) (fresh : ℕ → Payload) (task_queue ns : String) {U : Type 0}
    (handlers : UserHandlers U) (fetched : Option (List Event)) (t : Task) (th : TaskHandler U)
    (child_type : String) (input : Payloads) (options : ChildWorkflowOptions) (user : U) where
  -- A workflow starts a child without an id, which gets its id from the workflow id of the parent,
  -- and waits for it. On the history of the parent's first task, Handle finds no non-determinism and
  -- sends nothing, while ReplayWorkflowHistory throws a NonDeterministicError for the same history
  -- and the same code, since it replays under the workflow id "replay": always, unless the two
  -- derived ids happen to be equal.
  pub replay_history-auto_id :
      th.workflows t.info.workflow_type ≡ some (parent child_type input options, user)
      → (t.info.workflow_type == "") ≡ false
      → (auto_id "replay" == auto_id t.info.workflow_id) ≡ false
      → t.query ≡ none
      → t.messages ≡ []
      → t.queries ≡ []
      → ltb 0 t.previous_started_event_id ≡ true
      → t.events ≡ parent_history t.info.workflow_type child_type t.info.workflow_id
      → ((handle c fresh handlers fetched t th).0 ≡ task_completed [] [] [])
        × (replay_workflow_history c fresh task_queue ns t.events th
            ≡ some (record {
              message =
                  mismatch 0
                    (child child_type (auto_id t.info.workflow_id))
                    (child child_type (auto_id "replay"));
              error_type = "NonDeterministicError";
            }))
  unfolding replay_workflow_history exception_of
  replay_history-auto_id registered named other_id q m qs l e =
      let wf : Body U × U = (parent child_type input options, user) in
      (
        ap (λ p. p.0)
              (handle-on_replay c fresh handlers fetched t th wf registered q
                (ap is_full_history e))
            ∙ on_replay-parent c fresh handlers t th child_type input options user m qs l e,
        ap (λ events. replay_workflow_history c fresh task_queue ns events th) e
            ∙ ap exception_of (
                replay_history-diverges c fresh task_queue ns th t.info.workflow_type child_type
                  t.info.workflow_id input options user registered named other_id),
      )
