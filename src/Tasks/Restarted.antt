-- ===== src/Tasks/Restarted.antt =====
-- A worker that has lost its sticky cache: Handle (src/internal/workflow_task_handler.cpp) on the
-- full history of a run whose first workflow task another worker served.
use temporal_cpp.Prelude.{
  ℕ, suc, ◌≡◌, ap, ◌∙◌, Bool, true, Option, none, some, String, List, [], ◌∷◌, ◌++◌, empty, ltb,
  string_key, arith, string_key, if◌then◌else◌,
}
use temporal_cpp.Determinism.{match_replay_commands}
use temporal_cpp.History.{Payload, Event}
use temporal_cpp.History.Scan.{scan_history}
use temporal_cpp.Cache.{LruCache, get, put}
use temporal_cpp.Cache.Bounds.{IsValid}
use temporal_cpp.Runner.Markers.{Converter}
use temporal_cpp.Workflow.{Body, Execution, is_done}
use temporal_cpp.Workflow.Supported.{Supported}
use temporal_cpp.Workflow.Live.{replayed_execution}
use temporal_cpp.Workflow.Opening.{AllOpening}
use temporal_cpp.Workflow.Deterministic.{first_task, history, replay, replay-reproduces}
use temporal_cpp.Tasks.Messages.{UserHandlers, process_messages}
use temporal_cpp.Tasks.Kept.{complete-keeps}
use temporal_cpp.Tasks.{
  Task, TaskHandler, Response, not_registered, task_completed, handle, cached, serve, on_miss,
  on_replay, after_check, complete, respond, rebuilt, is_full_history, terminal,
}

is_full_history-append :
    (opening rest : List Event)
    → is_full_history opening ≡ true
    → is_full_history (opening ++ rest) ≡ true
is_full_history-append [] rest h = ground arith
is_full_history-append (ev ∷ opening) rest h = h

module _ (conv : Converter) (fresh : ℕ → Payload) {U : Type 0} (handlers : UserHandlers U)
    (t : Task) where
  pub complete-quiet :
      (x : Execution U) (th' : TaskHandler U)
      → t.messages ≡ []
      → t.queries ≡ []
      → (complete conv fresh handlers t x th').0
        ≡ task_completed (x.runner.commands ++ terminal x.runner) [] []
  unfolding complete respond process_messages
  complete-quiet x th' m q = rw (m, q)

module _ (conv : Converter) (fresh : ℕ → Payload) {U : Type 0} (handlers : UserHandlers U)
    (fetched : Option (List Event)) (t : Task) (th : TaskHandler U) (wf : Body U × U) where
  cached-full :
      (cache : LruCache String (Execution U))
      → is_full_history t.events ≡ true
      → cached t cache ≡ (none, cache)
  unfolding cached
  cached-full cache h = rw h

  on_miss-on_replay :
      (th' : TaskHandler U)
      → t.query ≡ none
      → is_full_history t.events ≡ true
      → on_miss conv fresh handlers fetched t wf th'
        ≡ on_replay conv fresh handlers t wf (record th' { replays = suc th'.replays })
  unfolding on_miss
  on_miss-on_replay th' q h = rw (q, h)

  pub handle-on_replay :
      th.workflows t.info.workflow_type ≡ some wf
      → t.query ≡ none
      → is_full_history t.events ≡ true
      → handle conv fresh handlers fetched t th
        ≡ on_replay conv fresh handlers t wf (record th { replays = suc th.replays })
  unfolding handle serve
  handle-on_replay w q h =
      ap
        (λ found. elim found as (λ v. Response × TaskHandler U) [
          | none ↦ (not_registered, th)
          | some wf' ↦
              serve conv fresh handlers fetched t wf' (cached t th.cache).0
                (record th { cache = (cached t th.cache).1 })
        ])
        w
      ∙ ap (λ p. serve conv fresh handlers fetched t wf p.0 (record th { cache = p.1 }))
          (cached-full th.cache h)
      ∙ on_miss-on_replay th q h

module _ (conv : Converter) (fresh fresh' : ℕ → Payload) {U : Type 0} (handlers : UserHandlers U)
    (t : Task) (th : TaskHandler U) (body : Body U) (user : U) (opening : List Event) where
  -- The first workflow task of the run, as another worker has served it.
  abbrev pub served : Execution U
  served = first_task conv t.info th.resolver th.chain body user empty opening fresh

  abbrev pub served_history : ℕ → List Event
  served_history i = history conv t.info th.resolver th.chain body user empty opening fresh i

  on_replay-served :
      (i : ℕ)
      → ltb 0 t.previous_started_event_id ≡ true
      → t.events ≡ served_history i
      → AllOpening opening
      → Supported body
      → on_replay conv fresh' handlers t (body, user) (record th { replays = suc th.replays })
        ≡ after_check conv fresh' handlers t
            (replayed_execution (scan_history (served_history i)) served)
            none
            (record th { replays = suc th.replays })
  unfolding on_replay
  on_replay-served i l e o s =
      let (reached, passed) =
        replay-reproduces conv t.info th.resolver th.chain body user empty opening fresh fresh' i o
          s in
      let th₁ : TaskHandler U = record th { replays = suc th.replays } in
      let check : Bool → List Event → Response × TaskHandler U = λ b events.
        let y = rebuilt conv fresh' handlers t b (body, user) events th.resolver th.chain in
        after_check conv fresh' handlers t y
          (match_replay_commands y.runner.produced_commands y.runner.scan.commands) th₁ in
      let ps = scan_history (served_history i) in
      ap (λ b. check b t.events) l
      ∙ ap (check true) e
      ∙ ap
          (λ y.
            after_check conv fresh' handlers t y
              (match_replay_commands
                (replay conv t.info th.resolver th.chain body user empty opening fresh fresh'
                  i).runner.produced_commands
                y.runner.scan.commands)
              th₁)
          reached
      ∙ ap
          (λ verdict. after_check conv fresh' handlers t (replayed_execution ps served) verdict th₁)
          passed

  -- Whatever its cache holds, a worker is given the full history of a run, from its start event to
  -- the commands of the first workflow task, by a task that is no query and brings no update and no
  -- query. If the body is made of activities, timers, child workflows, signals, search attributes,
  -- side effects, futures, selectors and shared variables and the history opens with the start,
  -- signals, cancellation requests and task events, then Handle finds no non-determinism, sends
  -- none of the commands again and answers with the terminal command that the first task gave, if
  -- it ended the run. The runner of that task, as a replay of that history, is what the cache has
  -- for the run then, unless the run is done.
  pub handle-resumes :
      (fetched : Option (List Event)) (i : ℕ)
      → th.workflows t.info.workflow_type ≡ some (body, user)
      → t.query ≡ none
      → t.messages ≡ []
      → t.queries ≡ []
      → ltb 0 t.previous_started_event_id ≡ true
      → is_full_history opening ≡ true
      → t.events ≡ served_history i
      → AllOpening opening
      → Supported body
      → IsValid th.cache
      → let resumed : Execution U = replayed_execution (scan_history (served_history i)) served in
        let result : Response × TaskHandler U = handle conv fresh' handlers fetched t th in
        (result.0 ≡ task_completed (terminal served.runner) [] [])
        × ((get t.info.run_id result.1.cache).0
            ≡ (if is_done conv fresh served then none else some resumed))
  unfolding after_check
  handle-resumes fetched i w q m qs l h e o s valid =
      let x = replayed_execution (scan_history (served_history i)) served in
      let th₂ : TaskHandler U = record th {
        replays = suc th.replays;
        cache = put t.info.run_id x th.cache;
      } in
      let full : is_full_history t.events ≡ true =
        ap is_full_history e ∙ is_full_history-append opening _ h in
      let whole =
        handle-on_replay conv fresh' handlers fetched t th (body, user) w q full
        ∙ on_replay-served i l e o s in
      (
        ap (λ p. p.0) whole ∙ complete-quiet conv fresh' handlers t x th₂ m qs,
        ap (λ p. (get t.info.run_id p.1.cache).0) whole
            ∙ complete-keeps conv fresh' handlers t x th₂ th.cache valid m,
      )
