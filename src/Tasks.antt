-- ===== src/Tasks.antt =====
-- WorkflowTaskHandler::Handle (src/internal/workflow_task_handler.cpp): which runner serves a task,
-- what is answered, and what stays in the sticky cache. The deadlock timeout does not pass, as every
-- body of the model parks or ends. Child modules put the pages of a history together and answer
-- the update messages.
pub mod Messages
pub mod Paging
pub mod Parks
pub mod Reapplied
pub mod Cached
pub mod Queries
pub mod Restarted
pub mod Kept
pub mod Offline
use temporal_cpp.Prelude.{
  ℕ, suc, ◌<◌, String, Bool, true, false, Option, none, some, List, [], ◌∷◌, ◌++◌, Map, empty, map,
  ◌==◌, ◌||◌, ltb, if◌then◌else◌, string_key, number_key,
}
use temporal_cpp.Determinism.{match_replay_commands}
use temporal_cpp.History.{Payload, Payloads, Event, Attributes, workflow_started}
use temporal_cpp.History.Scan.{scan_history}
use temporal_cpp.Cache.{LruCache, get, put, erase}
use temporal_cpp.Runner.{
  Runner, WorkflowInfo, LocalActivityResolver, OutboundChain, Command, Status, completed, failed,
  continued, blocked,
}
use temporal_cpp.Runner.Markers.{Converter}
use temporal_cpp.Tasks.Messages.{UpdateMessage, Message, UserHandlers, process_messages}
use temporal_cpp.Workflow.{Body, Execution, construct, run, apply_and_resume, is_done}

pub record Task : Type 0 where
  pub info : WorkflowInfo
  pub events : List Event
  pub previous_started_event_id : ℕ
  pub query : Option (String × Payloads)
  pub messages : List UpdateMessage
  pub queries : List (String × (String × Payloads))

-- The result of a query, without the message of a failure.
pub data QueryResult : Type 0 where
  query_answered : Payloads → QueryResult
  query_failed : QueryResult

-- What the server is told of a task.
pub data Response : Type 0 where
  not_registered reset_sticky_queue : Response
  nondeterministic : Bool → String → Response
  query_completed : QueryResult → Response
  task_completed : List Command → List Message → List (String × QueryResult) → Response

pub record TaskHandler (U : Type 0) : Type 0 where
  pub cache : LruCache String (Execution U)
  pub cache_hits : ℕ
  pub replays : ℕ
  pub fail_workflow : Bool
  pub workflows : Map String (Body U × U)
  pub resolver : Option LocalActivityResolver
  pub chain : Option OutboundChain

abbrev is_started : Attributes → Bool
is_started (workflow_started type input headers) = true
is_started _ = false

abbrev pub is_full_history : List Event → Bool
is_full_history [] = false
is_full_history (ev ∷ evs) = is_started ev.attributes

abbrev pub first_event_id : List Event → ℕ
first_event_id [] = 0
first_event_id (ev ∷ evs) = ev.event_id

abbrev pub is_query : Task → Bool
is_query t = elim t.query [ none ↦ false | some q ↦ true ]

abbrev pub terminal : Runner → List Command
terminal r = elim r.status [
  | completed ↦ Command.complete_workflow r.result ∷ []
  | failed ↦ Command.fail_workflow r.failure ∷ []
  | continued ↦ Command.continue_as_new r.continue_as_new.0 r.continue_as_new.1 ∷ []
  | blocked ↦ []
]

module _ {U : Type 0} where
  -- The runner in the cache is shared: what changes it changes the entry.
  abbrev pub store :
      String → Execution U → LruCache String (Execution U) → LruCache String (Execution U)
  store k x c = record c { order = map (λ p. if p.0 == k then (p.0, x) else p) c.order }

  -- Whether a cached runner serves the task: a query, or events right behind those it has seen.
  abbrev pub serves : Task → Execution U → Bool
  serves t x = is_query t || first_event_id t.events == suc x.runner.scan.last_event_id

  -- The lookup of the sticky cache.
  unfoldable pub cached :
      Task → LruCache String (Execution U) → Option (Execution U) × LruCache String (Execution U)
  cached t c =
      let (found, c₁) = get t.info.run_id c in
      if is_full_history t.events then (none, c) else elim found [
        | none ↦ (none, c₁)
        | some x ↦ if serves t x then (some x, c₁) else (none, c₁)
      ]

module _ (c : Converter) (fresh : ℕ → Payload) {U : Type 0} (handlers : UserHandlers U) where
  -- The answer to a query; a runner that could not be rebuilt, or is done, gives none.
  unfoldable pub query_response : Option (Execution U) → String × Payloads → QueryResult
  query_response none q = query_failed
  query_response (some x) q =
      let result = handlers.answer x q.0 q.1 in
      if is_done c fresh x
      then query_failed
      else elim result [ none ↦ query_failed | some payloads ↦ query_answered payloads ]

  -- What is left of the answer to a workflow task once the updates ran: the terminal command, and
  -- the answers to the queries that came with the task. A run that is done leaves the cache.
  unfoldable pub respond :
      Task → List Message → Execution U → TaskHandler U → Response × TaskHandler U
  unfolding query_response
  respond t sent x th =
      let answers = map (λ q. (q.0, query_response (some x) q.1)) t.queries in
      (
        task_completed (x.runner.commands ++ terminal x.runner) sent answers,
        if is_done c fresh x then record th { cache = erase t.info.run_id th.cache } else th,
      )

  -- The answer to a workflow task. The updates change the runner that the cache shares.
  unfoldable pub complete : Task → Execution U → TaskHandler U → Response × TaskHandler U
  unfolding respond
  complete t x th =
      let (sent, x₁) = process_messages handlers t.messages x in
      respond t sent x₁ (record th { cache = store t.info.run_id x₁ th.cache })

  unfoldable pub on_hit : Task → Execution U → TaskHandler U → Response × TaskHandler U
  unfolding query_response complete
  on_hit t x th = elim t.query [
    | some q ↦ (query_completed (query_response (some x) q), th)
    | none ↦
        let x₁ = apply_and_resume c fresh t.events x in
        complete t x₁ (record th { cache = store t.info.run_id x₁ th.cache })
  ]

  abbrev rebuilt :
      Task
      → Bool
      → Body U × U
      → List Event
      → Option LocalActivityResolver
      → Option OutboundChain
      → Execution U
  rebuilt t is_replaying wf events resolver chain = run c fresh (record {
    runner = construct c t.info is_replaying (scan_history events) resolver chain;
    user = wf.1;
    update_handlers = empty;
    rest = wf.0;
  })

  -- The verdict of the non-determinism check: a runner that fails it is not cached.
  unfoldable pub after_check :
      Task → Execution U → Option String → TaskHandler U → Response × TaskHandler U
  unfolding complete
  after_check t x (some detail) th = (nondeterministic th.fail_workflow detail, th)
  after_check t x none th = complete t x (record th { cache = put t.info.run_id x th.cache })

  -- A replay of the full history.
  unfoldable pub on_replay : Task → Body U × U → TaskHandler U → Response × TaskHandler U
  unfolding after_check
  on_replay t wf th =
      let x = rebuilt t (ltb 0 t.previous_started_event_id) wf t.events th.resolver th.chain in
      after_check t x (match_replay_commands x.runner.produced_commands x.runner.scan.commands) th

  -- No runner in the cache serves the task. `fetched` is the history that the server returns, for
  -- a query, if it does.
  unfoldable pub on_miss :
      Option (List Event) → Task → Body U × U → TaskHandler U → Response × TaskHandler U
  unfolding query_response on_replay
  on_miss fetched t wf th = elim t.query [
    | some q ↦ elim fetched [
      | none ↦ (query_completed (query_response none q), th)
      | some events ↦
          (query_completed (query_response (some (rebuilt t true wf events none none)) q), th)
    ]
    | none ↦
        if is_full_history t.events
        then on_replay t wf (record th { replays = suc th.replays })
        else (reset_sticky_queue, th)
  ]

  -- A task, with the runner that the cache has for it.
  unfoldable pub serve :
      Option (List Event)
      → Task
      → Body U × U
      → Option (Execution U)
      → TaskHandler U
      → Response × TaskHandler U
  unfolding on_hit on_miss
  serve fetched t wf (some x) th = on_hit t x (record th { cache_hits = suc th.cache_hits })
  serve fetched t wf none th = on_miss fetched t wf th

  unfoldable pub handle : Option (List Event) → Task → TaskHandler U → Response × TaskHandler U
  unfolding cached serve
  handle fetched t th = elim (th.workflows t.info.workflow_type) [
    | none ↦ (not_registered, th)
    | some wf ↦
        let (found, cache₁) = cached t th.cache in
        serve fetched t wf found (record th { cache = cache₁ })
  ]
