-- ===== src/Workflow/Deterministic.antt =====
-- A workflow whose body is supported, from its first workflow task to a replay of the history that
-- a server records of it.
use temporal_cpp.Prelude.{
  ℕ, ◌≡◌, refl, sym, ap, ◌∙◌, String, Bool, true, false, Option, none, List, [], ◌++◌, map, Map,
}
use mathlib.Core.Path.{subst}
use temporal_cpp.Determinism.{match_replay_commands}
use temporal_cpp.Determinism.Matching.{Reproduces-append, match_replay_commands-iff-Reproduces}
use temporal_cpp.History.{Payload, Event, Prescan, no_scan}
use temporal_cpp.History.Scan.{scan_history}
use temporal_cpp.Runner.{Runner, Command, WorkflowInfo, LocalActivityResolver, OutboundChain}
use temporal_cpp.Runner.Markers.{Converter}
use temporal_cpp.Workflow.{
  Body, Execution, Handler, construct, resume, resume_coroutine, run, reapply_historical_updates,
}
use temporal_cpp.Workflow.Supported.{Supported, Records, recorded_from, event_of, AllPlain}
use temporal_cpp.Workflow.Live.{IsFirst, replayed, replayed_execution, Runs}
use temporal_cpp.Workflow.Replay.{resume-Runs}
use temporal_cpp.Workflow.Opening.{
  AllOpening, IsClean, no_scan-IsClean, Opened, scan_from-Opened, clean-Scanned,
  scan_history-Scanned, Scanned-Records,
}
use temporal_cpp.Workflow.Recorded.{Scanned}

module _ (c : Converter) (info : WorkflowInfo) (resolver : Option LocalActivityResolver)
    (chain : Option OutboundChain) where
  construct-IsFirst :
      (ps₀ ps : Prescan) (cs : List Command)
      → IsClean ps₀
      → Scanned ps₀ ps cs
      → IsFirst ps (construct c info false ps₀ resolver chain)
  unfolding construct
  construct-IsFirst ps₀ ps cs h s = record {
    blank = h.blank;
    produced = refl;
    signal_count = refl;
    upsert_count = refl;
    value_count = refl;
    same_signals = sym s.same_signals;
    same_cancel = sym s.same_cancel;
    no_timeline = h.no_timeline;
  }

  construct-replayed :
      (ps₀ ps : Prescan) (cs : List Command)
      → IsClean ps₀
      → Scanned ps₀ ps cs
      → construct c info true ps resolver chain
        ≡ replayed ps (construct c info false ps₀ resolver chain)
  unfolding construct
  construct-replayed ps₀ ps cs h s =
      rw (s.same_headers, s.no_versions, s.no_changes, h.no_versions, h.no_changes)

  module _ {U : Type 0} (body : Body U) (user : U) (handlers : Map String (Handler U))
      (opening : List Event) (fresh : ℕ → Payload) where
    abbrev pub start : Bool → List Event → Execution U
    start is_replaying events = record {
      runner = construct c info is_replaying (scan_history events) resolver chain;
      user = user;
      update_handlers = handlers;
      rest = body;
    }

    -- The first workflow task.
    abbrev pub first_task : Execution U
    first_task = run c fresh (start false opening)

    -- What the server has recorded afterwards, its event ids counted from `i` on.
    abbrev pub history : ℕ → List Event
    history i = opening ++ recorded_from i first_task.runner.commands

    -- A replay of that history, where side effects would return other values.
    abbrev pub replay : (ℕ → Payload) → ℕ → Execution U
    replay fresh' i = run c fresh' (start true (history i))

    no_steps :
        (f : ℕ → Payload) (x : Execution U)
        → x.runner.scan.post_update_timeline ≡ []
        → reapply_historical_updates c f x.runner.scan.post_update_timeline x ≡ x
    unfolding reapply_historical_updates
    no_steps f x e = rw e

    abbrev resumed : (ℕ → Payload) → Runner → Execution U
    resumed f r = resume c f body r user handlers

    run-resumed :
        (f : ℕ → Payload) (b : Bool) (events : List Event)
        → (resumed f (
            construct c info b
              (scan_history events)
              resolver
              chain)).runner.scan.post_update_timeline
          ≡ []
        → run c f (start b events)
          ≡ resumed f (construct c info b (scan_history events) resolver chain)
    unfolding run resume_coroutine construct
    run-resumed f b events e = no_steps f _ e

    live : Runner
    live = construct c info false (scan_history opening) resolver chain

    live-Runs :
        (fresh' : ℕ → Payload) (ps : Prescan) (cs : List Command)
        → AllOpening opening
        → Supported body
        → Scanned (scan_history opening) ps cs
        → Runs ps (resumed fresh) (resumed fresh') live
    unfolding live Opened scan_history
    live-Runs fresh' ps cs o b s = resume-Runs ps c fresh fresh' body live user handlers b (
        construct-IsFirst (scan_history opening) ps cs
          (scan_from-Opened opening (no_scan, false) o (no_scan-IsClean, refl)).0 s)

    opening-Scanned : AllOpening opening → Scanned (scan_history opening) (scan_history opening) []
    unfolding Opened scan_history
    opening-Scanned o =
        clean-Scanned _ (scan_from-Opened opening (no_scan, false) o (no_scan-IsClean, refl)).0

    live-replayed :
        (ps : Prescan) (cs : List Command)
        → AllOpening opening
        → Scanned (scan_history opening) ps cs
        → construct c info true ps resolver chain ≡ replayed ps live
    unfolding live Opened scan_history
    live-replayed ps cs o s =
        construct-replayed (scan_history opening) ps cs
          (scan_from-Opened opening (no_scan, false) o (no_scan-IsClean, refl)).0 s

    -- Take a body made of activities, timers, child workflows, signals, search attributes, side
    -- effects, futures, selectors and shared variables, in any number and order, and a history that
    -- holds only the start, signals, cancellation requests and task events before the commands of
    -- the first workflow task. Replayed on that history with all the commands of the task recorded
    -- behind it, the workflow sends nothing, reaches the state of that task (its point of
    -- suspension or its end, its futures, variables, handlers and counters), even when the
    -- functions of its side effects would now return something else, and passes the non-determinism
    -- check.
    pub replay-reproduces :
        (fresh' : ℕ → Payload) (i : ℕ)
        → AllOpening opening
        → Supported body
        → (replay fresh' i ≡ replayed_execution (scan_history (history i)) first_task)
          × (match_replay_commands
                (replay fresh' i).runner.produced_commands
                (scan_history (history i)).commands
              ≡ none)
    unfolding live construct
    replay-reproduces fresh' i o b =
        let first = live-Runs fresh (scan_history opening) [] o b (opening-Scanned o) in
        let e : first_task ≡ resumed fresh live =
          run-resumed fresh false opening first.no_timeline in
        let plain : AllPlain first_task.runner.commands =
          subst (λ x. AllPlain x.runner.commands) (sym e)
            (subst AllPlain (sym first.sent) first.plain) in
        let ps = scan_history (history i) in
        let s : Scanned (scan_history opening) ps first_task.runner.commands =
          scan_history-Scanned opening i _ o plain in
        let runs = live-Runs fresh' ps first_task.runner.commands o b s in
        let records : Records ps (resumed fresh live).runner.commands =
          subst (λ x. Records ps x.runner.commands) e (Scanned-Records s) in
        let at_end : resumed fresh' (construct c info true ps resolver chain)
            ≡ replayed_execution ps first_task =
          ap (resumed fresh') (live-replayed ps first_task.runner.commands o s)
          ∙ runs.replays records
          ∙ ap (replayed_execution ps) (sym e) in
        let reached : replay fresh' i ≡ replayed_execution ps first_task =
          run-resumed fresh' true (history i)
            (ap (λ x. x.runner.scan.post_update_timeline) at_end ∙ s.no_timeline)
          ∙ at_end in
        let produced : (replay fresh' i).runner.produced_commands
            ≡ map event_of first_task.runner.commands ++ first.tail =
          ap (λ x. x.runner.produced_commands) reached
          ∙ ap (λ x. x.runner.produced_commands) e
          ∙ first.produces
          ∙ ap (λ x. map event_of x.runner.commands ++ first.tail) (sym e) in
        (
          reached,
          ap (λ l. match_replay_commands l ps.commands) produced
              ∙ ap (match_replay_commands _) s.commands
              ∙ (match_replay_commands-iff-Reproduces _ _).1
                  (Reproduces-append (map event_of first_task.runner.commands) first.tail),
        )
