-- ===== src/Workflow/Sends.antt =====
-- The calls of supported bodies, one by one: what the first execution sends, the replay skips.
use temporal_cpp.Prelude.{
  ◌+◌, ◌≡◌, sym, ap, ◌∙◌, String, true, false, [], ◌∷◌, ◌++◌, map, Map, arith, append-nil, length,
  length-append, to_string, ◌==◌, if◌then◌else◌, number_key, string_key, leb,
}
use mathlib.Core.List.{map-append}
use Prim.Native.String.{◌++◌ as append}
use temporal_cpp.Proto.{to_proto_duration}
use temporal_cpp.Prelude.Int.{ℤ}
use temporal_cpp.History.{Payload, Payloads, Prescan}
use temporal_cpp.Proto.{ActivityOptions, ChildWorkflowOptions}
use temporal_cpp.Runner.{Runner, Command}
use temporal_cpp.Runner.Calls.{
  augmented, schedule_activity, start_timer, start_child_workflow, signal_external_workflow,
  upsert_search_attributes,
}
use temporal_cpp.Runner.Emit.{
  queue_or, activity_command, emit_schedule_activity, emit_start_child_workflow, emit_start_timer,
  emit_signal_external_workflow, emit_upsert_search_attributes,
}
use temporal_cpp.Workflow.Supported.{
  event_of, is_signal, is_upsert, total, values, value_of, activity, timer, child, signal, upserts,
}
use temporal_cpp.Workflow.Live.{IsFirst, Sends, total-append, values-append}

module _ (ps : Prescan) (r : Runner) (v : IsFirst ps r) where
  -- The state behind a call that sends one command keeps the invariant, if its counters move on.
  pub IsFirst-send :
      (c : Command) (r₁ : Runner)
      → r₁.scan ≡ r.scan
      → r₁.commands ≡ r.commands ++ c ∷ []
      → r₁.produced_commands ≡ r.produced_commands ++ event_of c ∷ []
      → r₁.ext_signal_seq ≡ r.ext_signal_seq + is_signal c
      → r₁.upsert_seq ≡ r.upsert_seq + is_upsert c
      → r₁.side_effect_seq ≡ r.side_effect_seq + length (value_of c)
      → IsFirst ps r₁
  IsFirst-send c r₁ es ec ep e₁ e₂ e₃ = record {
    blank = rw es v.blank;
    produced =
        ep
        ∙ ap (λ l. l ++ event_of c ∷ []) v.produced
        ∙ sym (map-append event_of r.commands (c ∷ []))
        ∙ ap (map event_of) (sym ec);
    signal_count = omega (
      arith,
      ap (total is_signal) ec,
      total-append is_signal r.commands (c ∷ []),
      v.signal_count,
    );
    upsert_count = omega (
      arith,
      ap (total is_upsert) ec,
      total-append is_upsert r.commands (c ∷ []),
      v.upsert_count,
    );
    value_count = omega (
      arith,
      ap (λ l. length (values l)) ec,
      ap length (values-append r.commands (c ∷ [])),
      length-append (values r.commands) (values (c ∷ [])),
      v.value_count,
      ap length (append-nil (value_of c)),
    );
    same_signals = ap (λ s. s.signals) es ∙ v.same_signals;
    same_cancel = ap (λ s. s.cancel_requested) es ∙ v.same_cancel;
    no_timeline = ap (λ s. s.post_update_timeline) es ∙ v.no_timeline;
  }

  pub schedule_activity-Sends :
      (type : String) (input : Payloads) (options : ActivityOptions)
      → Sends ps (schedule_activity type input options) (schedule_activity type input options) r
  unfolding schedule_activity emit_schedule_activity event_of activity_command
  schedule_activity-Sends type input options =
      let id = to_string r.activity_seq in
      let none_yet = v.blank.no_activities id in
      let c =
        activity_command id type input options
          (augmented r.outbound_chain type options input r.info.headers) r in
      let r₁ = (schedule_activity type input options r).1 in
      let sent : r₁.commands ≡ r.commands ++ c ∷ [] = rw none_yet in
      record {
        command = c;
        plain = activity _;
        sent = sent;
        first =
            IsFirst-send c r₁ (rw none_yet) sent (rw none_yet) (rw none_yet (omega arith))
              (rw none_yet (omega arith)) (rw none_yet (omega arith));
        replays = λ next. rw (none_yet, next.holds);
      }

  pub start_timer-Sends : (duration : ℤ) → Sends ps (start_timer duration) (start_timer duration) r
  unfolding start_timer emit_start_timer event_of
  start_timer-Sends duration =
      let id = append "t" (to_string r.timer_seq) in
      let none_yet = v.blank.no_timers id in
      let c = Command.start_timer id (to_proto_duration duration) in
      let r₁ = (start_timer duration r).1 in
      let sent : r₁.commands ≡ r.commands ++ c ∷ [] = rw none_yet in
      record {
        command = c;
        plain = timer id _;
        sent = sent;
        first =
            IsFirst-send c r₁ (rw none_yet) sent (rw none_yet) (rw none_yet (omega arith))
              (rw none_yet (omega arith)) (rw none_yet (omega arith));
        replays = λ next. rw (none_yet, next.holds);
      }

  pub start_child_workflow-Sends :
      (type : String) (input : Payloads) (options : ChildWorkflowOptions)
      → Sends ps
          (start_child_workflow type input options)
          (start_child_workflow type input options)
          r
  unfolding start_child_workflow emit_start_child_workflow event_of
  start_child_workflow-Sends type input options =
      let auto_id = append r.info.workflow_id (append "_c" (to_string r.child_seq)) in
      let id = if options.id == "" then auto_id else options.id in
      let none_yet = v.blank.no_children id in
      let c = Command.start_child (record {
        ns = r.info.ns;
        workflow_id = id;
        workflow_type = type;
        task_queue = queue_or r.info.task_queue options.task_queue;
        input = input;
        parent_close_policy = options.parent_close_policy;
      }) in
      let r₁ = (start_child_workflow type input options r).1 in
      let sent : r₁.commands ≡ r.commands ++ c ∷ [] = rw none_yet in
      record {
        command = c;
        plain = child _;
        sent = sent;
        first =
            IsFirst-send c r₁ (rw none_yet) sent (rw none_yet) (rw none_yet (omega arith))
              (rw none_yet (omega arith)) (rw none_yet (omega arith));
        replays = λ next. rw (none_yet, next.holds);
      }

  abbrev silently : (Runner → Runner) → Runner → Unit {0} × Runner
  silently f r₀ = (tt, f r₀)

  pub signal_external-Sends :
      (id name : String) (input : Payloads)
      → Sends ps
          (silently (signal_external_workflow id name input))
          (silently (signal_external_workflow id name input))
          r
  unfolding signal_external_workflow emit_signal_external_workflow event_of
  signal_external-Sends id name input =
      let go : leb r.scan.ext_signals_initiated r.ext_signal_seq ≡ true =
        rw v.blank.no_ext_signals (ground arith) in
      let c = Command.signal_external r.info.ns id name input in
      let r₁ = signal_external_workflow id name input r in
      let sent : r₁.commands ≡ r.commands ++ c ∷ [] = rw go in
      record {
        command = c;
        plain = signal r.info.ns id name input;
        sent = sent;
        first =
            IsFirst-send c r₁ (rw go) sent (rw go) (rw go (omega arith)) (rw go (omega arith))
              (rw go (omega arith));
        replays = λ next.
            let stop : leb ps.ext_signals_initiated r.ext_signal_seq ≡ false =
              ground (arith, next.ext_signals, v.signal_count) in
            rw (go, stop);
      }

  pub upsert-Sends :
      (attributes : Map String Payload)
      → Sends ps
          (silently (upsert_search_attributes attributes))
          (silently (upsert_search_attributes attributes))
          r
  unfolding upsert_search_attributes emit_upsert_search_attributes event_of
  upsert-Sends attributes =
      let go : leb r.scan.upserts_initiated r.upsert_seq ≡ true =
        rw v.blank.no_upserts (ground arith) in
      let c = Command.upsert_search_attributes attributes in
      let r₁ = upsert_search_attributes attributes r in
      let sent : r₁.commands ≡ r.commands ++ c ∷ [] = rw go in
      record {
        command = c;
        plain = upserts attributes;
        sent = sent;
        first =
            IsFirst-send c r₁ (rw go) sent (rw go) (rw go (omega arith)) (rw go (omega arith))
              (rw go (omega arith));
        replays = λ next.
            let stop : leb ps.upserts_initiated r.upsert_seq ≡ false =
              ground (arith, next.upserts, v.upsert_count) in
            rw (go, stop);
      }
