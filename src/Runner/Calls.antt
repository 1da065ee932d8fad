-- ===== src/Runner/Calls.antt =====
-- The calls of a workflow body on `WorkflowRunner` that schedule, cancel and receive. Each returns
-- what the body sees together with the new state; logging is left out.
use Prim.Native.String.{◌++◌ as append}
use temporal_cpp.Prelude.{
  ℕ, suc, String, Bool, true, false, Option, none, some, [], ◌∷◌, ◌++◌, Map, insert, or_else, ◌==◌,
  if◌then◌else◌, leb, ltb, to_string, number_key, string_key, get_elem?, length,
}
use temporal_cpp.Prelude.Int.{ℤ}
use temporal_cpp.Determinism.{Kind}
use temporal_cpp.History.{
  Payload, Payloads, ActivityOutcome, ChildOutcome, NexusOpOutcome, no_activity, no_timer, no_child,
  no_nexus_op,
}
use temporal_cpp.Proto.{ActivityOptions, ChildWorkflowOptions}
use temporal_cpp.Runner.{
  Runner, FutureState, pending, Op, allocate, write_future, produce, OutboundChain,
}
use temporal_cpp.Runner.Emit.{
  emit_schedule_activity, emit_start_timer, emit_cancel_timer, emit_request_cancel_activity,
  emit_start_child_workflow, emit_nexus_operation, emit_request_cancel_external_workflow,
  emit_signal_external_workflow, emit_upsert_search_attributes,
}

-- The header after the outbound interceptors, if there are any.
abbrev pub augmented :
    Option OutboundChain
    → String
    → ActivityOptions
    → Payloads
    → Map String Payload
    → Map String Payload
augmented none type options input header = header
augmented (some chain) type options input header = chain type options input header

-- The state of an activity's future when its schedule is in the history.
activity_future : String → ActivityOutcome → FutureState
activity_future id o =
    if o.resolved
    then record (pending Op.activity id) {
      ready = true;
      failed = o.failed;
      result = o.result;
      failure_type = o.failure_type;
      failure_message = o.failure_message;
    }
    else pending Op.activity id

unfoldable pub schedule_activity : String → Payloads → ActivityOptions → Runner → ℕ × Runner
unfolding activity_future
schedule_activity type input options r =
    let id = to_string r.activity_seq in
    let o = or_else no_activity (r.scan.activities id) in
    let r₁ = produce Kind.activity id type (record r { activity_seq = suc r.activity_seq }) in
    let header = augmented r.outbound_chain type options input r.info.headers in
    let state = if o.scheduled then activity_future id o else pending Op.activity id in
    let r₂ = if o.scheduled then r₁ else emit_schedule_activity id type input options header r₁ in
    let r₃ = allocate state r₂ in
    (r.next_future, record r₃ { activity_futures = insert id r.next_future r.activity_futures })

unfoldable pub start_timer : ℤ → Runner → ℕ × Runner
start_timer duration r =
    let id = append "t" (to_string r.timer_seq) in
    let o = or_else no_timer (r.scan.timers id) in
    let r₁ = produce Kind.timer id "" (record r { timer_seq = suc r.timer_seq }) in
    let state =
      if o.started then record (pending Op.timer id) { ready = o.fired } else pending Op.timer id in
    let r₂ = if o.started then r₁ else emit_start_timer id duration r₁ in
    let r₃ = allocate state r₂ in
    (r.next_future, record r₃ { timer_futures = insert id r.next_future r.timer_futures })

child_future : String → ChildOutcome → FutureState
child_future id o =
    if o.resolved
    then record (pending Op.child_workflow id) {
      ready = true;
      failed = o.failed;
      result = o.result;
      failure_type = o.failure_type;
      failure_message = o.failure_message;
    }
    else pending Op.child_workflow id

unfoldable pub start_child_workflow : String → Payloads → ChildWorkflowOptions → Runner → ℕ × Runner
unfolding child_future
start_child_workflow type input options r =
    let auto_id = append r.info.workflow_id (append "_c" (to_string r.child_seq)) in
    let id = if options.id == "" then auto_id else options.id in
    let o = or_else no_child (r.scan.children id) in
    let r₁ = produce Kind.child_workflow id type (record r { child_seq = suc r.child_seq }) in
    let state = if o.initiated then child_future id o else pending Op.child_workflow id in
    let r₂ = if o.initiated then r₁ else emit_start_child_workflow id type input options r₁ in
    let r₃ = allocate state r₂ in
    (r.next_future, record r₃ { child_futures = insert id r.next_future r.child_futures })

nexus_future : String → NexusOpOutcome → FutureState
nexus_future id o =
    if o.resolved
    then record (pending Op.nexus_operation id) {
      ready = true;
      failed = o.failed;
      result = o.result;
      failure_type = o.failure_type;
      failure_message = o.failure_message;
    }
    else pending Op.nexus_operation id

unfoldable pub schedule_nexus_operation :
    String → String → String → Payload → ℤ → Runner → ℕ × Runner
unfolding nexus_future
schedule_nexus_operation endpoint service operation input schedule_to_close r =
    let id = to_string r.nexus_seq in
    let o = or_else no_nexus_op (r.scan.nexus_ops id) in
    let r₁ = produce Kind.nexus_operation id "" (record r { nexus_seq = suc r.nexus_seq }) in
    let state = if o.scheduled then nexus_future id o else pending Op.nexus_operation id in
    let r₂ =
      if o.scheduled
      then r₁
      else emit_nexus_operation endpoint service operation input schedule_to_close r₁ in
    let r₃ = allocate state r₂ in
    (r.next_future, record r₃ { nexus_futures = insert id r.next_future r.nexus_futures })

cancel_timer : ℕ → String → Runner → Runner
cancel_timer h id r =
    let recorded = (or_else no_timer (r.scan.timers id)).cancelled in
    let r₁ = produce Kind.cancel_timer id "" r in
    write_future h (λ s. record s { ready = true; cancelled = true })
      (if recorded then r₁ else emit_cancel_timer id r₁)

cancel_activity : String → Runner → Runner
cancel_activity id r = elim (r.scan.activity_to_sched_event id) [
  | none ↦ r
  | some scheduled ↦
      let recorded = (or_else no_activity (r.scan.activities id)).cancel_requested in
      let r₁ = produce Kind.request_cancel_activity (to_string scheduled) "" r in
      if recorded then r₁ else emit_request_cancel_activity scheduled r₁
]

request_cancel : String → Bool → Runner → Runner
request_cancel id child_only r =
    let recorded = (or_else no_child (r.scan.children id)).cancel_requested in
    let r₁ = produce Kind.request_cancel_external_workflow id "" r in
    if recorded then r₁ else emit_request_cancel_external_workflow id child_only r₁

cancel_by_op : Op → ℕ → String → Runner → Runner
unfolding cancel_timer cancel_activity request_cancel
cancel_by_op Op.timer h id r = cancel_timer h id r
cancel_by_op Op.activity h id r = cancel_activity id r
cancel_by_op Op.child_workflow h id r = request_cancel id true r
cancel_by_op _ h id r = r

unfoldable pub cancel : ℕ → Runner → Runner
unfolding cancel_by_op
cancel h r = let s = r.futures h in if s.cancelled then r else cancel_by_op s.op h s.op_id r

unfoldable pub cancel_external_workflow : String → Runner → Runner
unfolding request_cancel
cancel_external_workflow id r = request_cancel id false r

unfoldable pub signal_external_workflow : String → String → Payloads → Runner → Runner
signal_external_workflow id name input r =
    let r₁ =
      produce Kind.signal_external_workflow id ""
        (record r { ext_signal_seq = suc r.ext_signal_seq }) in
    if leb r.scan.ext_signals_initiated r.ext_signal_seq
    then emit_signal_external_workflow id name input r₁
    else r₁

unfoldable pub upsert_search_attributes : Map String Payload → Runner → Runner
upsert_search_attributes attributes r =
    let r₁ =
      produce Kind.upsert_search_attributes "" "" (record r { upsert_seq = suc r.upsert_seq }) in
    if leb r.scan.upserts_initiated r.upsert_seq
    then emit_upsert_search_attributes attributes r₁
    else r₁

-- The signal at the cursor, and the state with the cursor behind it; `none` for `false`.
unfoldable pub try_consume_signal : String → Runner → Option Payloads × Runner
try_consume_signal name r = elim (r.scan.signals name) [
  | none ↦ (none, r)
  | some queue ↦
      let cursor = or_else 0 (r.signal_cursor name) in
      let touched = record r { signal_cursor = insert name cursor r.signal_cursor } in
      elim (get_elem? queue cursor) [
        | none ↦ (none, touched)
        | some args ↦
            (some args, record r { signal_cursor = insert name (suc cursor) r.signal_cursor })
      ]
]

unfoldable pub has_signal : String → Runner → Bool
has_signal name r = elim (r.scan.signals name) [
  | none ↦ false
  | some queue ↦ ltb (or_else 0 (r.signal_cursor name)) (length queue)
]

unfoldable pub await_cancellation : Runner → ℕ × Runner
await_cancellation r =
    let h = r.next_future in
    let s = pending Op.none "" in
    if r.scan.cancel_requested
    then (h, allocate (record s { ready = true }) r)
    else (h, record (allocate s r) { cancel_futures = r.cancel_futures ++ h ∷ [] })
