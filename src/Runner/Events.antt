-- ===== src/Runner/Events.antt =====
-- ApplyEvents and ApplyEventToState of `WorkflowRunner`: the live path, on which new history events
-- resolve the futures that the parked body waits for.
use temporal_cpp.Prelude.{
  ℕ, suc, String, Bool, true, false, Option, none, some, List, [], ◌∷◌, insert, modify,
  if◌then◌else◌, leb, to_string, number_key, string_key,
}
use temporal_cpp.History.{
  Payloads, Attributes, Event, Prescan, no_nexus_op, activity_scheduled, activity_cancel_requested,
  activity_completed, activity_failed, activity_timed_out, activity_canceled, timer_fired,
  timer_canceled, child_completed, child_failed, child_canceled, nexus_scheduled, nexus_completed,
  nexus_failed, nexus_timed_out, nexus_canceled, workflow_signaled, workflow_cancel_requested,
}
use temporal_cpp.History.Scan.{deliver_signal, update_activity}
use temporal_cpp.Runner.{Runner, FutureState, write_future}

-- What a resolution assigns to a future: ready, failed, result, type and message.
abbrev pub resolve : Bool → Payloads → String → String → FutureState → FutureState
resolve failed result type message s = record s {
  ready = true;
  failed = failed;
  result = result;
  failure_type = type;
  failure_message = message;
}

-- An assignment through the future under a key of one of the maps, if there is one.
unfoldable pub write_at : Option ℕ → (FutureState → FutureState) → Runner → Runner
write_at none f r = r
write_at (some h) f r = write_future h f r

unfoldable pub resolve_activity : ℕ → Bool → Payloads → String → String → Runner → Runner
unfolding write_at
resolve_activity scheduled failed result type message r =
    elim (r.scan.sched_event_to_activity scheduled) [
      | none ↦ r
      | some id ↦ write_at (r.activity_futures id) (resolve failed result type message) r
    ]

unfoldable pub resolve_nexus_operation : ℕ → Bool → Payloads → String → String → Runner → Runner
unfolding write_at
resolve_nexus_operation scheduled failed result type message r =
    elim (r.scan.sched_event_to_nexus scheduled) [
      | none ↦ r
      | some id ↦ write_at (r.nexus_futures id) (resolve failed result type message) r
    ]

abbrev child_failed_with : String → String → FutureState → FutureState
child_failed_with type message s = record s {
  ready = true;
  failed = true;
  failure_type = type;
  failure_message = message;
}

-- `for (const auto& s : cancel_futures_) s->ready = true;`
make_ready : List ℕ → Runner → Runner
make_ready [] r = r
make_ready (h ∷ hs) r = make_ready hs (write_future h (λ s. record s { ready = true }) r)

-- ACTIVITY_TASK_SCHEDULED and NEXUS_OPERATION_SCHEDULED, on the scan.
note_activity : ℕ → String → Prescan → Prescan
note_activity event_id id ps = record ps {
  sched_event_to_activity = insert event_id id ps.sched_event_to_activity;
  activity_to_sched_event = insert id event_id ps.activity_to_sched_event;
}

note_nexus : ℕ → Prescan → Prescan
note_nexus event_id ps =
    let id = to_string ps.nexus_ops_scheduled in
    record ps {
      nexus_ops_scheduled = suc ps.nexus_ops_scheduled;
      nexus_ops = modify no_nexus_op (λ o. record o { scheduled = true }) id ps.nexus_ops;
      sched_event_to_nexus = insert event_id id ps.sched_event_to_nexus;
    }

-- The `switch` of ApplyEventToState.
unfoldable pub apply_attributes : ℕ → Attributes → Runner → Runner
unfolding write_at make_ready note_activity note_nexus
apply_attributes i (activity_scheduled id type) r = record r { scan = note_activity i id r.scan }
apply_attributes i nexus_scheduled r = record r { scan = note_nexus i r.scan }
apply_attributes i (nexus_completed s result) r =
    resolve_nexus_operation s false (result ∷ []) "" "" r
apply_attributes i (nexus_failed s f) r =
    resolve_nexus_operation s true [] f.failure_type f.message r
apply_attributes i (nexus_timed_out s) r =
    resolve_nexus_operation s true [] "TimeoutError" "nexus operation timed out" r
apply_attributes i (nexus_canceled s) r =
    resolve_nexus_operation s true [] "CanceledError" "nexus operation cancelled" r
apply_attributes i (activity_completed s result) r = resolve_activity s false result "" "" r
apply_attributes i (activity_failed s f) r = resolve_activity s true [] f.failure_type f.message r
apply_attributes i (activity_timed_out s) r =
    resolve_activity s true [] "TimeoutError" "activity timed out" r
apply_attributes i (activity_canceled s) r =
    resolve_activity s true [] "CanceledError" "activity cancelled" r
apply_attributes i (activity_cancel_requested s) r = record r {
  scan = update_activity (λ o. record o { cancel_requested = true }) s r.scan;
}
apply_attributes i (timer_fired t) r =
    write_at (r.timer_futures t) (λ s. record s { ready = true }) r
apply_attributes i (timer_canceled t) r =
    write_at (r.timer_futures t) (λ s. record s { ready = true; cancelled = true }) r
apply_attributes i (child_completed w result) r =
    write_at (r.child_futures w) (λ s. record s { ready = true; result = result }) r
apply_attributes i (child_failed w f) r =
    write_at (r.child_futures w) (child_failed_with f.failure_type f.message) r
apply_attributes i (child_canceled w) r =
    write_at (r.child_futures w) (child_failed_with "CanceledError" "child workflow cancelled") r
apply_attributes i (workflow_signaled name args) r = record r {
  scan = deliver_signal name args r.scan;
}
apply_attributes i workflow_cancel_requested r =
    make_ready r.cancel_futures (record r { scan = record r.scan { cancel_requested = true } })
apply_attributes i _ r = r

unfoldable pub apply_event_to_state : Event → Runner → Runner
unfolding apply_attributes
apply_event_to_state ev r = apply_attributes ev.event_id ev.attributes r

unfoldable pub apply_events : List Event → Runner → Runner
apply_events [] r = r
apply_events (ev ∷ evs) r = apply_events evs (
    if leb ev.event_id r.scan.last_event_id
    then r
    else (let r₁ = apply_event_to_state ev r in
        record r₁ { scan = record r₁.scan { last_event_id = ev.event_id } }))
