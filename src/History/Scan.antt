-- ===== src/History/Scan.antt =====
-- IsDeferredOnReplay and ScanHistory of src/internal/workflow_task_handler.cpp: one walk over the
-- history indexes the outcomes that the runner replays against.
use temporal_cpp.Prelude.{
  ℕ, suc, ◌≡◌, refl, String, Bool, true, false, Option, none, some, List, [], ◌∷◌, ◌++◌, Map,
  insert, modify, or_else, ◌==◌, if◌then◌else◌, ◌&&◌, ◌||◌, to_string, number_key, string_key,
  arith,
}
use temporal_cpp.Determinism.{Kind}
use temporal_cpp.History.{
  Payload, Payloads, no_payload, Attributes, Event, ActivityOutcome, TimerOutcome, ChildOutcome,
  NexusOpOutcome, no_activity, no_timer, no_child, no_nexus_op, LocalActivityMarkerRaw, deferred,
  update, Prescan, no_scan, workflow_started, activity_scheduled, activity_cancel_requested,
  activity_completed, activity_failed, activity_timed_out, activity_canceled, timer_started,
  timer_fired, timer_canceled, child_initiated, child_completed, child_failed, child_canceled,
  request_cancel_external_initiated, signal_external_initiated, search_attributes_upserted,
  nexus_scheduled, nexus_completed, nexus_failed, nexus_timed_out, nexus_canceled,
  workflow_signaled, update_accepted, workflow_cancel_requested, marker_recorded,
  workflow_completed, workflow_failed, workflow_continued_as_new, other,
}

unfoldable pub is_deferred_on_replay : Attributes → Bool
is_deferred_on_replay (activity_completed s r) = true
is_deferred_on_replay (activity_failed s f) = true
is_deferred_on_replay (activity_timed_out s) = true
is_deferred_on_replay (activity_canceled s) = true
is_deferred_on_replay (timer_fired t) = true
is_deferred_on_replay (child_completed w r) = true
is_deferred_on_replay (child_failed w f) = true
is_deferred_on_replay (child_canceled w) = true
is_deferred_on_replay (nexus_completed s r) = true
is_deferred_on_replay (nexus_failed s f) = true
is_deferred_on_replay (nexus_timed_out s) = true
is_deferred_on_replay (nexus_canceled s) = true
is_deferred_on_replay (workflow_signaled n a) = true
is_deferred_on_replay workflow_cancel_requested = true
is_deferred_on_replay _ = false

-- `ps.commands.push_back({kind, id, name})`
abbrev pub push_command : Kind → String → String → Prescan → Prescan
push_command k i n ps = record ps {
  commands = ps.commands ++ record { kind = k; id = i; name = n } ∷ [];
}

unfoldable pub scan_activity_scheduled : ℕ → String → String → Prescan → Prescan
scan_activity_scheduled event_id id type ps = push_command Kind.activity id type (record ps {
  activities = modify no_activity (λ o. record o { scheduled = true }) id ps.activities;
  sched_event_to_activity = insert event_id id ps.sched_event_to_activity;
  activity_to_sched_event = insert id event_id ps.activity_to_sched_event;
})

-- The outcome under the id whose schedule had the event id, if there is one.
unfoldable pub update_activity : (ActivityOutcome → ActivityOutcome) → ℕ → Prescan → Prescan
update_activity f scheduled ps = elim (ps.sched_event_to_activity scheduled) [
  | none ↦ ps
  | some id ↦ record ps { activities = modify no_activity f id ps.activities }
]

unfoldable pub scan_activity_cancel_requested : ℕ → Prescan → Prescan
unfolding update_activity
scan_activity_cancel_requested scheduled ps =
    update_activity (λ o. record o { cancel_requested = true }) scheduled
      (push_command Kind.request_cancel_activity (to_string scheduled) "" ps)

abbrev pub activity_result : Payloads → ActivityOutcome → ActivityOutcome
activity_result r o = record o { resolved = true; result = r }

abbrev pub activity_failure : String → String → ActivityOutcome → ActivityOutcome
activity_failure type message o = record o {
  resolved = true;
  failed = true;
  failure_message = message;
  failure_type = type;
}

unfoldable pub update_nexus : (NexusOpOutcome → NexusOpOutcome) → ℕ → Prescan → Prescan
update_nexus f scheduled ps = elim (ps.sched_event_to_nexus scheduled) [
  | none ↦ ps
  | some id ↦ record ps { nexus_ops = modify no_nexus_op f id ps.nexus_ops }
]

abbrev pub nexus_failure : String → String → NexusOpOutcome → NexusOpOutcome
nexus_failure type message o = record o {
  resolved = true;
  failed = true;
  failure_message = message;
  failure_type = type;
}

unfoldable pub scan_nexus_scheduled : ℕ → Prescan → Prescan
scan_nexus_scheduled event_id ps =
    let id = to_string ps.nexus_ops_scheduled in
    push_command Kind.nexus_operation id "" (record ps {
      nexus_ops_scheduled = suc ps.nexus_ops_scheduled;
      nexus_ops = modify no_nexus_op (λ o. record o { scheduled = true }) id ps.nexus_ops;
      sched_event_to_nexus = insert event_id id ps.sched_event_to_nexus;
    })

unfoldable pub update_timer : (TimerOutcome → TimerOutcome) → String → Prescan → Prescan
update_timer f id ps = record ps { timers = modify no_timer f id ps.timers }

unfoldable pub update_child : (ChildOutcome → ChildOutcome) → String → Prescan → Prescan
update_child f id ps = record ps { children = modify no_child f id ps.children }

abbrev pub child_failure : String → String → ChildOutcome → ChildOutcome
child_failure type message o = record o {
  resolved = true;
  failed = true;
  failure_message = message;
  failure_type = type;
}

unfoldable pub deliver_signal : String → Payloads → Prescan → Prescan
deliver_signal name args ps = record ps {
  signals = modify [] (λ q. q ++ args ∷ []) name ps.signals;
}

-- `details.find(key)`, then the first of its payloads, if any
abbrev pub first : Option Payloads → Option Payload
first none = none
first (some []) = none
first (some (p ∷ ps)) = some p

unfoldable pub scan_side_effect : Map String Payloads → Prescan → Prescan
scan_side_effect details ps = elim (first (details "data")) [
  | none ↦ ps
  | some p ↦ record ps { side_effects = ps.side_effects ++ p ∷ [] }
]

unfoldable pub scan_version : Map String Payloads → Prescan → Prescan
scan_version details ps = elim (details "change-id") [
  | none ↦ ps
  | some id ↦ elim (details "version") [
    | none ↦ ps
    | some ver ↦ record ps { version_markers = ps.version_markers ++ (id, ver) ∷ [] }
  ]
]

unfoldable pub scan_mutable_side_effect : Map String Payloads → Prescan → Prescan
scan_mutable_side_effect details ps = elim (first (details "id")) [
  | none ↦ ps
  | some id ↦ elim (first (details "mse-call-index")) [
    | none ↦ ps
    | some idx ↦ elim (first (details "data")) [
      | none ↦ ps
      | some v ↦ record ps {
        mutable_side_effect_markers =
            ps.mutable_side_effect_markers ++ record { id = id; call_index = idx; value = v } ∷ [];
      }
    ]
  ]
]

unfoldable pub local_activity_marker : Map String Payloads → LocalActivityMarkerRaw
local_activity_marker details = elim (details "failure-message") [
  | some fm ↦ record {
    failed = true;
    result = [];
    failure_type = or_else no_payload (first (details "failure-type"));
    failure_message = or_else no_payload (first (some fm));
  }
  | none ↦ record {
    failed = false;
    result = or_else [] (details "result");
    failure_type = no_payload;
    failure_message = no_payload;
  }
]

unfoldable pub scan_local_activity : Map String Payloads → Prescan → Prescan
unfolding local_activity_marker
scan_local_activity details ps = record ps {
  local_activities = ps.local_activities ++ local_activity_marker details ∷ [];
}

unfoldable pub scan_marker_details : String → Map String Payloads → Prescan → Prescan
unfolding scan_side_effect scan_version scan_mutable_side_effect scan_local_activity
scan_marker_details name details ps =
    if name == "SideEffect"
    then scan_side_effect details ps
    else (if name == "Version"
        then scan_version details ps
        else (if name == "MutableSideEffect"
            then scan_mutable_side_effect details ps
            else (if name == "LocalActivity" then scan_local_activity details ps else ps)))

unfoldable pub scan_marker : String → Map String Payloads → Prescan → Prescan
unfolding scan_marker_details
scan_marker name details ps = scan_marker_details name details (push_command Kind.marker name "" ps)

pub scan_marker-SideEffect :
    (details : Map String Payloads) (v : Payload) (ps : Prescan)
    → details "data" ≡ some (v ∷ [])
    → scan_marker "SideEffect" details ps
      ≡ push_command Kind.marker "SideEffect" ""
          (record ps { side_effects = ps.side_effects ++ v ∷ [] })
unfolding scan_marker scan_marker_details scan_side_effect
scan_marker-SideEffect details v ps h = ground arith

pub scan_marker-LocalActivity :
    (details : Map String Payloads) (ps : Prescan)
    → scan_marker "LocalActivity" details ps
      ≡ record (push_command Kind.marker "LocalActivity" "" ps) {
        local_activities = ps.local_activities ++ local_activity_marker details ∷ [];
      }
unfolding scan_marker scan_marker_details scan_local_activity
scan_marker-LocalActivity details ps = refl

-- `headers[key] = value` for every header of the event: its value wins.
abbrev over : Option Payload → Option Payload → Option Payload
over old none = old
over old (some v) = some v

-- The `switch` of ScanHistory.
unfoldable pub scan_attributes : ℕ → Attributes → Prescan → Prescan
unfolding update_activity update_nexus scan_activity_cancel_requested scan_marker update_timer
    update_child deliver_signal
scan_attributes i (workflow_started type input headers) ps = record ps {
  input = input;
  headers = λ k. over (ps.headers k) (headers k);
}
scan_attributes i (activity_scheduled id type) ps = scan_activity_scheduled i id type ps
scan_attributes i (activity_cancel_requested s) ps = scan_activity_cancel_requested s ps
scan_attributes i (activity_completed s r) ps = update_activity (activity_result r) s ps
scan_attributes i (activity_failed s f) ps =
    update_activity (activity_failure f.failure_type f.message) s ps
scan_attributes i (activity_timed_out s) ps =
    update_activity (activity_failure "TimeoutError" "activity timed out") s ps
scan_attributes i (activity_canceled s) ps =
    update_activity (activity_failure "CanceledError" "activity cancelled") s ps
scan_attributes i (timer_started t) ps =
    push_command Kind.timer t "" (update_timer (λ o. record o { started = true }) t ps)
scan_attributes i (timer_fired t) ps = update_timer (λ o. record o { fired = true }) t ps
scan_attributes i (timer_canceled t) ps =
    push_command Kind.cancel_timer t "" (update_timer (λ o. record o { cancelled = true }) t ps)
scan_attributes i (child_initiated w type) ps =
    push_command Kind.child_workflow w type (update_child (λ o. record o { initiated = true }) w ps)
scan_attributes i (child_completed w r) ps =
    update_child (λ o. record o { resolved = true; result = r }) w ps
scan_attributes i (child_failed w f) ps = update_child (child_failure f.failure_type f.message) w ps
scan_attributes i (child_canceled w) ps =
    update_child (child_failure "CanceledError" "child workflow cancelled") w ps
scan_attributes i (request_cancel_external_initiated w) ps =
    update_child (λ o. record o { cancel_requested = true }) w
      (push_command Kind.request_cancel_external_workflow w "" ps)
scan_attributes i (signal_external_initiated w) ps =
    push_command Kind.signal_external_workflow w ""
      (record ps { ext_signals_initiated = suc ps.ext_signals_initiated })
scan_attributes i search_attributes_upserted ps =
    push_command Kind.upsert_search_attributes "" ""
      (record ps { upserts_initiated = suc ps.upserts_initiated })
scan_attributes i nexus_scheduled ps = scan_nexus_scheduled i ps
scan_attributes i (nexus_completed s r) ps =
    update_nexus (λ o. record o { resolved = true; result = r ∷ [] }) s ps
scan_attributes i (nexus_failed s f) ps = update_nexus (nexus_failure f.failure_type f.message) s ps
scan_attributes i (nexus_timed_out s) ps =
    update_nexus (nexus_failure "TimeoutError" "nexus operation timed out") s ps
scan_attributes i (nexus_canceled s) ps =
    update_nexus (nexus_failure "CanceledError" "nexus operation cancelled") s ps
scan_attributes i (workflow_signaled name args) ps = deliver_signal name args ps
scan_attributes i (update_accepted name args) ps = record ps {
  post_update_timeline = ps.post_update_timeline ++ update name args ∷ [];
}
scan_attributes i workflow_cancel_requested ps = record ps { cancel_requested = true }
scan_attributes i (marker_recorded name details) ps = scan_marker name details ps
scan_attributes i workflow_completed ps = push_command Kind.complete_workflow "" "" ps
scan_attributes i workflow_failed ps = push_command Kind.fail_workflow "" "" ps
scan_attributes i workflow_continued_as_new ps = push_command Kind.continue_as_new "" "" ps
scan_attributes i other ps = ps

abbrev pub is_update : Attributes → Bool
is_update (update_accepted name args) = true
is_update _ = false

-- The body of the loop of ScanHistory; the flag is `seen_update`.
unfoldable pub scan_event : Event → Prescan × Bool → Prescan × Bool
unfolding scan_attributes is_deferred_on_replay
scan_event ev (ps, seen) =
    let ps' = record ps { last_event_id = ev.event_id } in
    if seen && is_deferred_on_replay ev.attributes
    then (record ps' { post_update_timeline = ps'.post_update_timeline ++ deferred ev ∷ [] }, seen)
    else (scan_attributes ev.event_id ev.attributes ps', seen || is_update ev.attributes)

unfoldable pub scan_from : List Event → Prescan × Bool → Prescan × Bool
unfolding scan_event
scan_from [] st = st
scan_from (ev ∷ evs) st = scan_from evs (scan_event ev st)

unfoldable pub scan_history : List Event → Prescan
unfolding scan_from no_scan
scan_history events = (scan_from events (no_scan, false)).0
