-- ===== src/History/Commands.antt =====
-- The commands that ScanHistory collects for the non-determinism check.
use temporal_cpp.Prelude.{
  if◌then◌else◌, ◌==◌, string_key, ℕ, suc, ◌≡◌, refl, sym, String, Bool, true, false, Option, none,
  some, List, [], ◌∷◌, ◌++◌, append_assoc, append-nil, Map, arith, to_string,
}
use temporal_cpp.Determinism.{Kind, CommandEvent}
use temporal_cpp.History.{
  Payloads, Attributes, Event, Prescan, no_scan, activity_scheduled, activity_cancel_requested,
  timer_started, timer_canceled, child_initiated, request_cancel_external_initiated,
  signal_external_initiated, search_attributes_upserted, nexus_scheduled, marker_recorded,
  workflow_completed, workflow_failed, workflow_continued_as_new, other,
}
use temporal_cpp.History.Scan.{
  scan_side_effect, scan_version, scan_mutable_side_effect, scan_local_activity,
  scan_marker_details, is_deferred_on_replay, scan_attributes, scan_event, scan_from, scan_history,
  update_activity, update_nexus, scan_marker, scan_activity_cancel_requested,
  scan_activity_scheduled, scan_nexus_scheduled,
}

-- The command that an event records, after `n` scheduled Nexus operations.
pub command_of : ℕ → Attributes → Option CommandEvent
command_of n (activity_scheduled id type) =
    some (record { kind = Kind.activity; id = id; name = type })
command_of n (activity_cancel_requested s) =
    some (record { kind = Kind.request_cancel_activity; id = to_string s; name = "" })
command_of n (timer_started t) = some (record { kind = Kind.timer; id = t; name = "" })
command_of n (timer_canceled t) = some (record { kind = Kind.cancel_timer; id = t; name = "" })
command_of n (child_initiated w type) =
    some (record { kind = Kind.child_workflow; id = w; name = type })
command_of n (request_cancel_external_initiated w) =
    some (record { kind = Kind.request_cancel_external_workflow; id = w; name = "" })
command_of n (signal_external_initiated w) =
    some (record { kind = Kind.signal_external_workflow; id = w; name = "" })
command_of n search_attributes_upserted =
    some (record { kind = Kind.upsert_search_attributes; id = ""; name = "" })
command_of n nexus_scheduled =
    some (record { kind = Kind.nexus_operation; id = to_string n; name = "" })
command_of n (marker_recorded name details) =
    some (record { kind = Kind.marker; id = name; name = "" })
command_of n workflow_completed =
    some (record { kind = Kind.complete_workflow; id = ""; name = "" })
command_of n workflow_failed = some (record { kind = Kind.fail_workflow; id = ""; name = "" })
command_of n workflow_continued_as_new =
    some (record { kind = Kind.continue_as_new; id = ""; name = "" })
command_of n _ = none

abbrev nexus_after : ℕ → Attributes → ℕ
nexus_after n nexus_scheduled = suc n
nexus_after n _ = n

abbrev pub to_list : Option CommandEvent → List CommandEvent
to_list none = []
to_list (some x) = x ∷ []

-- What the history recorded, in order.
pub recorded : ℕ → List Event → List CommandEvent
recorded n [] = []
recorded n (ev ∷ evs) =
    to_list (command_of n ev.attributes) ++ recorded (nexus_after n ev.attributes) evs

update_activity-Keeps :
    (f : _) (s : ℕ) (ps : Prescan)
    → ((update_activity f s ps).commands ≡ ps.commands)
      × ((update_activity f s ps).nexus_ops_scheduled ≡ ps.nexus_ops_scheduled)
unfolding update_activity
update_activity-Keeps f s ps = ground arith

update_nexus-Keeps :
    (f : _) (s : ℕ) (ps : Prescan)
    → ((update_nexus f s ps).commands ≡ ps.commands)
      × ((update_nexus f s ps).nexus_ops_scheduled ≡ ps.nexus_ops_scheduled)
unfolding update_nexus
update_nexus-Keeps f s ps = ground arith

-- What a step that records no command leaves as it was.
abbrev Keeps : Prescan → Prescan → Type 0
Keeps ps ps' = (ps'.commands ≡ ps.commands) × (ps'.nexus_ops_scheduled ≡ ps.nexus_ops_scheduled)

if_Keeps : (b : Bool) (ps x y : Prescan) → Keeps ps x → Keeps ps y → Keeps ps (if b then x else y)
if_Keeps true ps x y h k = h
if_Keeps false ps x y h k = k

scan_side_effect-Keeps :
    (details : Map String Payloads) (ps : Prescan) → Keeps ps (scan_side_effect details ps)
unfolding scan_side_effect
scan_side_effect-Keeps details ps = ground arith

scan_version-Keeps :
    (details : Map String Payloads) (ps : Prescan) → Keeps ps (scan_version details ps)
unfolding scan_version
scan_version-Keeps details ps = ground arith

scan_mutable_side_effect-Keeps :
    (details : Map String Payloads) (ps : Prescan) → Keeps ps (scan_mutable_side_effect details ps)
unfolding scan_mutable_side_effect
scan_mutable_side_effect-Keeps details ps = ground arith

scan_marker-Keeps :
    (name : String) (details : Map String Payloads) (ps : Prescan)
    → ((scan_marker name details ps).commands
        ≡ ps.commands ++ record { kind = Kind.marker; id = name; name = "" } ∷ [])
      × ((scan_marker name details ps).nexus_ops_scheduled ≡ ps.nexus_ops_scheduled)
unfolding scan_marker scan_marker_details scan_local_activity
scan_marker-Keeps name details ps =
    let pushed : Prescan = record ps {
      commands = ps.commands ++ record { kind = Kind.marker; id = name; name = "" } ∷ [];
    } in
    if_Keeps (name == "SideEffect") pushed _ _ (scan_side_effect-Keeps details pushed) (
      if_Keeps (name == "Version") pushed _ _ (scan_version-Keeps details pushed) (
        if_Keeps (name == "MutableSideEffect") pushed _ _
          (scan_mutable_side_effect-Keeps details pushed)
          (if_Keeps (name == "LocalActivity") pushed _ _ (refl, refl) (refl, refl))))

scan_attributes-commands :
    (i : ℕ) (a : Attributes) (ps : Prescan)
    → ((scan_attributes i a ps).commands
        ≡ ps.commands ++ to_list (command_of ps.nexus_ops_scheduled a))
      × ((scan_attributes i a ps).nexus_ops_scheduled ≡ nexus_after ps.nexus_ops_scheduled a)
unfolding scan_attributes command_of scan_activity_scheduled scan_nexus_scheduled
    scan_activity_cancel_requested update_activity update_nexus
scan_attributes-commands i other ps = (sym (append-nil ps.commands), refl)
scan_attributes-commands i (marker_recorded name details) ps = scan_marker-Keeps name details ps
scan_attributes-commands i _ ps = ground (arith, append-nil ps.commands)

deferred-no_command :
    (n : ℕ) (a : Attributes)
    → is_deferred_on_replay a ≡ true
    → (command_of n a ≡ none) × (nexus_after n a ≡ n)
unfolding is_deferred_on_replay command_of
deferred-no_command n other h = absurd (cc h)
deferred-no_command n _ h = ground arith

scan_event-commands :
    (ev : Event) (ps : Prescan) (seen : Bool)
    → ((scan_event ev (ps, seen)).0.commands
        ≡ ps.commands ++ to_list (command_of ps.nexus_ops_scheduled ev.attributes))
      × ((scan_event ev (ps, seen)).0.nexus_ops_scheduled
          ≡ nexus_after ps.nexus_ops_scheduled ev.attributes)
unfolding scan_event
scan_event-commands ev ps seen = ground (
  arith,
  scan_attributes-commands ev.event_id ev.attributes (record ps { last_event_id = ev.event_id }),
  deferred-no_command ps.nexus_ops_scheduled ev.attributes,
  append-nil ps.commands,
)

scan_from-commands :
    (evs : List Event) (st : Prescan × Bool)
    → (scan_from evs st).0.commands ≡ st.0.commands ++ recorded st.0.nexus_ops_scheduled evs
unfolding scan_from recorded
scan_from-commands [] st = sym (append-nil st.0.commands)
scan_from-commands (ev ∷ evs) st =
    let e = scan_event-commands ev st.0 st.1 in
    rw (scan_from-commands evs (scan_event ev st), e.0, e.1, append_assoc)

-- The commands that a scan collects are those that the events record, event by event in history
-- order, wherever updates were accepted: what is held back for the incremental replay never hides
-- a command from the non-determinism check.
pub scan_history-recorded :
    (events : List Event) → (scan_history events).commands ≡ recorded 0 events
unfolding scan_history
scan_history-recorded events = scan_from-commands events (no_scan, false)
