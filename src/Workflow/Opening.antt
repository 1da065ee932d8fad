-- ===== src/Workflow/Opening.antt =====
-- The scan of a history up to the commands of a first workflow task, and with them.
use temporal_cpp.Prelude.{
  ℕ, ◌≡◌, refl, sym, ap, ◌∙◌, inl, String, Bool, false, List, [], ◌∷◌, ◌++◌, Map, arith,
}
use mathlib.Core.Path.{subst}
use temporal_cpp.History.{
  Payload, Payloads, Attributes, Event, Prescan, no_scan, workflow_started, workflow_signaled,
  workflow_cancel_requested, other,
}
use temporal_cpp.History.Scan.{scan_attributes, scan_event, scan_from, scan_history, deliver_signal}
use temporal_cpp.Runner.{Command}
use temporal_cpp.Workflow.Supported.{IsBlank, Records, recorded_from, AllPlain}
use temporal_cpp.Workflow.Recorded.{Scanned, scan_from-Scanned}

-- The events that can stand before the commands of the first workflow task.
pub data IsOpening : Attributes → Type 0 where
  started :
      (type : String) (input : Payloads) (headers : Map String Payload)
      → IsOpening (workflow_started type input headers)
  signaled : (name : String) (args : Payloads) → IsOpening (workflow_signaled name args)
  cancel_requested : IsOpening workflow_cancel_requested
  task : IsOpening other

abbrev pub AllOpening : List Event → Type 0
AllOpening [] = Unit {0}
AllOpening (ev ∷ evs) = IsOpening ev.attributes × AllOpening evs

pub record IsClean (ps : Prescan) : Type 0 where
  pub blank : IsBlank ps
  pub no_commands : ps.commands ≡ []
  pub no_versions : ps.version_markers ≡ []
  pub no_changes : ps.mutable_side_effect_markers ≡ []
  pub no_timeline : ps.post_update_timeline ≡ []

pub no_scan-IsClean : IsClean no_scan
unfolding no_scan
no_scan-IsClean = record {
  blank = record {
    no_activities = λ id. refl;
    no_timers = λ id. refl;
    no_children = λ id. refl;
    no_ext_signals = refl;
    no_upserts = refl;
    no_side_effects = refl;
  };
  no_commands = refl;
  no_versions = refl;
  no_changes = refl;
  no_timeline = refl;
}

unfoldable pub Opened : Prescan × Bool → Type 0
Opened st = IsClean st.0 × (st.1 ≡ false)

scan_event-Opened :
    (i : ℕ) {a : Attributes} (st : Prescan × Bool)
    → IsOpening a
    → Opened st
    → Opened (scan_event (record { event_id = i; attributes = a }) st)
unfolding Opened scan_event scan_attributes deliver_signal
scan_event-Opened i st (started type input headers) h = ground arith
scan_event-Opened i st (signaled name args) h = ground arith
scan_event-Opened i st cancel_requested h = ground arith
scan_event-Opened i st task h = ground arith

pub scan_from-Opened :
    (opening : List Event) (st : Prescan × Bool)
    → AllOpening opening
    → Opened st
    → Opened (scan_from opening st)
unfolding scan_from
scan_from-Opened [] st a h = h
scan_from-Opened (ev ∷ evs) st a h =
    scan_from-Opened evs (scan_event ev st) a.1 (scan_event-Opened ev.event_id st a.0 h)

scan_from-append :
    (xs ys : List Event) (st : Prescan × Bool)
    → scan_from (xs ++ ys) st ≡ scan_from ys (scan_from xs st)
unfolding scan_from
scan_from-append [] ys st = refl
scan_from-append (x ∷ xs) ys st = scan_from-append xs ys (scan_event x st)

pub clean-Scanned : (ps : Prescan) → IsClean ps → Scanned ps ps []
clean-Scanned ps h = record {
  marked = record {
    activities = λ id. inl (h.blank.no_activities id);
    timers = λ id. inl (h.blank.no_timers id);
    children = λ id. inl (h.blank.no_children id);
  };
  scheduled = tt;
  ext_signals = sym h.blank.no_ext_signals;
  upserts = sym h.blank.no_upserts;
  side_effects = sym h.blank.no_side_effects;
  commands = h.no_commands;
  same_signals = refl;
  same_cancel = refl;
  same_headers = refl;
  no_versions = h.no_versions;
  no_changes = h.no_changes;
  no_timeline = h.no_timeline;
}

pub scan_history-Scanned :
    (opening : List Event) (i : ℕ) (cs : List Command)
    → AllOpening opening
    → AllPlain cs
    → Scanned (scan_history opening) (scan_history (opening ++ recorded_from i cs)) cs
unfolding scan_history Opened
scan_history-Scanned opening i cs o p =
    let st = scan_from opening (no_scan, false) in
    let h : Opened st = scan_from-Opened opening (no_scan, false) o (no_scan-IsClean, refl) in
    let e : scan_from (opening ++ recorded_from i cs) (no_scan, false)
        ≡ scan_from (recorded_from i cs) (st.0, false) =
      scan_from-append opening (recorded_from i cs) (no_scan, false)
      ∙ ap (λ b. scan_from (recorded_from i cs) (st.0, b)) h.1 in
    subst (λ s. Scanned st.0 s.0 cs) (sym e)
      (scan_from-Scanned st.0 i st.0 [] cs p (clean-Scanned st.0 h.0))

pub Scanned-Records : {ps₀ ps : Prescan} {cs : List Command} → Scanned ps₀ ps cs → Records ps cs
Scanned-Records s = record {
  scheduled = s.scheduled;
  ext_signals = s.ext_signals;
  upserts = s.upserts;
  side_effects = s.side_effects;
}
