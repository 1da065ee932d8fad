-- ===== src/Workflow/Recorded.antt =====
-- What ScanHistory collects from a history that records the commands of a supported body.
use temporal_cpp.Prelude.{
  ℕ, suc, ◌+◌, ◌≡◌, refl, sym, ap, ◌∙◌, true, false, List, [], ◌∷◌, ◌++◌, map, arith, append_assoc,
  append-nil, string_key,
}
use mathlib.Core.Path.{subst}
use mathlib.Core.List.{map-append}
use temporal_cpp.Determinism.{Kind}
use temporal_cpp.History.{
  Payload, Attributes, ActivityOutcome, TimerOutcome, ChildOutcome, no_activity, no_timer, no_child,
  Prescan, details_of,
}
use temporal_cpp.History.Scan.{
  scan_attributes, scan_event, scan_from, is_deferred_on_replay, is_update, scan_activity_scheduled,
  update_timer, update_child, scan_marker-SideEffect,
}
use temporal_cpp.Runner.{Command}
use temporal_cpp.Runner.Agreement.{scheduled_only}
use temporal_cpp.Workflow.Supported.{
  event_of, recorded_as, recorded_from, is_signal, is_upsert, total, values, value_of, Holds,
  AllHold, IsPlain, AllPlain, started_only, initiated_only, activity, timer, child, signal, upserts,
  effect,
}
use temporal_cpp.Workflow.Live.{total-append, values-append}
use temporal_cpp.Workflow.Marks.{
  Marked, Keeps, modify-IsMarked, modify_self, modify-keeps, AllHold-mono, AllHold-snoc,
}

-- `ps` is the scan `ps₀` after the events that record the commands `cs`.
pub record Scanned (ps₀ ps : Prescan) (cs : List Command) : Type 0 where
  pub marked : Marked ps
  pub scheduled : AllHold ps cs
  pub ext_signals : total is_signal cs ≡ ps.ext_signals_initiated
  pub upserts : total is_upsert cs ≡ ps.upserts_initiated
  pub side_effects : values cs ≡ ps.side_effects
  pub commands : ps.commands ≡ map event_of cs
  pub same_signals : ps.signals ≡ ps₀.signals
  pub same_cancel : ps.cancel_requested ≡ ps₀.cancel_requested
  pub same_headers : ps.headers ≡ ps₀.headers
  pub no_versions : ps.version_markers ≡ []
  pub no_changes : ps.mutable_side_effect_markers ≡ []
  pub no_timeline : ps.post_update_timeline ≡ []

module _ (ps₀ : Prescan) (i : ℕ) where
  after : Attributes → Prescan → Prescan
  after a ps = scan_attributes i a (record ps { last_event_id = i })

  abbrev with_effect : Payload → Prescan → Prescan
  with_effect v ps = record ps {
    last_event_id = i;
    side_effects = ps.side_effects ++ v ∷ [];
    commands = ps.commands ++ record { kind = Kind.marker; id = "SideEffect"; name = "" } ∷ [];
  }

  -- What a recorded command leaves as it was.
  abbrev Alike : Prescan → Prescan → Type 0
  Alike ps ps' =
      (ps'.signals ≡ ps.signals)
      × (ps'.cancel_requested ≡ ps.cancel_requested)
      × (ps'.headers ≡ ps.headers)
      × (ps'.version_markers ≡ ps.version_markers)
      × (ps'.mutable_side_effect_markers ≡ ps.mutable_side_effect_markers)
      × (ps'.post_update_timeline ≡ ps.post_update_timeline)

  extend-Scanned :
      (ps ps' : Prescan) (cs : List Command) (c : Command)
      → Scanned ps₀ ps cs
      → Marked ps'
      → Keeps ps ps'
      → Holds ps' c
      → ps'.ext_signals_initiated ≡ is_signal c + ps.ext_signals_initiated
      → ps'.upserts_initiated ≡ is_upsert c + ps.upserts_initiated
      → ps'.side_effects ≡ ps.side_effects ++ value_of c
      → ps'.commands ≡ ps.commands ++ event_of c ∷ []
      → Alike ps ps'
      → Scanned ps₀ ps' (cs ++ c ∷ [])
  extend-Scanned ps ps' cs c s marks keep holds e u v w same = record {
    marked = marks;
    scheduled = AllHold-snoc ps' cs c (AllHold-mono ps ps' cs keep s.scheduled) holds;
    ext_signals = omega (arith, total-append is_signal cs (c ∷ []), s.ext_signals, e);
    upserts = omega (arith, total-append is_upsert cs (c ∷ []), s.upserts, u);
    side_effects =
        values-append cs (c ∷ [])
        ∙ ap (λ l. values cs ++ l) (append-nil (value_of c))
        ∙ ap (λ l. l ++ value_of c) s.side_effects
        ∙ sym v;
    commands =
        w ∙ ap (λ l. l ++ event_of c ∷ []) s.commands ∙ sym (map-append event_of cs (c ∷ []));
    same_signals = same.0 ∙ s.same_signals;
    same_cancel = same.1 ∙ s.same_cancel;
    same_headers = same.2 ∙ s.same_headers;
    no_versions = same.3 ∙ s.no_versions;
    no_changes = same.4 ∙ s.no_changes;
    no_timeline = same.5 ∙ s.no_timeline;
  }

  plain-Scanned :
      (ps : Prescan) (cs : List Command) {c : Command}
      → IsPlain c
      → Scanned ps₀ ps cs
      → Scanned ps₀ (after (recorded_as c) ps) (cs ++ c ∷ [])
  unfolding after scan_attributes scan_activity_scheduled update_timer update_child recorded_as
      details_of event_of
  plain-Scanned ps cs (activity a) s =
      let mark : ActivityOutcome → ActivityOutcome = λ o. record o { scheduled = true } in
      let m = s.marked in
      let marks =
        modify-IsMarked no_activity scheduled_only mark refl refl a.activity_id ps.activities
          m.activities in
      let keeps =
        modify-keeps no_activity scheduled_only mark refl refl a.activity_id ps.activities
          m.activities in
      let now =
        modify_self no_activity scheduled_only mark refl refl a.activity_id ps.activities
          m.activities in
      extend-Scanned ps (after (recorded_as (Command.schedule_activity a)) ps) cs
        (Command.schedule_activity a) s
        (record { activities = marks; timers = m.timers; children = m.children })
        (record { activities = keeps; timers = λ id e. e; children = λ id e. e }) now (omega arith)
        (omega arith) (sym (append-nil ps.side_effects)) refl (refl, refl, refl, refl, refl, refl)
  plain-Scanned ps cs (timer id duration) s =
      let mark : TimerOutcome → TimerOutcome = λ o. record o { started = true } in
      let m = s.marked in
      let marks = modify-IsMarked no_timer started_only mark refl refl id ps.timers m.timers in
      let keeps = modify-keeps no_timer started_only mark refl refl id ps.timers m.timers in
      let now = modify_self no_timer started_only mark refl refl id ps.timers m.timers in
      extend-Scanned ps (after (recorded_as (Command.start_timer id duration)) ps) cs
        (Command.start_timer id duration) s
        (record { timers = marks; activities = m.activities; children = m.children })
        (record { timers = keeps; activities = λ id e. e; children = λ id e. e }) now (omega arith)
        (omega arith) (sym (append-nil ps.side_effects)) refl (refl, refl, refl, refl, refl, refl)
  plain-Scanned ps cs (child a) s =
      let mark : ChildOutcome → ChildOutcome = λ o. record o { initiated = true } in
      let m = s.marked in
      let marks =
        modify-IsMarked no_child initiated_only mark refl refl a.workflow_id ps.children
          m.children in
      let keeps =
        modify-keeps no_child initiated_only mark refl refl a.workflow_id ps.children m.children in
      let now =
        modify_self no_child initiated_only mark refl refl a.workflow_id ps.children m.children in
      extend-Scanned ps (after (recorded_as (Command.start_child a)) ps) cs (Command.start_child a)
        s (record { children = marks; activities = m.activities; timers = m.timers })
        (record { children = keeps; activities = λ id e. e; timers = λ id e. e }) now (omega arith)
        (omega arith) (sym (append-nil ps.side_effects)) refl (refl, refl, refl, refl, refl, refl)
  plain-Scanned ps cs (signal ns id name input) s =
      let c = Command.signal_external ns id name input in
      extend-Scanned ps (after (recorded_as c) ps) cs c s
        (record {
          activities = s.marked.activities;
          timers = s.marked.timers;
          children = s.marked.children;
        })
        (record { activities = λ id e. e; timers = λ id e. e; children = λ id e. e }) tt
        (omega arith) (omega arith) (sym (append-nil ps.side_effects)) refl
        (refl, refl, refl, refl, refl, refl)
  plain-Scanned ps cs (upserts attributes) s =
      let c = Command.upsert_search_attributes attributes in
      extend-Scanned ps (after (recorded_as c) ps) cs c s
        (record {
          activities = s.marked.activities;
          timers = s.marked.timers;
          children = s.marked.children;
        })
        (record { activities = λ id e. e; timers = λ id e. e; children = λ id e. e }) tt
        (omega arith) (omega arith) (sym (append-nil ps.side_effects)) refl
        (refl, refl, refl, refl, refl, refl)
  plain-Scanned ps cs (effect id v) s =
      let c = Command.record_marker "SideEffect" (("side-effect-id", id) ∷ ("data", v ∷ []) ∷ []) in
      let e : after (recorded_as c) ps ≡ with_effect v ps =
        scan_marker-SideEffect (details_of (("side-effect-id", id) ∷ ("data", v ∷ []) ∷ [])) v
          (record ps { last_event_id = i }) refl in
      subst (λ p. Scanned ps₀ p (cs ++ c ∷ [])) (sym e)
        (extend-Scanned ps (with_effect v ps) cs c s
          (record {
            activities = s.marked.activities;
            timers = s.marked.timers;
            children = s.marked.children;
          })
          (record { activities = λ id e. e; timers = λ id e. e; children = λ id e. e }) tt
          (omega arith) (omega arith) refl refl (refl, refl, refl, refl, refl, refl))

module _ (ps₀ : Prescan) where
  not_deferred : {c : Command} → IsPlain c → is_deferred_on_replay (recorded_as c) ≡ false
  unfolding is_deferred_on_replay recorded_as
  not_deferred (activity a) = refl
  not_deferred (timer id duration) = refl
  not_deferred (child a) = refl
  not_deferred (signal ns id name input) = refl
  not_deferred (upserts attributes) = refl
  not_deferred (effect id v) = refl

  not_update : {c : Command} → IsPlain c → is_update (recorded_as c) ≡ false
  unfolding recorded_as
  not_update (activity a) = refl
  not_update (timer id duration) = refl
  not_update (child a) = refl
  not_update (signal ns id name input) = refl
  not_update (upserts attributes) = refl
  not_update (effect id v) = refl

  scan_event-plain :
      (i : ℕ) (ps : Prescan) {c : Command}
      → IsPlain c
      → scan_event (record { event_id = i; attributes = recorded_as c }) (ps, false)
        ≡ (scan_attributes i (recorded_as c) (record ps { last_event_id = i }), false)
  unfolding scan_event
  scan_event-plain i ps p = rw (not_update p)

  pub scan_from-Scanned :
      (i : ℕ) (ps : Prescan) (before cs : List Command)
      → AllPlain cs
      → Scanned ps₀ ps before
      → Scanned ps₀ (scan_from (recorded_from i cs) (ps, false)).0 (before ++ cs)
  unfolding scan_from recorded_from after
  scan_from-Scanned i ps before [] p s = subst (Scanned ps₀ ps) (sym (append-nil before)) s
  scan_from-Scanned i ps before (c ∷ cs) p s =
      subst (λ st. Scanned ps₀ (scan_from (recorded_from (suc i) cs) st).0 (before ++ c ∷ cs))
        (sym (scan_event-plain i ps p.0))
        (subst (Scanned ps₀ _) (append_assoc before (c ∷ []) cs) (
          scan_from-Scanned (suc i)
            (scan_attributes i (recorded_as c) (record ps { last_event_id = i })) (before ++ c ∷ [])
            cs p.1 (plain-Scanned ps₀ i ps before p.0 s)))
