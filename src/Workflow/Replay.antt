-- ===== src/Workflow/Replay.antt =====
-- A first execution and its replay, call by call.
use temporal_cpp.Prelude.{
  ℕ, ◌≡◌, refl, sym, ap, ◌∙◌, inl, inr, String, true, false, none, some, List, [], ◌++◌, map, Map,
  append-nil, Bool-cases, insert, string_key,
}
use temporal_cpp.Determinism.{CommandEvent}
use temporal_cpp.History.{Payload, Prescan}
use temporal_cpp.Runner.{Runner}
use temporal_cpp.Runner.Calls.{has_signal, try_consume_signal}
use temporal_cpp.Runner.Calls
use temporal_cpp.Runner.Markers.{Converter, side_effect}
use temporal_cpp.Workflow.{
  Body, Execution, Handler, resume, finished, finish, raise, continue_as_new, execute_activity,
  new_timer, execute_child, await_cancellation, signal_external, upsert, get, is_ready, receive,
  receive_async, has_pending, is_cancel_requested, write, read, set_update_handler, select, Cases,
  no_default, default_case, on_future, on_receive, resume_cases,
}
use temporal_cpp.Workflow
use temporal_cpp.Workflow.Waits.{received, receive-eq, get-eq, parked, on_future-eq, on_receive-eq}
use temporal_cpp.Workflow.Supported.{Supported, SupportedCases, Records, event_of}
use mathlib.Core.Path.{subst}
use temporal_cpp.Workflow.Live.{
  replayed, IsFirst, Runs, Runs-Sends, Runs-Silent, replayed_execution,
}
use temporal_cpp.Workflow.Sends.{
  schedule_activity-Sends, start_timer-Sends, start_child_workflow-Sends, signal_external-Sends,
  upsert-Sends,
}
use temporal_cpp.Workflow.Effects.{side_effect-Sends}
use temporal_cpp.Workflow.Silent.{
  await_cancellation-Silent, receive-Silent, reads-Silent, has_signal-same,
}

module _ (ps : Prescan) (c : Converter) (fresh fresh' : ℕ → Payload) {U : Type 0} where
  -- An execution that parks, or ends with one terminal command.
  Runs-rest :
      (f : Runner → Execution U) (r : Runner) (tail : List CommandEvent)
      → IsFirst ps r
      → (f r).runner.commands ≡ r.commands
      → (f r).runner.produced_commands ≡ r.produced_commands ++ tail
      → (f r).runner.scan ≡ r.scan
      → f (replayed ps r) ≡ replayed_execution ps (f r)
      → Runs ps f f r
  Runs-rest f r tail v ec ep es er = record {
    more = [];
    tail = tail;
    plain = tt;
    sent = ec ∙ sym (append-nil r.commands);
    produces = ep ∙ ap (λ l. l ++ tail) (v.produced ∙ ap (map event_of) (sym ec));
    no_timeline = ap (λ s. s.post_update_timeline) es ∙ v.no_timeline;
    replays = λ rec. er;
  }

  Runs-cong :
      (f f' g g' : Runner → Execution U) (r : Runner)
      → f r ≡ g r
      → f' (replayed ps r) ≡ g' (replayed ps r)
      → Runs ps g g' r
      → Runs ps f f' r
  Runs-cong f f' g g' r e e' runs = record {
    more = runs.more;
    tail = runs.tail;
    plain = runs.plain;
    sent = ap (λ x. x.runner.commands) e ∙ runs.sent;
    produces =
        ap (λ x. x.runner.produced_commands) e
        ∙ runs.produces
        ∙ ap (λ x. map event_of x.runner.commands ++ runs.tail) (sym e);
    no_timeline = ap (λ x. x.runner.scan.post_update_timeline) e ∙ runs.no_timeline;
    replays = λ rec.
        e'
        ∙ runs.replays (subst (λ x. Records ps x.runner.commands) e rec)
        ∙ ap (replayed_execution ps) (sym e);
  }

  mutual
    unfolding resume finished

    pub resume-Runs :
        (b : Body U) (r : Runner) (u : U) (hs : Map String (Handler U))
        → Supported b
        → IsFirst ps r
        → Runs ps (λ r₀. resume c fresh b r₀ u hs) (λ r₀. resume c fresh' b r₀ u hs) r
    resume-Runs (finish result) r u hs s v = Runs-rest _ r _ v refl refl refl refl
    resume-Runs (raise failure) r u hs s v = Runs-rest _ r _ v refl refl refl refl
    resume-Runs (continue_as_new type input) r u hs s v = Runs-rest _ r _ v refl refl refl refl
    resume-Runs (execute_activity type input options k) r u hs s v =
        let op = schedule_activity-Sends ps r v type input options in
        Runs-Sends ps (Calls.schedule_activity type input options)
          (Calls.schedule_activity type input options) (λ h r₀. resume c fresh (k h) r₀ u hs)
          (λ h r₀. resume c fresh' (k h) r₀ u hs) r op (resume-Runs (k _) _ u hs (s _) op.first)
    resume-Runs (new_timer duration k) r u hs s v =
        let op = start_timer-Sends ps r v duration in
        Runs-Sends ps (Calls.start_timer duration) (Calls.start_timer duration)
          (λ h r₀. resume c fresh (k h) r₀ u hs) (λ h r₀. resume c fresh' (k h) r₀ u hs) r op
          (resume-Runs (k _) _ u hs (s _) op.first)
    resume-Runs (execute_child type input options k) r u hs s v =
        let op = start_child_workflow-Sends ps r v type input options in
        Runs-Sends ps (Calls.start_child_workflow type input options)
          (Calls.start_child_workflow type input options) (λ h r₀. resume c fresh (k h) r₀ u hs)
          (λ h r₀. resume c fresh' (k h) r₀ u hs) r op (resume-Runs (k _) _ u hs (s _) op.first)
    resume-Runs (await_cancellation k) r u hs s v =
        let op = await_cancellation-Silent ps r v in
        Runs-Silent ps Calls.await_cancellation (λ h r₀. resume c fresh (k h) r₀ u hs)
          (λ h r₀. resume c fresh' (k h) r₀ u hs) r op (resume-Runs (k _) _ u hs (s _) op.first)
    resume-Runs (signal_external id name input k) r u hs s v =
        let op = signal_external-Sends ps r v id name input in
        Runs-Sends ps (λ r₀. (tt, Calls.signal_external_workflow id name input r₀))
          (λ r₀. (tt, Calls.signal_external_workflow id name input r₀))
          (λ h r₀. resume c fresh k r₀ u hs) (λ h r₀. resume c fresh' k r₀ u hs) r op
          (resume-Runs k _ u hs s op.first)
    resume-Runs (upsert attributes k) r u hs s v =
        let op = upsert-Sends ps r v attributes in
        Runs-Sends ps (λ r₀. (tt, Calls.upsert_search_attributes attributes r₀))
          (λ r₀. (tt, Calls.upsert_search_attributes attributes r₀))
          (λ h r₀. resume c fresh k r₀ u hs) (λ h r₀. resume c fresh' k r₀ u hs) r op
          (resume-Runs k _ u hs s op.first)
    resume-Runs (get h k) r u hs s v =
        let f = λ (r₀ : Runner). resume c fresh (get h k) r₀ u hs in
        let f' = λ (r₀ : Runner). resume c fresh' (get h k) r₀ u hs in
        let p = parked c (get h k) u hs in
        elim (Bool-cases (r.futures h).ready) [
          | inl e ↦
              Runs-cong f f' (λ r₀. resume c fresh (k (r.futures h)) r₀ u hs)
                (λ r₀. resume c fresh' (k (r.futures h)) r₀ u hs) r
                (get-eq c fresh h k r u hs true e) (get-eq c fresh' h k (replayed ps r) u hs true e)
                (resume-Runs (k (r.futures h)) r u hs (s (r.futures h)) v)
          | inr e ↦
              Runs-cong f f' p p r (get-eq c fresh h k r u hs false e)
                (get-eq c fresh' h k (replayed ps r) u hs false e)
                (Runs-rest p r [] v refl (sym (append-nil r.produced_commands)) refl refl)
        ]
    resume-Runs (is_ready h k) r u hs s v =
        Runs-Silent ps (λ r₀. ((r₀.futures h).ready, r₀)) (λ b r₀. resume c fresh (k b) r₀ u hs)
          (λ b r₀. resume c fresh' (k b) r₀ u hs) r
          (reads-Silent ps r v (λ r₀. (r₀.futures h).ready) refl) (resume-Runs (k _) r u hs (s _) v)
    resume-Runs (receive name k) r u hs s v =
        let op = receive-Silent ps r v name in
        let taken = (try_consume_signal name r).0 in
        let r₁ = (try_consume_signal name r).1 in
        let g = received c fresh name k u hs in
        let g' = received c fresh' name k u hs in
        Runs-cong (λ r₀. resume c fresh (receive name k) r₀ u hs)
          (λ r₀. resume c fresh' (receive name k) r₀ u hs)
          (λ r₀. g (try_consume_signal name r₀).0 (try_consume_signal name r₀).1)
          (λ r₀. g' (try_consume_signal name r₀).0 (try_consume_signal name r₀).1) r
          (receive-eq c fresh name k r u hs) (receive-eq c fresh' name k (replayed ps r) u hs)
          (Runs-Silent ps (try_consume_signal name) g g' r op
            (elim taken as (λ t. Runs ps (g t) (g' t) r₁) [
              | none ↦
                  Runs-rest (g none) r₁ [] op.first refl (sym (append-nil r₁.produced_commands))
                    refl refl
              | some args ↦ resume-Runs (k args) r₁ u hs (s args) op.first
            ]))
    resume-Runs (receive_async name k) r u hs s v =
        let op = receive-Silent ps r v name in
        Runs-Silent ps (try_consume_signal name) (λ h r₀. resume c fresh (k h) r₀ u hs)
          (λ h r₀. resume c fresh' (k h) r₀ u hs) r op (resume-Runs (k _) _ u hs (s _) op.first)
    resume-Runs (has_pending name k) r u hs s v =
        Runs-Silent ps (λ r₀. (has_signal name r₀, r₀)) (λ b r₀. resume c fresh (k b) r₀ u hs)
          (λ b r₀. resume c fresh' (k b) r₀ u hs) r
          (reads-Silent ps r v (has_signal name) (has_signal-same ps r v name))
          (resume-Runs (k _) r u hs (s _) v)
    resume-Runs (is_cancel_requested k) r u hs s v =
        Runs-Silent ps (λ r₀. (r₀.scan.cancel_requested, r₀)) (λ b r₀. resume c fresh (k b) r₀ u hs)
          (λ b r₀. resume c fresh' (k b) r₀ u hs) r
          (reads-Silent ps r v (λ r₀. r₀.scan.cancel_requested) (sym v.same_cancel))
          (resume-Runs (k _) r u hs (s _) v)
    resume-Runs (Workflow.side_effect k) r u hs s v =
        let op = side_effect-Sends ps r v c fresh fresh' in
        Runs-Sends ps (λ r₀. side_effect c (fresh r₀.side_effect_seq) r₀)
          (λ r₀. side_effect c (fresh' r₀.side_effect_seq) r₀)
          (λ h r₀. resume c fresh (k h) r₀ u hs) (λ h r₀. resume c fresh' (k h) r₀ u hs) r op
          (resume-Runs (k _) _ u hs (s _) op.first)
    resume-Runs (write f k) r u hs s v = resume-Runs k r (f u) hs s v
    resume-Runs (read k) r u hs s v = resume-Runs (k u) r u hs (s u) v
    resume-Runs (select cases) r u hs s v = resume_cases-Runs cases cases r u hs s v
    resume-Runs (set_update_handler name handler k) r u hs s v =
        resume-Runs k r u (insert name handler hs) s v
    resume-Runs _ r u hs s v = elim s [ ]

    pub resume_cases-Runs :
        (cs cases : Cases U) (r : Runner) (u : U) (hs : Map String (Handler U))
        → SupportedCases cs
        → IsFirst ps r
        → Runs ps
            (λ r₀. resume_cases c fresh cs cases r₀ u hs)
            (λ r₀. resume_cases c fresh' cs cases r₀ u hs)
            r
    resume_cases-Runs no_default cases r u hs s v =
        Runs-rest (parked c (select cases) u hs) r [] v refl (sym (append-nil r.produced_commands))
          refl refl
    resume_cases-Runs (default_case k) cases r u hs s v = resume-Runs k r u hs s v
    resume_cases-Runs (on_future h k rest) cases r u hs s v =
        let f = λ (r₀ : Runner). resume_cases c fresh (on_future h k rest) cases r₀ u hs in
        let f' = λ (r₀ : Runner). resume_cases c fresh' (on_future h k rest) cases r₀ u hs in
        elim (Bool-cases (r.futures h).ready) [
          | inl e ↦
              Runs-cong f f' (λ r₀. resume c fresh (k (r.futures h)) r₀ u hs)
                (λ r₀. resume c fresh' (k (r.futures h)) r₀ u hs) r
                (on_future-eq c fresh h k rest cases r u hs true e)
                (on_future-eq c fresh' h k rest cases (replayed ps r) u hs true e)
                (resume-Runs (k (r.futures h)) r u hs (s.0 (r.futures h)) v)
          | inr e ↦
              Runs-cong f f' (λ r₀. resume_cases c fresh rest cases r₀ u hs)
                (λ r₀. resume_cases c fresh' rest cases r₀ u hs) r
                (on_future-eq c fresh h k rest cases r u hs false e)
                (on_future-eq c fresh' h k rest cases (replayed ps r) u hs false e)
                (resume_cases-Runs rest cases r u hs s.1 v)
        ]
    resume_cases-Runs (on_receive name k rest) cases r u hs s v =
        let f = λ (r₀ : Runner). resume_cases c fresh (on_receive name k rest) cases r₀ u hs in
        let f' = λ (r₀ : Runner). resume_cases c fresh' (on_receive name k rest) cases r₀ u hs in
        let same = has_signal-same ps r v name in
        let op = receive-Silent ps r v name in
        let r₁ = (try_consume_signal name r).1 in
        let g = received c fresh name k u hs in
        let g' = received c fresh' name k u hs in
        elim (Bool-cases (has_signal name r)) [
          | inl e ↦
              Runs-cong f f' (λ r₀. g (try_consume_signal name r₀).0 (try_consume_signal name r₀).1)
                (λ r₀. g' (try_consume_signal name r₀).0 (try_consume_signal name r₀).1) r
                (on_receive-eq c fresh name k rest cases r u hs true e)
                (on_receive-eq c fresh' name k rest cases (replayed ps r) u hs true (same ∙ e))
                (Runs-Silent ps (try_consume_signal name) g g' r op
                  (elim (try_consume_signal name r).0 as (λ t. Runs ps (g t) (g' t) r₁) [
                    | none ↦
                        Runs-rest (g none) r₁ [] op.first refl
                          (sym (append-nil r₁.produced_commands)) refl refl
                    | some args ↦ resume-Runs (k args) r₁ u hs (s.0 args) op.first
                  ]))
          | inr e ↦
              Runs-cong f f' (λ r₀. resume_cases c fresh rest cases r₀ u hs)
                (λ r₀. resume_cases c fresh' rest cases r₀ u hs) r
                (on_receive-eq c fresh name k rest cases r u hs false e)
                (on_receive-eq c fresh' name k rest cases (replayed ps r) u hs false (same ∙ e))
                (resume_cases-Runs rest cases r u hs s.1 v)
        ]
