-- ===== src/Tasks/Parks.antt =====
-- A body that was resumed has ended, or it waits for something that resuming it again does not bring.
use temporal_cpp.Prelude.{
  Option, ℕ, String, true, false, none, some, List, ◌≡◌, refl, sym, ap, ◌∙◌, fun_ext, insert,
  or_else, Option-cases, Bool-cases, inl, inr, ◌==◌, string_key, get_elem?, Map, insert_self,
}
use mathlib.Core.Path.{subst}
use temporal_cpp.History.{Payload, Payloads}
use temporal_cpp.Runner.{Runner}
use temporal_cpp.Runner.Markers.{Converter}
use temporal_cpp.Runner.Calls
use temporal_cpp.Workflow.{
  Execution, Body, resume, resume_coroutine, reapply_historical_updates, is_done, Handler, finish,
  raise, continue_as_new, execute_activity, new_timer, execute_child, execute_nexus, cancel,
  cancel_external, signal_external, upsert, get, is_ready, receive, receive_async, has_pending,
  is_cancel_requested, await_cancellation, side_effect, get_version, local_activity, write, read,
  set_update_handler, select, Cases, no_default, default_case, on_future, on_receive, resume_cases,
}
use temporal_cpp.Workflow.Waits.{received, receive-eq, get-eq, on_future-eq, on_receive-eq}
use temporal_cpp.Tasks.Messages.{UserHandlers, UpdateMessage, process_messages}
use temporal_cpp.Tasks.Reapplied.{Parked, Parked-reapplied, accepted}

-- A cursor that is put in twice.
insert-again : (k : String) (v : ℕ) (m : Map String ℕ) → insert k v (insert k v m) ≡ insert k v m
insert-again k v m =
    fun_ext λ j. elim (Bool-cases (j == k)) [ inl e ↦ rw e refl | inr n ↦ rw n refl ]

-- A signal that has not come: the cursor is put in as it stands.
try_consume_signal-none :
    (name : String) (r : Runner) (queue : List Payloads) (cursor : ℕ)
    → r.scan.signals name ≡ some queue
    → or_else 0 (r.signal_cursor name) ≡ cursor
    → get_elem? queue cursor ≡ none
    → Calls.try_consume_signal name r
      ≡ (none, record r { signal_cursor = insert name cursor r.signal_cursor })
unfolding Calls.try_consume_signal
try_consume_signal-none name r queue cursor q at_cursor g =
    let none_yet = ap (get_elem? queue) at_cursor ∙ g in
    rw (q, none_yet, Calls.try_consume_signal)
      (ap (λ k. (none, record r { signal_cursor = insert name k r.signal_cursor })) at_cursor)

try_consume_signal-again :
    (name : String) (r : Runner)
    → (Calls.try_consume_signal name r).0 ≡ none
    → Calls.try_consume_signal name (Calls.try_consume_signal name r).1
      ≡ (none, (Calls.try_consume_signal name r).1)
unfolding Calls.try_consume_signal
try_consume_signal-again name r e = elim (Option-cases (r.scan.signals name)) [
  | inl q ↦
      let t : Calls.try_consume_signal name r ≡ (none, r) = rw (q, Calls.try_consume_signal) refl in
      rw t t
  | inr (queue, q) ↦
      let cursor = or_else 0 (r.signal_cursor name) in
      let touched = record r { signal_cursor = insert name cursor r.signal_cursor } in
      elim (Option-cases (get_elem? queue cursor)) [
        | inr (args, g) ↦
            let t : (Calls.try_consume_signal name r).0 ≡ some args =
              rw (q, g, Calls.try_consume_signal) refl in
            absurd cc
        | inl g ↦
            let t = try_consume_signal-none name r queue cursor q refl g in
            let found : or_else 0 (touched.signal_cursor name) ≡ cursor =
              ap (or_else 0) (insert_self name cursor r.signal_cursor) in
            let same = insert-again name cursor r.signal_cursor in
            let again : Calls.try_consume_signal name touched ≡ (none, touched) =
              try_consume_signal-none name touched queue cursor q found g
              ∙ ap (λ m. (none, record r { signal_cursor = m })) same in
            ap (λ p. Calls.try_consume_signal name p.1) t ∙ again ∙ ap (λ p. (none, p.1)) (sym t)
      ]
]

module _ (c : Converter) (fresh : ℕ → Payload) {U : Type 0} where
  received-Parked :
      (name : String) (k : Payloads → Body U) (r : Runner) (u : U) (hs : Map String (Handler U))
      (taken : Option Payloads)
      → (Calls.try_consume_signal name r).0 ≡ taken
      → ((args : Payloads)
          → is_done c fresh (resume c fresh (k args) (Calls.try_consume_signal name r).1 u hs)
            ≡ false
          → Parked c fresh (resume c fresh (k args) (Calls.try_consume_signal name r).1 u hs))
      → is_done c fresh (received c fresh name k u hs taken (Calls.try_consume_signal name r).1)
        ≡ false
      → Parked c fresh (received c fresh name k u hs taken (Calls.try_consume_signal name r).1)
  received-Parked name k r u hs none e each h = (
    h,
    λ v.
        receive-eq c fresh name k (Calls.try_consume_signal name r).1 v hs
        ∙ ap (λ p. received c fresh name k v hs p.0 p.1) (try_consume_signal-again name r e),
  )
  received-Parked name k r u hs (some args) e each h = each args h

  mutual
    unfolding resume

    resume-Parked :
        (b : Body U) (r : Runner) (u : U) (hs : Map String (Handler U))
        → is_done c fresh (resume c fresh b r u hs) ≡ false
        → Parked c fresh (resume c fresh b r u hs)
    resume-Parked (finish result) r u hs h = absurd cc
    resume-Parked (raise failure) r u hs h = absurd cc
    resume-Parked (continue_as_new type input) r u hs h = absurd cc
    resume-Parked (execute_activity type input options k) r u hs h = resume-Parked (k _) _ u hs h
    resume-Parked (new_timer duration k) r u hs h = resume-Parked (k _) _ u hs h
    resume-Parked (execute_child type input options k) r u hs h = resume-Parked (k _) _ u hs h
    resume-Parked (execute_nexus endpoint service operation input timeout k) r u hs h =
        resume-Parked (k _) _ u hs h
    resume-Parked (cancel n k) r u hs h = resume-Parked k _ u hs h
    resume-Parked (cancel_external id k) r u hs h = resume-Parked k _ u hs h
    resume-Parked (signal_external id name input k) r u hs h = resume-Parked k _ u hs h
    resume-Parked (upsert attributes k) r u hs h = resume-Parked k _ u hs h
    resume-Parked (get n k) r u hs h = elim (Bool-cases (r.futures n).ready) [
      | inl e ↦
          let eq = get-eq c fresh n k r u hs true e in
          subst (Parked c fresh) (sym eq)
            (resume-Parked (k (r.futures n)) r u hs (ap (is_done c fresh) (sym eq) ∙ h))
      | inr e ↦
          let eq = λ (v : U). get-eq c fresh n k r v hs false e in
          subst (Parked c fresh) (sym (eq u)) (ap (is_done c fresh) (sym (eq u)) ∙ h, eq)
    ]
    resume-Parked (is_ready n k) r u hs h = resume-Parked (k _) _ u hs h
    resume-Parked (receive name k) r u hs h =
        let eq = receive-eq c fresh name k r u hs in
        subst (Parked c fresh) (sym eq) (
          received-Parked name k r u hs (Calls.try_consume_signal name r).0 refl
            (λ args. resume-Parked (k args) _ u hs) (ap (is_done c fresh) (sym eq) ∙ h))
    resume-Parked (receive_async name k) r u hs h = resume-Parked (k _) _ u hs h
    resume-Parked (has_pending name k) r u hs h = resume-Parked (k _) _ u hs h
    resume-Parked (is_cancel_requested k) r u hs h = resume-Parked (k _) _ u hs h
    resume-Parked (await_cancellation k) r u hs h = resume-Parked (k _) _ u hs h
    resume-Parked (side_effect k) r u hs h = resume-Parked (k _) _ u hs h
    resume-Parked (get_version id lo hi k) r u hs h = resume-Parked (k _) _ u hs h
    resume-Parked (local_activity type input policy k) r u hs h = resume-Parked (k _) _ u hs h
    resume-Parked (write f k) r u hs h = resume-Parked k _ (f u) hs h
    resume-Parked (read k) r u hs h = resume-Parked (k u) _ u hs h
    resume-Parked (select cases) r u hs h = resume_cases-Parked cases cases r u hs (λ v. refl) h
    resume-Parked (set_update_handler name handler k) r u hs h =
        resume-Parked k _ u (insert name handler hs) h

    resume_cases-Parked :
        (cs cases : Cases U) (r : Runner) (u : U) (hs : Map String (Handler U))
        → ((v : U) → resume_cases c fresh cases cases r v hs ≡ resume_cases c fresh cs cases r v hs)
        → is_done c fresh (resume_cases c fresh cs cases r u hs) ≡ false
        → Parked c fresh (resume_cases c fresh cs cases r u hs)
    resume_cases-Parked no_default cases r u hs passed h = (h, passed)
    resume_cases-Parked (default_case k) cases r u hs passed h = resume-Parked k r u hs h
    resume_cases-Parked (on_future n k rest) cases r u hs passed h =
        elim (Bool-cases (r.futures n).ready) [
          | inl e ↦
              let eq = on_future-eq c fresh n k rest cases r u hs true e in
              subst (Parked c fresh) (sym eq)
                (resume-Parked (k (r.futures n)) r u hs (ap (is_done c fresh) (sym eq) ∙ h))
          | inr e ↦
              let eq = λ (v : U). on_future-eq c fresh n k rest cases r v hs false e in
              subst (Parked c fresh) (sym (eq u)) (
                resume_cases-Parked rest cases r u hs (λ v. passed v ∙ eq v)
                  (ap (is_done c fresh) (sym (eq u)) ∙ h))
        ]
    resume_cases-Parked (on_receive name k rest) cases r u hs passed h =
        elim (Bool-cases (Calls.has_signal name r)) [
          | inl e ↦
              let eq = on_receive-eq c fresh name k rest cases r u hs true e in
              subst (Parked c fresh) (sym eq) (
                received-Parked name k r u hs (Calls.try_consume_signal name r).0 refl
                  (λ args. resume-Parked (k args) _ u hs) (ap (is_done c fresh) (sym eq) ∙ h))
          | inr e ↦
              let eq = λ (v : U). on_receive-eq c fresh name k rest cases r v hs false e in
              subst (Parked c fresh) (sym (eq u)) (
                resume_cases-Parked rest cases r u hs (λ v. passed v ∙ eq v)
                  (ap (is_done c fresh) (sym (eq u)) ∙ h))
        ]

  -- The updates that a task brings to a parked body have the same effect when a replay reapplies those
  -- that were accepted: the runner, the variables and the place of the body are the ones that the
  -- handlers left live, whichever of the updates the validators rejected.
  pub reapply-process_messages :
      (handlers : UserHandlers U) (msgs : List UpdateMessage) (x : Execution U)
      → is_done c fresh x ≡ false
      → is_done c fresh (resume_coroutine c fresh x) ≡ false
      → reapply_historical_updates c fresh
          (accepted handlers msgs (resume_coroutine c fresh x))
          (resume_coroutine c fresh x)
        ≡ (process_messages handlers msgs (resume_coroutine c fresh x)).1
  unfolding resume_coroutine
  reapply-process_messages handlers msgs x going h =
      let eq : resume_coroutine c fresh x
          ≡ resume c fresh x.rest x.runner x.user x.update_handlers =
        rw going refl in
      let p =
        resume-Parked x.rest x.runner x.user x.update_handlers
          (ap (is_done c fresh) (sym eq) ∙ h) in
      Parked-reapplied c fresh handlers msgs (resume_coroutine c fresh x)
        (subst (Parked c fresh) (sym eq) p)
