-- ===== src/Tasks/Reapplied.antt =====
-- What update messages leave of an execution, and what a replay makes of the same updates.
use temporal_cpp.Prelude.{
  ℕ, String, false, Option, none, some, List, [], ◌∷◌, ◌≡◌, refl, ap, ◌∙◌, string_key,
}
use temporal_cpp.History.{Payload, Payloads, ReplayStep, update}
use temporal_cpp.Runner.Markers.{Converter}
use temporal_cpp.Workflow.{
  Execution, resume, resume_coroutine, reapply, reapply_historical_updates, is_done, Handler,
}
use temporal_cpp.Tasks.Messages.{
  UserHandlers, UpdateMessage, accept, validate_update, run_update, run_handler, process_request,
  process_body, process_messages,
}

abbrev accepted_request : String → Payloads → Option String → List ReplayStep → List ReplayStep
accepted_request name args (some what) rest = rest
accepted_request name args none rest = update name args ∷ rest

module _ {U : Type 0} where
  run_handler-runner :
      (found : Option (Handler U)) (name : String) (args : Payloads) (x : Execution U)
      → (run_handler found name args x).1.runner ≡ x.runner
  unfolding run_handler
  run_handler-runner none name args x = refl
  run_handler-runner (some handler) name args x = refl

  process_request-runner :
      (msg : UpdateMessage) (name : String) (args : Payloads) (verdict : Option String)
      (x : Execution U)
      → (process_request msg name args verdict x).1.runner ≡ x.runner
  unfolding process_request accept run_update
  process_request-runner msg name args (some what) x = refl
  process_request-runner msg name args none x =
      run_handler-runner (x.update_handlers name) name args x

  process_body-runner :
      (handlers : UserHandlers U) (msg : UpdateMessage) (request : Option (String × Payloads))
      (x : Execution U)
      → (process_body handlers msg request x).1.runner ≡ x.runner
  unfolding process_body
  process_body-runner handlers msg none x = refl
  process_body-runner handlers msg (some (name, args)) x =
      process_request-runner msg name args (validate_update handlers name args x) x

  -- Updates leave the runner as it is.
  pub process_messages-runner :
      (handlers : UserHandlers U) (msgs : List UpdateMessage) (x : Execution U)
      → (process_messages handlers msgs x).1.runner ≡ x.runner
  unfolding process_messages
  process_messages-runner handlers [] x = refl
  process_messages-runner handlers (msg ∷ msgs) x =
      process_messages-runner handlers msgs (process_body handlers msg msg.request x).1
      ∙ process_body-runner handlers msg msg.request x

  abbrev accepted_body :
      UserHandlers U → Option (String × Payloads) → Execution U → List ReplayStep → List ReplayStep
  accepted_body handlers none x rest = rest
  accepted_body handlers (some (name, args)) x rest =
      accepted_request name args (validate_update handlers name args x) rest

  -- The updates that the validators accept, each on the variables that those before it leave.
  abbrev pub accepted : UserHandlers U → List UpdateMessage → Execution U → List ReplayStep
  accepted handlers [] x = []
  accepted handlers (msg ∷ msgs) x =
      accepted_body handlers msg.request x
        (accepted handlers msgs (process_body handlers msg msg.request x).1)

module _ (c : Converter) (fresh : ℕ → Payload) {U : Type 0} where
  -- The body waits: whatever the variables are, resuming it changes nothing.
  abbrev pub Parked : Execution U → Type 0
  Parked x =
      (is_done c fresh x ≡ false)
      × ((u : U) → resume c fresh x.rest x.runner u x.update_handlers ≡ record x { user = u })

  run_handler-Parked :
      (found : Option (Handler U)) (name : String) (args : Payloads) (x : Execution U)
      → Parked x
      → Parked (run_handler found name args x).1
  unfolding run_handler
  run_handler-Parked none name args x p = p
  run_handler-Parked (some handler) name args x p = p

  Parked-resume_coroutine : (x : Execution U) → Parked x → resume_coroutine c fresh x ≡ x
  unfolding resume_coroutine
  Parked-resume_coroutine x p = rw p.0 (p.1 x.user)

  reapply-found :
      (found : Option (Handler U)) (name : String) (args : Payloads) (x : Execution U)
      → elim found as (λ f. Execution U) [
        | none ↦ x
        | some handler ↦ record x { user = (handler args x.user).0 }
      ]
        ≡ (run_handler found name args x).1
  unfolding run_handler
  reapply-found none name args x = refl
  reapply-found (some handler) name args x = refl

  -- What the reapplied update leaves, resumed, is what the handler left.
  reapply-run_update :
      (name : String) (args : Payloads) (x : Execution U) (rest : List ReplayStep)
      → Parked x
      → reapply_historical_updates c fresh (update name args ∷ rest) x
        ≡ reapply_historical_updates c fresh rest (run_update name args x).1
  unfolding reapply_historical_updates reapply run_update
  reapply-run_update name args x rest p =
      let p₁ = run_handler-Parked (x.update_handlers name) name args x p in
      let e = reapply-found (x.update_handlers name) name args x in
      rw p.0 (
        ap (λ y. reapply_historical_updates c fresh rest y)
          (ap (resume_coroutine c fresh) e ∙ Parked-resume_coroutine _ p₁))

  process_request-reapplied :
      (msg : UpdateMessage) (name : String) (args : Payloads) (verdict : Option String)
      (x : Execution U) (rest : List ReplayStep)
      → Parked x
      → (reapply_historical_updates c fresh (accepted_request name args verdict rest) x
          ≡ reapply_historical_updates c fresh rest (process_request msg name args verdict x).1)
        × Parked (process_request msg name args verdict x).1
  unfolding process_request accept run_update
  process_request-reapplied msg name args (some what) x rest p = (refl, p)
  process_request-reapplied msg name args none x rest p = (
    reapply-run_update name args x rest p,
    run_handler-Parked (x.update_handlers name) name args x p,
  )

  process_body-reapplied :
      (handlers : UserHandlers U) (msg : UpdateMessage) (request : Option (String × Payloads))
      (x : Execution U) (rest : List ReplayStep)
      → Parked x
      → (reapply_historical_updates c fresh (accepted_body handlers request x rest) x
          ≡ reapply_historical_updates c fresh rest (process_body handlers msg request x).1)
        × Parked (process_body handlers msg request x).1
  unfolding process_body
  process_body-reapplied handlers msg none x rest p = (refl, p)
  process_body-reapplied handlers msg (some (name, args)) x rest p =
      process_request-reapplied msg name args (validate_update handlers name args x) x rest p

  pub Parked-reapplied :
      (handlers : UserHandlers U) (msgs : List UpdateMessage) (x : Execution U)
      → Parked x
      → reapply_historical_updates c fresh (accepted handlers msgs x) x
        ≡ (process_messages handlers msgs x).1
  unfolding process_messages reapply_historical_updates
  Parked-reapplied handlers [] x p = refl
  Parked-reapplied handlers (msg ∷ msgs) x p =
      let x₁ = (process_body handlers msg msg.request x).1 in
      let (e, p₁) =
        process_body-reapplied handlers msg msg.request x (accepted handlers msgs x₁) p in
      e ∙ Parked-reapplied handlers msgs x₁ p₁
