-- ===== src/Tasks/Messages.antt =====
-- The updates that a workflow task brings as protocol messages (Handle, RunUpdate and
-- ValidateUpdate of src/internal/workflow_task_handler.cpp). A validator reads the shared variables
-- and either accepts or throws an exception with a message.
use temporal_cpp.Prelude.{ℕ, String, Option, none, some, List, [], ◌∷◌, ◌++◌, Map}
use Prim.Native.String.{◌++◌ as concat}
use temporal_cpp.History.{Payloads}
use temporal_cpp.Runner.Markers.{Outcome, error}
use temporal_cpp.Workflow.{Execution, Handler}

-- A protocol message; `request` is none when its body is no update::Request.
pub record UpdateMessage : Type 0 where
  pub id : String
  pub protocol_instance_id : String
  pub event_id : ℕ
  pub request : Option (String × Payloads)

-- The bodies of the answers: update::Acceptance, update::Rejection and update::Response. The first
-- two repeat the id and the sequencing event id of the request, and the request.
pub data Answer : Type 0 where
  acceptance : String → ℕ → String × Payloads → Answer
  rejection : String → ℕ → String × Payloads → String → Answer
  response : String → Outcome Payloads → Answer

pub record Message : Type 0 where
  pub id : String
  pub protocol_instance_id : String
  pub body : Answer

-- What the runner calls besides the body: its query handlers, and its update validators, which give
-- the message of the exception that they throw.
pub record UserHandlers (U : Type 0) : Type 0 where
  pub answer : Execution U → String → Payloads → Option Payloads
  pub validators : Map String (Payloads → U → Option String)

-- The answer to a request that its validator rejects.
unfoldable pub reject : UpdateMessage → String → Payloads → String → Message
reject msg name args what = record {
  id = concat msg.protocol_instance_id "/reject";
  protocol_instance_id = msg.protocol_instance_id;
  body = rejection msg.id msg.event_id (name, args) what;
}

module _ {U : Type 0} where
  unfoldable pub validate_update : UserHandlers U → String → Payloads → Execution U → Option String
  validate_update handlers name args x = elim (handlers.validators name) [
    | none ↦ none
    | some validator ↦ validator args x.user
  ]

  -- RunUpdate, with the handler that it finds.
  unfoldable pub run_handler :
      Option (Handler U) → String → Payloads → Execution U → Outcome Payloads × Execution U
  run_handler none name args x = (error (concat "unknown update: " name) "UpdateNotRegistered", x)
  run_handler (some handler) name args x =
      let (user, outcome) = handler args x.user in (outcome, record x { user = user })

  unfoldable pub run_update : String → Payloads → Execution U → Outcome Payloads × Execution U
  unfolding run_handler
  run_update name args x = run_handler (x.update_handlers name) name args x

  -- The answers to an accepted request.
  unfoldable pub accept :
      UpdateMessage → String → Payloads → Execution U → List Message × Execution U
  unfolding run_update
  accept msg name args x =
      let instance_id = msg.protocol_instance_id in
      let (outcome, x₁) = run_update name args x in
      (
        record {
          id = concat instance_id "/accept";
          protocol_instance_id = instance_id;
          body = acceptance msg.id msg.event_id (name, args);
        }
            ∷ record {
              id = concat instance_id "/complete";
              protocol_instance_id = instance_id;
              body = response instance_id outcome;
            }
            ∷ [],
        x₁,
      )

  -- A request with what its validator throws, if it does.
  unfoldable pub process_request :
      UpdateMessage → String → Payloads → Option String → Execution U → List Message × Execution U
  unfolding accept reject
  process_request msg name args (some what) x = (reject msg name args what ∷ [], x)
  process_request msg name args none x = accept msg name args x

  -- A message with the request that its body unpacks to.
  unfoldable pub process_body :
      UserHandlers U
      → UpdateMessage
      → Option (String × Payloads)
      → Execution U
      → List Message × Execution U
  unfolding validate_update process_request
  process_body handlers msg none x = ([], x)
  process_body handlers msg (some (name, args)) x =
      process_request msg name args (validate_update handlers name args x) x

  -- `for (const auto& msg : task.messages())`
  unfoldable pub process_messages :
      UserHandlers U → List UpdateMessage → Execution U → List Message × Execution U
  unfolding process_body
  process_messages handlers [] x = ([], x)
  process_messages handlers (msg ∷ msgs) x =
      let (sent, x₁) = process_body handlers msg msg.request x in
      let (rest, x₂) = process_messages handlers msgs x₁ in (sent ++ rest, x₂)
