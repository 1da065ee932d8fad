-- ===== src/Nexus.antt =====
-- NexusTaskHandler of src/internal/nexus_task_handler.{h,cpp}: the registry of operations, and how a
-- task is answered. An operation's function returns a payload or throws an exception.
pub mod Registry
use temporal_cpp.Prelude.{String, Option, none, some, List, [], ◌∷◌, Map, insert, string_key}
use Prim.Native.String.{◌++◌ as concat}
use temporal_cpp.History.{Payload}

-- A payload, or the `what()` of an exception.
pub data Ended : Type 0 where
  returned : Payload → Ended
  threw : String → Ended

-- `operations_`, by key.
abbrev pub Operations : Type 0
Operations = Map String (Payload → Ended)

-- nexus::Request: its service, operation and payload if it is a start, or another request.
pub data Request : Type 0 where
  start_operation : String → String → Payload → Request
  other_request : Request

-- RespondNexusTaskCompleted with the result, or RespondNexusTaskFailed with an error type and a
-- message, both under the task's token.
pub data Response : Type 0 where
  completed : String → Payload → Response
  failed : String → String → String → Response

unfoldable pub key : String → String → String
key service operation = concat service (concat "\0" operation)

unfoldable pub register : String → String → (Payload → Ended) → Operations → Operations
unfolding key
register service operation fn operations = insert (key service operation) fn operations

abbrev missing_message : String → String → String
missing_message service operation =
    concat "no Nexus operation registered for service '"
      (concat service (concat "' operation '" (concat operation "'")))

-- `rpc` is what the RPC of a response throws, by its `what()`; none when it returns. A completed
-- response that throws is caught like an operation that throws.
module _ (rpc : Response → Option String) (token : String) where
  abbrev pub failed_after : Option String → List Response
  failed_after none = []
  failed_after (some what) = failed token "INTERNAL" what ∷ []

  abbrev pub answered : Ended → List Response
  answered (returned result) = completed token result ∷ failed_after (rpc (completed token result))
  answered (threw what) = failed token "INTERNAL" what ∷ []

  -- A start operation, with the function that the registry has for it.
  unfoldable pub answer : String → String → Payload → Option (Payload → Ended) → List Response
  answer service operation input none =
      failed token "NOT_FOUND" (missing_message service operation) ∷ []
  answer service operation input (some fn) = answered (fn input)

  -- The responses that Handle sends, in order.
  unfoldable pub handle : Operations → Request → List Response
  unfolding answer
  handle operations other_request =
      failed token "NOT_IMPLEMENTED" "only start-operation Nexus requests are supported" ∷ []
  handle operations (start_operation service operation input) =
      answer service operation input (operations (key service operation))
