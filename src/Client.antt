-- ===== src/Client.antt =====
-- WorkflowHandle::ResultPayloads of src/client/client.cpp: the long poll for the result of a workflow,
-- along its continue-as-new chain. `server n run_id` is what the n-th call of the RPC with the filter
-- for close events returns, none when it throws.
pub mod Results
pub mod Starts
pub mod Attributes
use temporal_cpp.Prelude.{
  ℕ, zero, suc, String, Bool, Option, none, some, List, [], ◌∷◌, if◌then◌else◌,
}
use Prim.Native.String.{◌++◌ as concat}
use temporal_cpp.History.{Payloads, Failure}

-- An event that the filter lets through: the completion, the failure, the new execution's run id, or
-- the name of the type of another one.
pub data CloseEvent : Type 0 where
  completed : Payloads → CloseEvent
  failed : Failure → CloseEvent
  continued_as_new : String → CloseEvent
  other_close : String → CloseEvent

-- The exception that a failure converter makes of a failure.
pub data Decoded : Type 0 where
  application_error : String → String → Decoded
  other_error : String → Decoded

-- The payloads, or WorkflowFailedError with its message and type, or the exception of the RPC.
pub data Result : Type 0 where
  payloads : Payloads → Result
  workflow_failed : String → String → Result
  rpc_error : Result

unfoldable pub failed_result : Option (Failure → Decoded) → Failure → Result
failed_result none f = workflow_failed (concat "workflow failed: " f.message) f.failure_type
failed_result (some convert) f = elim (convert f) [
  | application_error message type ↦ workflow_failed (concat "workflow failed: " message) type
  | other_error message ↦ workflow_failed (concat "workflow failed: " message) f.failure_type
]

-- What a close event ends the loop with; none where it goes on with the next run.
unfoldable pub close_result : Option (Failure → Decoded) → CloseEvent → Option Result
unfolding failed_result
close_result convert (completed result) = some (payloads result)
close_result convert (failed f) = some (failed_result convert f)
close_result convert (continued_as_new run_id) = none
close_result convert (other_close name) =
    some (workflow_failed (concat "workflow did not complete successfully: " name) "")

-- `run_id_` behind a close event.
abbrev pub next_run : CloseEvent → String → String
next_run (continued_as_new new_run) run_id = new_run
next_run _ run_id = run_id

-- The loop, from the n-th call on, and `run_id_` when it returns. None: not within these rounds.
unfoldable pub result_payloads :
    Option (Failure → Decoded)
    → (ℕ → String → Option (List CloseEvent))
    → ℕ
    → ℕ
    → String
    → Option (Result × String)
unfolding close_result
result_payloads convert server zero n run_id = none
result_payloads convert server (suc rounds) n run_id =
    let again = result_payloads convert server rounds (suc n) run_id in
    elim (server n run_id) [
      | none ↦ some (rpc_error, run_id)
      | some [] ↦ again
      | some (ev ∷ evs) ↦
          let followed = result_payloads convert server rounds (suc n) (next_run ev run_id) in
          elim (close_result convert ev) [ none ↦ followed | some result ↦ some (result, run_id) ]
    ]
