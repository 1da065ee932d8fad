-- ===== src/Failures/Reported.antt =====
-- What the caller of ResultPayloads (src/client/client.cpp) learns of an exception that a workflow
-- threw on a worker.
use temporal_cpp.Prelude.{
  ℕ, zero, suc, ◌+◌, ◌≡◌, refl, ap, ◌∙◌, String, Bool, true, false, Option, none, some, List,
}
use Prim.Native.String.{◌++◌ as concat}
use temporal_cpp.History.{Failure}
use temporal_cpp.Client.{
  CloseEvent, Decoded, Result, result_payloads, failed_result, close_result, workflow_failed,
}
use temporal_cpp.Client
use temporal_cpp.Client.Results.{Closes, Leads, result_payloads-follows}
use temporal_cpp.Failures.{
  Exception, application, other, ProtoFailure, FailureConverter, default_failure_converter,
  error_to_failure, failure_to_error, workflow_failure, make_application_failure, type_kept,
}

-- The default failure converter or none, as DataConverter::failure_converter has it.
abbrev pub installed : Bool → Option FailureConverter
installed true = some default_failure_converter
installed false = none

-- The failure of a close event, which ResultPayloads reads by its message and, if it has an
-- application info, its type.
abbrev pub as_read : ProtoFailure → Failure
as_read f = record {
  message = f.message;
  failure_type = elim f.application_info [ some info ↦ info.failure_type | none ↦ "" ];
}

-- FailureToError on such a failure, which the SDK wrote with an application info.
abbrev pub decoded_by : Bool → Option (Failure → Decoded)
decoded_by true = some (λ f.
    elim (failure_to_error (record {
      message = f.message;
      source = "cpp-sdk";
      application_info = some (record { failure_type = f.failure_type; non_retryable = false });
    })) [
      | application message type non_retryable ↦ Client.application_error message type
      | other message ↦ Client.other_error message
    ])
decoded_by false = none

-- The type under which the caller gets the exception.
abbrev pub type_shown : Bool → Exception → String
type_shown worker (application message type non_retryable) = type
type_shown true (other message) = ""
type_shown false (other message) = "std::exception"

abbrev pub message_of : Exception → String
message_of (application message type non_retryable) = message
message_of (other message) = message

reported : Bool → Bool → Exception → Option Result
reported worker caller e =
    close_result (decoded_by caller)
      (Client.failed (as_read (workflow_failure (installed worker) e)))

reported-eq :
    (worker caller : Bool) (e : Exception)
    → reported worker caller e
      ≡ some (workflow_failed (concat "workflow failed: " (message_of e)) (type_shown worker e))
unfolding reported close_result failed_result workflow_failure failure_to_error error_to_failure
    make_application_failure
reported-eq true true (application message type non_retryable) = refl
reported-eq true false (application message type non_retryable) = refl
reported-eq false true (application message type non_retryable) =
    ap (λ t. some (workflow_failed (concat "workflow failed: " message) t)) (type_kept type)
reported-eq false false (application message type non_retryable) =
    ap (λ t. some (workflow_failed (concat "workflow failed: " message) t)) (type_kept type)
reported-eq true true (other message) = refl
reported-eq true false (other message) = refl
reported-eq false true (other message) = refl
reported-eq false false (other message) = refl

-- A chain of runs, each continued as the next one.
abbrev pub Chain : (String → CloseEvent) → ℕ → String → String → Type 0
Chain close zero run_id last = run_id ≡ last
Chain close (suc n) run_id last =
    (next : String) × ((close run_id ≡ Client.continued_as_new next) × Chain close n next last)

Chain-Leads :
    (convert : Option (Failure → Decoded)) (close : String → CloseEvent) (length : ℕ)
    (run_id last : String) (result : Result)
    → Chain close length run_id last
    → close_result convert (close last) ≡ some result
    → Leads convert close length run_id last result
Chain-Leads convert close zero run_id last result same final =
    (same, ap (λ r. close_result convert (close r)) same ∙ final)
Chain-Leads convert close (suc n) run_id last result (next, (continued, chain)) final =
    (next, (continued, Chain-Leads convert close n next last result chain final))

-- An exception that the last run of a chain of `length` runs ended with reaches the caller of
-- ResultPayloads, in any combination of workers and callers with the default failure converter or
-- none: as a WorkflowFailedError with its message, and the type of the ApplicationError. Any other
-- exception is of type "std::exception", or of no type if the worker has the converter. Every run
-- must have closed by the N-th call.
pub result_payloads-reported :
    (worker caller : Bool) (e : Exception) (server : ℕ → String → Option (List CloseEvent))
    (close : String → CloseEvent) (N length : ℕ) (run_id last : String)
    → Closes server close N
    → Chain close length run_id last
    → close last ≡ Client.failed (as_read (workflow_failure (installed worker) e))
    → result_payloads (decoded_by caller) server (N + length + 1) 0 run_id
      ≡ some
          (workflow_failed (concat "workflow failed: " (message_of e)) (type_shown worker e), last)
unfolding reported
result_payloads-reported worker caller e server close N length run_id last closes chain threw =
    result_payloads-follows (decoded_by caller) server close N length run_id last _ closes (
      Chain-Leads (decoded_by caller) close length run_id last _ chain
        (ap (close_result (decoded_by caller)) threw ∙ reported-eq worker caller e))
