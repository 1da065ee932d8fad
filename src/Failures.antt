-- ===== src/Failures.antt =====
-- Exceptions as failures on the wire: DefaultFailureConverter of src/converter/failure_converter.cpp,
-- MakeApplicationFailure of src/internal/proto_util.cpp, and the failure that RunBody
-- (src/internal/workflow_task_handler.cpp) makes of what a workflow throws.
pub mod Reported
use temporal_cpp.Prelude.{
  ◌≡◌, refl, String, Bool, false, Option, none, some, if◌then◌else◌, ◌==◌, string_key, Bool-cases,
  inl, inr, ap, sym,
}
use temporal_cpp.Activity.{
  ActivityTaskHandler, Context, activity_response, application_error, failed,
}

-- ApplicationError, or another std::exception by its `what()`.
pub data Exception : Type 0 where
  application : String → String → Bool → Exception
  other : String → Exception

-- ApplicationFailureInfo
pub record FailureInfo : Type 0 where
  pub failure_type : String
  pub non_retryable : Bool

-- failure::v1::Failure, by the fields that are set; a failure with no application info is of another
-- kind.
pub record ProtoFailure : Type 0 where
  pub message : String
  pub source : String
  pub application_info : Option FailureInfo

-- A failure converter: both directions.
pub record FailureConverter : Type 0 where
  pub error_to_failure : Exception → ProtoFailure
  pub failure_to_error : ProtoFailure → Exception

unfoldable pub error_to_failure : Exception → ProtoFailure
error_to_failure (application message type non_retryable) = record {
  message = message;
  source = "cpp-sdk";
  application_info = some (record { failure_type = type; non_retryable = non_retryable });
}
error_to_failure (other message) = record {
  message = message;
  source = "cpp-sdk";
  application_info = some (record { failure_type = ""; non_retryable = false });
}

unfoldable pub failure_to_error : ProtoFailure → Exception
failure_to_error f = elim f.application_info [
  | some info ↦ application f.message info.failure_type info.non_retryable
  | none ↦ application f.message "" false
]

abbrev pub default_failure_converter : FailureConverter
unfolding error_to_failure failure_to_error
default_failure_converter = record {
  error_to_failure = error_to_failure;
  failure_to_error = failure_to_error;
}

unfoldable pub make_application_failure : String → String → Bool → ProtoFailure
make_application_failure message type non_retryable = record {
  message = message;
  source = "";
  application_info =
      some
        (record { failure_type = if type == "" then "" else type; non_retryable = non_retryable });
}

-- The failure of a workflow, with the failure converter if one is set.
unfoldable pub workflow_failure : Option FailureConverter → Exception → ProtoFailure
unfolding make_application_failure
workflow_failure (some converter) e = converter.error_to_failure e
workflow_failure none (application message type non_retryable) =
    make_application_failure message type false
workflow_failure none (other message) = make_application_failure message "std::exception" false

pub type_kept : (type : String) → (if type == "" then "" else type) ≡ type
type_kept type = elim (Bool-cases (type == "")) [
  | inl e ↦ let same = string_key.equal_sound type "" e in rw e (sym same)
  | inr n ↦ rw n
]

-- An ApplicationError that a workflow throws is read back whole where the default failure converter
-- is set. Where none is set, its `non_retryable` flag is lost, although an activity that throws the
-- same error has it sent.
pub workflow_failure-drops_flag :
    (message type : String) (non_retryable : Bool) (h : ActivityTaskHandler) (ctx : Context)
    → h.failure_converter ≡ none
    → (failure_to_error (
          workflow_failure
            (some default_failure_converter)
            (application message type non_retryable))
        ≡ application message type non_retryable)
      × (failure_to_error (workflow_failure none (application message type non_retryable))
          ≡ application message type false)
      × (activity_response h (application_error message type non_retryable) ctx
          ≡ failed
              (record { message = message; failure_type = type; non_retryable = non_retryable }))
unfolding workflow_failure failure_to_error error_to_failure activity_response
workflow_failure-drops_flag message type non_retryable h ctx unset =
    (refl, ap (λ t. application message t false) (type_kept type), rw unset)
