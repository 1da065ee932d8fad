-- ===== src/Rpc.antt =====
-- GrpcClient::UnaryCall of src/internal/grpc_client.cpp, through which every RPC goes, and the calls
-- of it that the other parts make. `remote` is what the stub gives for a request: a status, and a
-- response that is looked at when the status is OK.
pub mod Truncation
use temporal_cpp.Prelude.{String, Bool, true, false, Option, none, some, List, []}
use Prim.Native.String.{◌++◌ as concat}
use temporal_cpp.History.{Event}

pub data StatusCode : Type 0 where
  ok : StatusCode
  deadline_exceeded : StatusCode
  not_found : StatusCode
  other_code : StatusCode

pub record Status : Type 0 where
  pub code : StatusCode
  pub error_message : String

-- RpcError, with its message and `not_found()`; NotFoundError is the one where that is true.
pub data CallResult {ℓ} (A : Type ℓ) : Type ℓ where
  response : A → CallResult A
  rpc_error : String → Bool → CallResult A

abbrev failed_message : String → Status → String
failed_message name status = concat "rpc " (concat name (concat " failed: " status.error_message))

-- `nothing` is a default-constructed response.
unfoldable pub unary_call {ℓ} : {A : Type ℓ} → String → Bool → A → Status → A → CallResult A
unary_call name poll nothing status resp = elim status.code [
  | ok ↦ response resp
  | deadline_exceeded ↦ elim poll [
    | true ↦ response nothing
    | false ↦ rpc_error (failed_message name status) false
  ]
  | not_found ↦ rpc_error (failed_message name status) true
  | other_code ↦ rpc_error (failed_message name status) false
]

-- A page of a history and the token of the next, "" behind the last.
abbrev pub Page : Type 0
Page = List Event × String

-- GrpcClient::GetWorkflowExecutionHistory, one of the calls with `Poll`; none when it throws.
unfoldable pub get_history : (String → Status × Page) → String → Option Page
unfolding unary_call
get_history remote token =
    let (status, page) = remote token in
    elim (unary_call "GetWorkflowExecutionHistory" true ([], "") status page) [
      | response resp ↦ some resp
      | rpc_error message absent ↦ none
    ]

-- Client::DescribeSchedule of src/client/client.cpp: whether the schedule exists. Any other error is
-- thrown again.
unfoldable pub describe_schedule {ℓ} : {A : Type ℓ} → A → Status → A → CallResult Bool
unfolding unary_call
describe_schedule nothing status resp =
    elim (unary_call "DescribeSchedule" false nothing status resp) [
      | response resp ↦ response true
      | rpc_error message true ↦ response false
      | rpc_error message false ↦ rpc_error message false
    ]
