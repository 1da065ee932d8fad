-- ===== src/Client/Starts.antt =====
-- StartWorkflowPayloads and SignalWithStartWorkflowPayloads of src/client/client.cpp, with
-- StartWorkflowOptions of include/temporal/common/options.h (its timeouts in nanoseconds). `uuid n` is
-- what the n-th call of NewUuid returns; `server` is an RPC, none when it throws, and otherwise the
-- run id of its answer.
pub mod Headers
use temporal_cpp.Prelude.{
  ℕ, suc, String, Bool, true, Option, none, some, List, [], ◌∷◌, Map, empty, if◌then◌else◌, ◌==◌,
  string_key,
}
use temporal_cpp.Prelude.Int.{ℤ}
use temporal_cpp.History.{Payload, Payloads}
use temporal_cpp.Proto.{Duration, RetryPolicy, ProtoRetryPolicy, timeout, to_proto_retry_policy}
use temporal_cpp.Interceptors.{build_chain}

pub record StartWorkflowOptions : Type 0 where
  pub id : String
  pub task_queue : String
  pub execution_timeout : ℤ
  pub run_timeout : ℤ
  pub task_timeout : ℤ
  pub retry_policy : Option RetryPolicy
  pub memo : Map String Payload
  pub search_attributes : Map String Payload
  pub headers : Map String Payload

-- interceptor::StartWorkflowInput
pub record StartWorkflowInput : Type 0 where
  pub workflow_type : String
  pub options : StartWorkflowOptions
  pub args : Payloads

-- The fields that Client sets in StartWorkflowExecutionRequest. A field that is left alone is empty.
pub record StartRequest : Type 0 where
  pub ns : String
  pub workflow_id : String
  pub workflow_type : String
  pub task_queue : String
  pub input : Payloads
  pub identity : String
  pub request_id : String
  pub execution_timeout : Option Duration
  pub run_timeout : Option Duration
  pub task_timeout : Option Duration
  pub retry_policy : Option ProtoRetryPolicy
  pub memo : Map String Payload
  pub search_attributes : Map String Payload
  pub header : Map String Payload

-- SignalWithStartWorkflowExecutionRequest has those fields, and the signal.
pub record SignalWithStartRequest : Type 0 where
  pub start : StartRequest
  pub signal_name : String
  pub signal_input : Payloads

pub record Client : Type 0 where
  pub ns : String
  pub identity : String

-- The handle that a start returns, by its ids.
pub record Started : Type 0 where
  pub workflow_id : String
  pub run_id : String

abbrev pub policy_of : Option RetryPolicy → Option ProtoRetryPolicy
policy_of none = none
policy_of (some policy) = some (to_proto_retry_policy policy)

abbrev pub id_or : String → String → String
id_or fresh id = if id == "" then fresh else id

-- The request that `do_start` issues, for the input and the header that the interceptors hand on. The
-- workflow id is the one that was settled before them.
unfoldable pub start_request :
    Client → String → String → StartWorkflowInput → Map String Payload → StartRequest
start_request c workflow_id request_id input header = record {
  ns = c.ns;
  workflow_id = workflow_id;
  workflow_type = input.workflow_type;
  task_queue = input.options.task_queue;
  input = input.args;
  identity = c.identity;
  request_id = request_id;
  execution_timeout = timeout input.options.execution_timeout;
  run_timeout = timeout input.options.run_timeout;
  task_timeout = timeout input.options.task_timeout;
  retry_policy = policy_of input.options.retry_policy;
  memo = input.options.memo;
  search_attributes = input.options.search_attributes;
  header = header;
}

-- A ClientOutboundInterceptor: what StartWorkflow returns for an input and a header.
abbrev pub ClientOutbound : Type 0
ClientOutbound = StartWorkflowInput → Map String Payload → Option String

abbrev pub started : String → Option String → Option Started
started workflow_id none = none
started workflow_id (some run_id) = some (record { workflow_id = workflow_id; run_id = run_id })

module _ (c : Client) (uuid : ℕ → String) where
  -- The first uuid is the workflow id if the options have none, the next one the request id.
  unfoldable pub start_workflow :
      (StartRequest → Option String)
      → List (ClientOutbound → Option ClientOutbound)
      → StartWorkflowOptions
      → String
      → Payloads
      → Option Started
  unfolding start_request
  start_workflow server interceptors options workflow_type input =
      let workflow_id = id_or (uuid 0) options.id in
      let do_start : ClientOutbound =
        λ in_ header. server (start_request c workflow_id (uuid 1) in_ header) in
      let chain = build_chain interceptors do_start in
      started workflow_id (
        chain.head
          (record {
            workflow_type = workflow_type;
            options = record options { id = workflow_id };
            args = input;
          })
          options.headers)

  unfoldable pub signal_with_start_request :
      StartWorkflowOptions → String → String → Payloads → Payloads → SignalWithStartRequest
  signal_with_start_request options workflow_type signal_name signal_input input = record {
    start = record {
      ns = c.ns;
      workflow_id = id_or (uuid 0) options.id;
      workflow_type = workflow_type;
      task_queue = options.task_queue;
      input = input;
      identity = c.identity;
      request_id = uuid 1;
      execution_timeout = timeout options.execution_timeout;
      run_timeout = timeout options.run_timeout;
      task_timeout = timeout options.task_timeout;
      retry_policy = policy_of options.retry_policy;
      memo = options.memo;
      search_attributes = empty;
      header = empty;
    };
    signal_name = signal_name;
    signal_input = signal_input;
  }

  unfoldable pub signal_with_start :
      (SignalWithStartRequest → Option String)
      → StartWorkflowOptions
      → String
      → String
      → Payloads
      → Payloads
      → Option Started
  unfolding signal_with_start_request
  signal_with_start server options workflow_type signal_name signal_input input =
      let request =
        signal_with_start_request options workflow_type signal_name signal_input input in
      started (id_or (uuid 0) options.id) (server request)
