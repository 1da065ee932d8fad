-- ===== src/Activity.antt =====
-- src/internal/activity_task_handler.cpp and the Context of include/temporal/activity/activity.h.
-- Durations and readings of the clock are nanoseconds; the sums of the throttle interval are taken to
-- fit their 64 bits.
--
-- The application's activity function is a tree: each node is one call on the context and continues
-- with what the call returns. The clock and the server are parameters: `clock n` is the n-th reading,
-- `server n` what the n-th heartbeat returns, none when the RPC throws.
pub mod Heartbeats
use temporal_cpp.Prelude.{
  ℕ, suc, ◌+◌, ◌-◌, ◌*◌, ◌/◌, String, Bool, true, false, ◌&&◌, Option, none, some, List, [], ◌∷◌,
  Map, ltb, if◌then◌else◌, length,
}
use temporal_cpp.Prelude.Int.{ℤ, pos, negsuc, pos_part, neg_part, ltb_ℤ}
use temporal_cpp.Proto.{Duration, nanos_per_second}
use Prim.Native.String.{◌++◌ as concat}
use temporal_cpp.History.{Payload, Payloads}
use temporal_cpp.Interceptors.{build_chain}

-- activity::ActivityInfo
pub record ActivityInfo : Type 0 where
  pub activity_id : String
  pub activity_type : String
  pub workflow_id : String
  pub run_id : String
  pub task_queue : String
  pub task_token : String
  pub attempt : ℕ
  pub headers : Map String Payload

-- What is read of a PollActivityTaskQueueResponse.
pub record ActivityTask : Type 0 where
  pub info : ActivityInfo
  pub input : Payloads
  pub heartbeat_timeout : Option Duration

-- What is left of seconds and nanoseconds above zero, in nanoseconds.
abbrev pub above_zero : Duration → ℕ
above_zero d =
    let gain = pos_part d.seconds * nanos_per_second + pos_part d.nanos in
    let loss = neg_part d.seconds * nanos_per_second + neg_part d.nanos in gain - loss

-- HeartbeatThrottleInterval
unfoldable pub heartbeat_throttle_interval : ActivityTask → ℕ
heartbeat_throttle_interval task = elim task.heartbeat_timeout [
  | none ↦ 30 * nanos_per_second
  | some d ↦ if ltb 0 (above_zero d) then above_zero d * 8 / 10 else 30 * nanos_per_second
]

-- activity::Context, with the reports that reached the server, the last one first.
pub record Context : Type 0 where
  pub info : ActivityInfo
  pub throttle_interval : ℕ
  pub last_report : ℕ
  pub reported : Bool
  pub cancel_requested : Bool
  pub will_complete_async : Bool
  pub readings : ℕ
  pub reports : List (ℕ × Payloads)

unfoldable pub new_context : ActivityInfo → ℕ → Context
new_context info interval = record {
  info = info;
  throttle_interval = interval;
  last_report = 0;
  reported = false;
  cancel_requested = false;
  will_complete_async = false;
  readings = 0;
  reports = [];
}

pub data Activity : Type 0 where
  returns : Payloads → Activity
  throw_application_error : String → String → Bool → Activity
  throw_exception : String → Activity
  -- Continues with whether the call threw.
  record_heartbeat : Payloads → (Bool → Activity) → Activity
  is_cancelled : (Bool → Activity) → Activity
  set_will_complete_async : Activity → Activity

-- How a function ended.
pub data Ended : Type 0 where
  returned : Payloads → Ended
  application_error : String → String → Bool → Ended
  exception : String → Ended

-- What the RPC comes to: whether it threw, and the cancel state it brings.
unfoldable pub answered : Option Bool → Context → Bool × Context
answered none ctx = (true, ctx)
answered (some cancel) ctx = (false, record ctx { cancel_requested = cancel })

module _ (clock : ℕ → ℕ) (server : ℕ → Option Bool) where
  -- A report at `now`: the clock and the flag are set before the RPC, which may throw.
  unfoldable pub report : ℕ → Payloads → Context → Bool × Context
  unfolding answered
  report now details ctx =
      answered (server (length ctx.reports))
        (record ctx { last_report = now; reported = true; reports = (now, details) ∷ ctx.reports })

  -- RecordHeartbeat, and whether it threw.
  unfoldable pub heartbeat : Payloads → Context → Bool × Context
  unfolding report
  heartbeat details ctx =
      let now = clock ctx.readings in
      let read = record ctx { readings = suc ctx.readings } in
      if ctx.reported && ltb now (ctx.last_report + ctx.throttle_interval)
      then (false, read)
      else report now details read

  unfoldable pub run_activity : Activity → Context → Ended × Context
  unfolding heartbeat
  run_activity (returns result) ctx = (returned result, ctx)
  run_activity (throw_application_error message type non_retryable) ctx =
      (application_error message type non_retryable, ctx)
  run_activity (throw_exception message) ctx = (exception message, ctx)
  run_activity (record_heartbeat details k) ctx =
      let (threw, ctx₁) = heartbeat details ctx in run_activity (k threw) ctx₁
  run_activity (is_cancelled k) ctx = run_activity (k ctx.cancel_requested) ctx
  run_activity (set_will_complete_async k) ctx =
      run_activity k (record ctx { will_complete_async = true })

-- The failure that is sent: MakeApplicationFailure's, or the failure converter's.
pub record ActivityFailure : Type 0 where
  pub message : String
  pub failure_type : String
  pub non_retryable : Bool

-- What the server is told of an activity task; nothing when its completion is deferred.
pub data ActivityResponse : Type 0 where
  completed : Payloads → ActivityResponse
  failed : ActivityFailure → ActivityResponse
  left_open : ActivityResponse

-- The handler, with the factories of its interceptors; an interceptor is given the arguments and the
-- headers.
pub record ActivityTaskHandler : Type 1 where
  pub activities : Map String (ActivityInfo → Payloads → Activity)
  pub interceptors : List (
      (Payloads → Map String Payload → Activity)
      → Option (Payloads → Map String Payload → Activity))
  pub failure_converter : Option (Ended → ActivityFailure)

-- How an ended function is answered.
unfoldable pub activity_response : ActivityTaskHandler → Ended → Context → ActivityResponse
activity_response h (returned result) ctx =
    if ctx.will_complete_async then left_open else completed result
activity_response h (application_error message type non_retryable) ctx =
    failed (elim h.failure_converter [
      | some convert ↦ convert (application_error message type non_retryable)
      | none ↦ record { message = message; failure_type = type; non_retryable = non_retryable }
    ])
activity_response h (exception message) ctx = failed (elim h.failure_converter [
  | some convert ↦ convert (exception message)
  | none ↦ record { message = message; failure_type = "std::exception"; non_retryable = false }
])

unfoldable pub handle_activity :
    (ℕ → ℕ) → (ℕ → Option Bool) → ActivityTaskHandler → ActivityTask → ActivityResponse × Context
unfolding run_activity new_context heartbeat_throttle_interval activity_response build_chain
handle_activity clock server h task =
    let ctx = new_context task.info (heartbeat_throttle_interval task) in
    elim (h.activities task.info.activity_type) [
      | none ↦ (
        failed (record {
          message = concat "no activity registered for type: " task.info.activity_type;
          failure_type = "NotRegisteredError";
          non_retryable = false;
        }),
        ctx,
      )
      | some fn ↦
          let chain = build_chain h.interceptors (λ args headers. fn task.info args) in
          let (ended, ctx₁) =
            run_activity clock server (chain.head task.input task.info.headers) ctx in
          (activity_response h ended ctx₁, ctx₁)
    ]
