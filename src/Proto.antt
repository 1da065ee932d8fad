-- ===== src/Proto.antt =====
-- src/internal/proto_util.cpp: durations and retry policies as the server reads them, and the
-- options of include/temporal/common/options.h that they come from. Durations are nanoseconds.
-- A backoff coefficient, a double in the source, is a count of millionths.
pub mod Durations
use temporal_cpp.Prelude.{
  ℕ, zero, suc, ◌+◌, ◌*◌, ◌/◌, ◌%◌, ◌-◌, String, Bool, Option, none, some, List, ltb, if◌then◌else◌,
}
use temporal_cpp.Prelude.Int.{ℤ, pos, negsuc, ltb_ℤ}

abbrev pub nanos_per_second : ℕ
nanos_per_second = 1000000000

-- google.protobuf.Duration
pub record Duration : Type 0 where
  pub seconds : ℤ
  pub nanos : ℤ

abbrev negate : ℕ → ℤ
negate zero = pos 0
negate (suc n) = negsuc n

-- `duration_cast` rounds towards zero.
unfoldable pub to_proto_duration : ℤ → Duration
to_proto_duration (pos n) = record {
  seconds = pos (n / nanos_per_second);
  nanos = pos (n % nanos_per_second);
}
to_proto_duration (negsuc n) = record {
  seconds = negate ((n + 1) / nanos_per_second);
  nanos = negate ((n + 1) % nanos_per_second);
}

-- `if (d.count() > 0) *attr = ToProtoDuration(d)`
unfoldable pub timeout : ℤ → Option Duration
timeout d = if ltb_ℤ (pos 0) d then some (to_proto_duration d) else none

pub record RetryPolicy : Type 0 where
  pub initial_interval : ℤ
  pub backoff_coefficient : ℕ
  pub maximum_interval : ℤ
  pub maximum_attempts : ℤ
  pub non_retryable_error_types : List String

-- temporal.api.common.v1.RetryPolicy; a number that is not set reads 0.
pub record ProtoRetryPolicy : Type 0 where
  pub initial_interval : Option Duration
  pub backoff_coefficient : ℕ
  pub maximum_interval : Option Duration
  pub maximum_attempts : ℤ
  pub non_retryable_error_types : List String

unfoldable pub to_proto_retry_policy : RetryPolicy → ProtoRetryPolicy
unfolding timeout
to_proto_retry_policy p = record {
  initial_interval = timeout p.initial_interval;
  backoff_coefficient = p.backoff_coefficient;
  maximum_interval = timeout p.maximum_interval;
  maximum_attempts = p.maximum_attempts;
  non_retryable_error_types = p.non_retryable_error_types;
}

pub record ActivityOptions : Type 0 where
  pub task_queue : String
  pub schedule_to_close_timeout : ℤ
  pub schedule_to_start_timeout : ℤ
  pub start_to_close_timeout : ℤ
  pub heartbeat_timeout : ℤ
  pub retry_policy : Option RetryPolicy

pub data ParentClosePolicy : Type 0 where
  terminate abandon request_cancel : ParentClosePolicy

pub record ChildWorkflowOptions : Type 0 where
  pub id : String
  pub task_queue : String
  pub parent_close_policy : ParentClosePolicy
