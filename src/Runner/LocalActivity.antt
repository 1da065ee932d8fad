-- ===== src/Runner/LocalActivity.antt =====
-- ExecuteLocalActivity of `WorkflowRunner`: an activity that runs inline, with inline retries.

use Prim.Native.String.{◌++◌ as append}
use temporal_cpp.Prelude.{
  ℕ, zero, suc, String, Bool, false, Option, none, some, [], ◌∷◌, or_else, ◌==◌, if◌then◌else◌,
  ◌||◌, number_key, get_elem?, is_empty,
}
use temporal_cpp.Prelude.Int.{pos, pos_part, ltb_ℤ}
use temporal_cpp.Determinism.{Kind}
use temporal_cpp.History.{Payload, Payloads, LocalActivityMarkerRaw}
use temporal_cpp.Proto.{RetryPolicy}
use temporal_cpp.Runner.{Runner, produce, ActivityFn, returned, application_error, exception}
use temporal_cpp.Runner.Emit.{emit_record_marker}
use temporal_cpp.Runner.Markers.{Converter, Outcome, ok, error}

-- `max_attempts`
unfoldable pub attempts_allowed : Option RetryPolicy → ℕ
attempts_allowed none = 1
attempts_allowed (some p) =
    if ltb_ℤ (pos 0) p.maximum_attempts then pos_part p.maximum_attempts else 1

-- The retry loop: `left` attempts remain, the next of them has number `attempt`. A result is the
-- activity's output, or the type and message of the last failure.
pub data Attempted : Type 0 where
  succeeded : Payloads → Attempted
  gave_up : String → String → Attempted

-- A failed attempt: whether the loop ends, with type and message.
abbrev pub after_failure : Bool → ℕ → String → String → Attempted → Attempted
after_failure non_retryable left type message rest =
    if non_retryable || left == 0 then gave_up type message else rest

unfoldable pub run_attempts : ActivityFn → Payloads → ℕ → ℕ → Attempted
run_attempts fn input zero attempt = gave_up "" ""
run_attempts fn input (suc left) attempt =
    let rest = run_attempts fn input left (suc attempt) in
    elim (fn attempt input) [
      | returned result ↦ succeeded result
      | application_error message type non_retryable ↦
          after_failure non_retryable left type message rest
      | exception message ↦ after_failure false left "" message rest
    ]

module _ (c : Converter) where
  unfoldable pub decode : Payload → String
  decode p = if is_empty p.content then "" else or_else "" (c.decode_string p)

  -- Replay: the recorded outcome.
  unfoldable pub recorded_outcome : LocalActivityMarkerRaw → Outcome Payloads
  unfolding decode
  recorded_outcome m =
      if m.failed then error (decode m.failure_message) (decode m.failure_type) else ok m.result

  unfoldable pub record_outcome : Attempted → Runner → Outcome Payloads × Runner
  record_outcome (succeeded result) r =
      (ok result, emit_record_marker "LocalActivity" (("result", result) ∷ []) r)
  record_outcome (gave_up type message) r = (
    error message type,
    emit_record_marker "LocalActivity"
        (("failure-type", c.encode_string type ∷ [])
          ∷ ("failure-message", c.encode_string message ∷ [])
          ∷ [])
        r,
  )

  unfoldable pub run_live :
      String → Payloads → Option RetryPolicy → Runner → Outcome Payloads × Runner
  unfolding run_attempts record_outcome attempts_allowed
  run_live type input policy r = elim r.local_activity_resolver [
    | none ↦ (error "local activities are not available on this worker" "LocalActivityError", r)
    | some resolver ↦ elim (resolver type) [
      | none ↦ (error (append "no activity registered for type: " type) "NotRegisteredError", r)
      | some fn ↦ record_outcome (run_attempts fn input (attempts_allowed policy) 1) r
    ]
  ]

  unfoldable pub execute_local_activity :
      String → Payloads → Option RetryPolicy → Runner → Outcome Payloads × Runner
  unfolding recorded_outcome run_live
  execute_local_activity type input policy r =
      let r₁ =
        produce Kind.marker "LocalActivity" ""
          (record r { local_activity_seq = suc r.local_activity_seq }) in
      elim (get_elem? r.scan.local_activities r.local_activity_seq) [
        | some recorded ↦ (recorded_outcome recorded, r₁)
        | none ↦ run_live type input policy r₁
      ]
