-- ===== src/Activity/Heartbeats.antt =====
-- How often an activity reports to the server.
use temporal_cpp.Prelude.{
  ℕ, ◌+◌, ◌*◌, ◌<◌, ◌≤◌, ◌/◌, Bool, true, false, ◌&&◌, Option, none, some, List, [], ◌∷◌, ltb,
  length, ◌≡◌, refl, sym, ap, ◌∙◌, arith, lt→ltb, Bool-cases, Option-cases, inl, inr,
}
use temporal_cpp.History.{Payloads}
use mathlib.Core.Path.{subst}
use temporal_cpp.Interceptors.{build_chain}
use temporal_cpp.Proto.{Duration}
use temporal_cpp.Activity.{
  ActivityInfo, above_zero, answered, Context, Activity, ActivityTask, ActivityTaskHandler,
  heartbeat, report, run_activity, new_context, handle_activity, heartbeat_throttle_interval,
  returns, throw_application_error, throw_exception, record_heartbeat, is_cancelled,
  set_will_complete_async,
}

-- Reports, the last one first, of which each was sent at least `interval` after the one before.
abbrev pub Spaced : ℕ → List (ℕ × Payloads) → Type 0
Spaced interval [] = Unit
Spaced interval (r ∷ []) = Unit
Spaced interval (r ∷ s ∷ rest) = (s.0 + interval ≤ r.0) × Spaced interval (s ∷ rest)

-- The context knows its last report.
abbrev Follows : Bool → ℕ → List (ℕ × Payloads) → Type 0
Follows reported last [] = reported ≡ false
Follows reported last (r ∷ rest) = (reported ≡ true) × (last ≡ r.0)

record IsValid (interval : ℕ) (ctx : Context) : Type 0 where
  throttled : ctx.throttle_interval ≡ interval
  spaced : Spaced interval ctx.reports
  follows : Follows ctx.reported ctx.last_report ctx.reports

Spaced-cons :
    (interval now last : ℕ) (details : Payloads) (reported : Bool) (rest : List (ℕ × Payloads))
    → Spaced interval rest
    → Follows reported last rest
    → (reported && ltb now (last + interval)) ≡ false
    → Spaced interval ((now, details) ∷ rest)
Spaced-cons interval now last details reported [] s f late = tt
Spaced-cons interval now last details reported (r ∷ rest) s (told, at_last) late = (ground arith, s)

answered-IsValid :
    (interval : ℕ) (answer : Option Bool) (ctx : Context)
    → IsValid interval ctx
    → IsValid interval (answered answer ctx).1
unfolding answered
answered-IsValid interval none ctx v = v
answered-IsValid interval (some cancel) ctx v = record {
  throttled = v.throttled;
  spaced = v.spaced;
  follows = v.follows;
}

module _ (clock : ℕ → ℕ) (server : ℕ → Option Bool) (interval : ℕ) where
  heartbeat-IsValid :
      (details : Payloads) (ctx : Context)
      → IsValid interval ctx
      → IsValid interval (heartbeat clock server details ctx).1
  unfolding heartbeat report
  heartbeat-IsValid details ctx v =
      let now = clock ctx.readings in
      elim (Bool-cases (ctx.reported && ltb now (ctx.last_report + ctx.throttle_interval))) [
        | inl early ↦
            rw early (record { throttled = v.throttled; spaced = v.spaced; follows = v.follows })
        | inr late ↦
            let late' : (ctx.reported && ltb now (ctx.last_report + interval)) ≡ false =
              ap (λ i. ctx.reported && ltb now (ctx.last_report + i)) (sym v.throttled) ∙ late in
            rw late (
              answered-IsValid interval (server (length ctx.reports)) _ (record {
                throttled = v.throttled;
                spaced =
                    Spaced-cons interval now ctx.last_report details ctx.reported ctx.reports
                      v.spaced v.follows late';
                follows = (refl, refl);
              }))
      ]

  run_activity-IsValid :
      (a : Activity) (ctx : Context)
      → IsValid interval ctx
      → IsValid interval (run_activity clock server a ctx).1
  unfolding run_activity
  run_activity-IsValid (returns result) ctx v = v
  run_activity-IsValid (throw_application_error message type non_retryable) ctx v = v
  run_activity-IsValid (throw_exception message) ctx v = v
  run_activity-IsValid (record_heartbeat details k) ctx v =
      run_activity-IsValid (k _) _ (heartbeat-IsValid details ctx v)
  run_activity-IsValid (is_cancelled k) ctx v = run_activity-IsValid (k ctx.cancel_requested) ctx v
  run_activity-IsValid (set_will_complete_async k) ctx v =
      run_activity-IsValid k _
        (record { throttled = v.throttled; spaced = v.spaced; follows = v.follows })

new_context-IsValid :
    (info : ActivityInfo) (interval : ℕ) → IsValid interval (new_context info interval)
unfolding new_context
new_context-IsValid info interval = record { throttled = refl; spaced = tt; follows = refl }

heartbeat_throttle_interval-timeout :
    (task : ActivityTask) (d : Duration)
    → task.heartbeat_timeout ≡ some d
    → 0 < above_zero d
    → heartbeat_throttle_interval task ≡ above_zero d * 8 / 10
unfolding heartbeat_throttle_interval
heartbeat_throttle_interval-timeout task d e above =
    rw (e, lt→ltb 0 (above_zero d) above, heartbeat_throttle_interval) refl

-- However often an activity calls RecordHeartbeat, whatever the clock reads and the server answers, and
-- whether it returns or throws: its reports reach the server at least the throttle interval of its task
-- apart, and that interval is no longer than eight tenths of a heartbeat timeout above zero, so that
-- it leaves a fifth of it.
pub handle_activity-Spaced :
    (clock : ℕ → ℕ) (server : ℕ → Option Bool) (h : ActivityTaskHandler) (task : ActivityTask)
    → Spaced (heartbeat_throttle_interval task) (handle_activity clock server h task).1.reports
      × ((d : Duration)
          → task.heartbeat_timeout ≡ some d
          → 0 < above_zero d
          → heartbeat_throttle_interval task * 10 ≤ above_zero d * 8)
unfolding handle_activity
handle_activity-Spaced clock server h task =
    let interval = heartbeat_throttle_interval task in
    let ctx = new_context task.info interval in
    let start = new_context-IsValid task.info interval in
    (
      elim (Option-cases (h.activities task.info.activity_type)) [
        | inl unknown ↦
            let untouched : (handle_activity clock server h task).1 ≡ ctx =
              rw (unknown, handle_activity) refl in
            subst (λ x. Spaced interval x.reports) (sym untouched) start.spaced
        | inr (fn, known) ↦
            let chain = build_chain h.interceptors (λ args headers. fn task.info args) in
            let a = chain.head task.input task.info.headers in
            let ran : (handle_activity clock server h task).1
                ≡ (run_activity clock server a ctx).1 =
              rw (known, handle_activity) refl in
            subst (λ x. Spaced interval x.reports) (sym ran)
              (run_activity-IsValid clock server interval a ctx start).spaced
      ],
      λ d e above.
          let eight_tenths = heartbeat_throttle_interval-timeout task d e above in omega arith,
    )
