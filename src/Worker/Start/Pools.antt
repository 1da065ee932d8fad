-- ===== src/Worker/Start/Pools.antt =====
-- That the scaler of the workflow queues counts the poll loops that were started.
use temporal_cpp.Prelude.{
  ℕ, zero, suc, ◌+◌, ◌-◌, ◌*◌, ◌≤◌, Bool, true, false, not, List, [], ◌∷◌, ◌++◌, leb, if◌then◌else◌,
  ◌≡◌, refl, sym, ap, ◌∙◌, arith, Bool-cases, inl, inr, leb→le, ◌<◌,
}
use mathlib.Core.Path.{subst}
use temporal_cpp.Prelude.Int.{ℤ, pos_part}
use temporal_cpp.Worker.{configure}
use temporal_cpp.Worker.Start.{
  StartOptions, Registered, Loop, Pollers, workflow_loop, activity_loop, nexus_loop, max, min,
  base_pollers, min_hot, pool_size, workflow_loops, activity_loops, start_workflows,
  start_activities, start, is_scalable, count, parks_workflow, stays_workflow,
}

count-append {ℓ} :
    {A : Type ℓ} (p : A → Bool) (xs ys : List A) → count p (xs ++ ys) ≡ count p xs + count p ys
count-append p [] ys = omega arith
count-append p (x ∷ xs) ys = omega (arith, count-append p xs ys)

module _ (o : StartOptions) where
  abbrev hot_each : ℕ
  hot_each = max 1 (pos_part o.min_concurrent_pollers)

  parks-loops :
      (i n : ℕ)
      → o.enable_poller_autoscaling ≡ true
      → count (parks_workflow o) (workflow_loops i n) ≡ 2 * (i + n - hot_each - (i - hot_each))
  unfolding workflow_loops is_scalable
  parks-loops i zero scale = omega arith
  parks-loops i (suc n) scale =
      let rest = parks-loops (suc i) n scale in
      elim (Bool-cases (leb hot_each i)) [
        | inl parks ↦ let le = leb→le hot_each i parks in rw (scale, parks) (omega (arith, rest))
        | inr stays ↦
            let lt : i < hot_each = ground arith in rw (scale, stays) (omega (arith, rest))
      ]

  parks-fixed :
      (i n : ℕ)
      → o.enable_poller_autoscaling ≡ false
      → count (parks_workflow o) (workflow_loops i n) ≡ 0
  unfolding workflow_loops is_scalable
  parks-fixed i zero fixed = refl
  parks-fixed i (suc n) fixed = rw fixed (omega (arith, parks-fixed (suc i) n fixed))

  one_of_two : (b : Bool) → (if b then 1 else 0) + (if not b then 1 else 0) ≡ 1
  one_of_two true = refl
  one_of_two false = refl

  all-loops :
      (i n : ℕ)
      → count (parks_workflow o) (workflow_loops i n)
          + count (stays_workflow o) (workflow_loops i n)
        ≡ 2 * n
  unfolding workflow_loops
  all-loops i zero = omega arith
  all-loops i (suc n) =
      let rest = all-loops (suc i) n in
      let even = one_of_two (is_scalable o (workflow_loop false i)) in
      let odd = one_of_two (is_scalable o (workflow_loop true i)) in omega (arith, rest, even, odd)

  no_parks :
      (i n : ℕ)
      → (count (parks_workflow o) (activity_loops i n) ≡ 0)
        × (count (stays_workflow o) (activity_loops i n) ≡ 0)
  unfolding activity_loops
  no_parks i zero = (refl, refl)
  no_parks i (suc n) = let (p, s) = no_parks (suc i) n in (omega (arith, p), omega (arith, s))

base_pollers-positive : (n : ℤ) → 1 ≤ base_pollers n
unfolding base_pollers
base_pollers-positive n = ground arith

pool_size-hot :
    (o : StartOptions) (base : ℕ)
    → o.enable_poller_autoscaling ≡ true
    → (min_hot o ≡ hot_each o) × (hot_each o ≤ pool_size o base)
unfolding pool_size min_hot
pool_size-hot o base scale = (ap (λ b. if b then hot_each o else 0) scale, ground arith)

-- The scaler of the workflow queues has as many scalable slots as there are loops that park, and as
-- many hot ones as there are loops that do not, of which there is one at least for each queue.
abbrev pub Agree : StartOptions → Pollers → Type 0
Agree o w =
    (count (parks_workflow o) w.threads ≡ w.wf_scaler.max_scalable)
    × ((count (stays_workflow o) w.threads ≡ w.wf_scaler.always_hot) × (2 ≤ w.wf_scaler.always_hot))

pool_size-positive : (o : StartOptions) (base : ℕ) → 1 ≤ base → 1 ≤ pool_size o base
unfolding pool_size
pool_size-positive o base h = ground arith

start_workflows-Agree :
    (o : StartOptions) (w : Pollers) → w.threads ≡ [] → Agree o (start_workflows o w)
unfolding start_workflows configure
start_workflows-Agree o w fresh =
    let base = base_pollers o.workflow_task_pollers in
    let pool = pool_size o base in
    let positive = pool_size-positive o base (base_pollers-positive o.workflow_task_pollers) in
    let loops = workflow_loops 0 pool in
    let all = all-loops o 0 pool in
    let always_hot = if o.enable_poller_autoscaling then 2 * min (min_hot o) pool else 2 * pool in
    let parks_fresh = ap (λ t. count (parks_workflow o) (t ++ loops)) fresh in
    let stays_fresh = ap (λ t. count (stays_workflow o) (t ++ loops)) fresh in
    elim (Bool-cases o.enable_poller_autoscaling) [
      | inl scale ↦
          let (same, fits) = pool_size-hot o base scale in
          let parks = parks-loops o 0 pool scale in
          let low : min (min_hot o) pool ≡ hot_each o = ground (arith, same, fits) in
          let hot : always_hot ≡ 2 * hot_each o =
            ap (λ b. if b then 2 * min (min_hot o) pool else 2 * pool) scale
            ∙ ap (λ n. 2 * n) low in
          let one : 1 ≤ hot_each o = ground arith in
          (
            parks_fresh ∙ omega (arith, parks, hot, fits),
            (stays_fresh ∙ omega (arith, parks, all, hot, fits), omega (arith, hot, one)),
          )
      | inr fixed ↦
          let parks = parks-fixed o 0 pool fixed in
          let hot : always_hot ≡ 2 * pool =
            ap (λ b. if b then 2 * min (min_hot o) pool else 2 * pool) fixed in
          (
            parks_fresh ∙ omega (arith, parks, hot),
            (stays_fresh ∙ omega (arith, parks, all, hot), omega (arith, hot, positive)),
          )
    ]

-- Threads that serve no workflow queue change nothing.
append-Agree :
    (o : StartOptions) (w : Pollers) (more : List Loop)
    → count (parks_workflow o) more ≡ 0
    → count (stays_workflow o) more ≡ 0
    → Agree o w
    → Agree o (record w { threads = w.threads ++ more })
append-Agree o w more p s (parks, (stays, hot)) =
    let cp = count-append (parks_workflow o) w.threads more in
    let cs = count-append (stays_workflow o) w.threads more in
    (omega (arith, cp, p, parks), (omega (arith, cs, s, stays), hot))

session_loop-uncounted :
    (o : StartOptions) (sessions : Bool)
    → (count (parks_workflow o) (if sessions then activity_loop true 0 ∷ [] else []) ≡ 0)
      × (count (stays_workflow o) (if sessions then activity_loop true 0 ∷ [] else []) ≡ 0)
session_loop-uncounted o true = (refl, refl)
session_loop-uncounted o false = (refl, refl)

start_activities-Agree :
    (o : StartOptions) (w : Pollers) → Agree o w → Agree o (start_activities o w)
unfolding start_activities
start_activities-Agree o w a =
    let pool = pool_size o (base_pollers o.activity_task_pollers) in
    let (p, s) = no_parks o 0 pool in
    let (p', s') = session_loop-uncounted o o.enable_sessions in
    let first = append-Agree o w (activity_loops 0 pool) p s a in
    append-Agree o (record w { threads = w.threads ++ activity_loops 0 pool })
      (if o.enable_sessions then activity_loop true 0 ∷ [] else []) p' s' first

if_Agree :
    (o : StartOptions) (b : Bool) (v w : Pollers)
    → Agree o v
    → Agree o w
    → Agree o (if b then v else w)
if_Agree o true v w h k = h
if_Agree o false v w h k = k

-- What Start comes to on a worker with workflows that was not started.
start-first :
    (o : StartOptions) (r : Registered) (w : Pollers)
    → w.started ≡ false
    → r.has_workflows ≡ true
    → start o r w ≡ (
        let w₂ = start_workflows o (record w { started = true }) in
        let w₃ = if r.has_activities then start_activities o w₂ else w₂ in
        if r.has_operations then record w₃ { threads = w₃.threads ++ nexus_loop ∷ [] } else w₃)
unfolding start
start-first o r w idle workflows =
    let w₁ : Pollers = record w { started = true } in
    let others : Bool → Pollers = λ has_workflows.
      let w₂ = if has_workflows then start_workflows o w₁ else w₁ in
      let w₃ = if r.has_activities then start_activities o w₂ else w₂ in
      if r.has_operations then record w₃ { threads = w₃.threads ++ nexus_loop ∷ [] } else w₃ in
    ap (λ b. if b then w else others r.has_workflows) idle ∙ ap others workflows

-- A worker with workflows, started for the first time: the scaler of the workflow queues has exactly as
-- many scalable slots as there are loops of these queues that park, and as many always hot ones as
-- there are loops that do not, two at least, whatever the numbers of pollers in the options are
-- (negative ones as well), and with or without autoscaling, activities, sessions and Nexus.
pub start-Agree :
    (o : StartOptions) (r : Registered) (w : Pollers)
    → w.started ≡ false
    → w.threads ≡ []
    → r.has_workflows ≡ true
    → Agree o (start o r w)
unfolding start
start-Agree o r w idle fresh workflows =
    let w₁ : Pollers = record w { started = true } in
    let w₂ = start_workflows o w₁ in
    let a₂ = start_workflows-Agree o w₁ fresh in
    let w₃ = if r.has_activities then start_activities o w₂ else w₂ in
    let a₃ =
      if_Agree o r.has_activities (start_activities o w₂) w₂ (start_activities-Agree o w₂ a₂) a₂ in
    let w₄ : Pollers = record w₃ { threads = w₃.threads ++ nexus_loop ∷ [] } in
    let a₄ =
      if_Agree o r.has_operations w₄ w₃ (append-Agree o w₃ (nexus_loop ∷ []) refl refl a₃) a₃ in
    subst (Agree o) (sym (start-first o r w idle workflows)) a₄
