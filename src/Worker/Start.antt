-- ===== src/Worker/Start.antt =====
-- WorkerImpl::Start (src/internal/worker_impl.cpp): how many poll loops of each kind it starts and how
-- it configures the scalers, and which of the loops park (the first lines of WorkflowPollLoop and
-- ActivityPollLoop).
pub mod Pools
use temporal_cpp.Prelude.{
  ℕ, zero, suc, ◌+◌, ◌-◌, ◌*◌, ◌≤◌, Bool, true, false, not, ◌&&◌, List, [], ◌∷◌, ◌++◌, ltb, leb,
  if◌then◌else◌, length, ◌≡◌, refl, sym, ap, ◌∙◌, arith, Bool-cases, inl, inr, length-append,
}
use temporal_cpp.Prelude.Int.{ℤ, pos, ltb_ℤ, pos_part}
use temporal_cpp.Worker.{PollerScaler, configure}

-- The fields of WorkerOptions that Start reads.
pub record StartOptions : Type 0 where
  pub workflow_task_pollers : ℤ
  pub activity_task_pollers : ℤ
  pub enable_poller_autoscaling : Bool
  pub min_concurrent_pollers : ℤ
  pub max_concurrent_pollers : ℤ
  pub autoscaling_idle_polls_before_park : ℕ
  pub enable_sessions : Bool

-- What is registered: has_workflows(), has_activities(), has_operations().
pub record Registered : Type 0 where
  pub has_workflows : Bool
  pub has_activities : Bool
  pub has_operations : Bool

-- A thread that Start begins, by the loop that it runs and its index.
pub data Loop : Type 0 where
  workflow_loop : Bool → ℕ → Loop
  activity_loop : Bool → ℕ → Loop
  nexus_loop : Loop

pub record Pollers : Type 0 where
  pub started : Bool
  pub wf_scaler : PollerScaler
  pub act_scaler : PollerScaler
  pub threads : List Loop

abbrev pub max : ℕ → ℕ → ℕ
max a b = if ltb a b then b else a

abbrev pub min : ℕ → ℕ → ℕ
min a b = if ltb b a then b else a

unfoldable pub base_pollers : ℤ → ℕ
base_pollers n = if ltb_ℤ (pos 0) n then pos_part n else 1

unfoldable pub min_hot : StartOptions → ℕ
min_hot o = if o.enable_poller_autoscaling then max 1 (pos_part o.min_concurrent_pollers) else 0

unfoldable pub pool_size : StartOptions → ℕ → ℕ
unfolding min_hot
pool_size o base =
    if o.enable_poller_autoscaling
    then max (max base (pos_part o.max_concurrent_pollers)) (min_hot o)
    else base

-- The loops of a `for`, from an index on.
unfoldable pub workflow_loops : ℕ → ℕ → List Loop
workflow_loops i zero = []
workflow_loops i (suc n) = workflow_loop false i ∷ workflow_loop true i ∷ workflow_loops (suc i) n

unfoldable pub activity_loops : ℕ → ℕ → List Loop
activity_loops i zero = []
activity_loops i (suc n) = activity_loop false i ∷ activity_loops (suc i) n

unfoldable pub start_workflows : StartOptions → Pollers → Pollers
unfolding base_pollers min_hot pool_size workflow_loops
start_workflows o w =
    let pool = pool_size o (base_pollers o.workflow_task_pollers) in
    let always_hot = if o.enable_poller_autoscaling then 2 * min (min_hot o) pool else 2 * pool in
    record w {
      wf_scaler =
          configure always_hot (2 * pool - always_hot) o.autoscaling_idle_polls_before_park
            w.wf_scaler;
      threads = w.threads ++ workflow_loops 0 pool;
    }

unfoldable pub start_activities : StartOptions → Pollers → Pollers
unfolding base_pollers min_hot pool_size activity_loops
start_activities o w =
    let pool = pool_size o (base_pollers o.activity_task_pollers) in
    let always_hot = if o.enable_poller_autoscaling then min (min_hot o) pool else pool in
    record w {
      act_scaler =
          configure always_hot (pool - always_hot) o.autoscaling_idle_polls_before_park
            w.act_scaler;
      threads =
          w.threads
          ++ activity_loops 0 pool
          ++ (if o.enable_sessions then activity_loop true 0 ∷ [] else []);
    }

-- A second call does nothing.
unfoldable pub start : StartOptions → Registered → Pollers → Pollers
unfolding start_workflows start_activities
start o r w =
    let w₁ : Pollers = record w { started = true } in
    let w₂ = if r.has_workflows then start_workflows o w₁ else w₁ in
    let w₃ = if r.has_activities then start_activities o w₂ else w₂ in
    let w₄ : Pollers =
      if r.has_operations then record w₃ { threads = w₃.threads ++ nexus_loop ∷ [] } else w₃ in
    if w.started then w else w₄

-- `scalable` of the two poll loops.
unfoldable pub is_scalable : StartOptions → Loop → Bool
is_scalable o (workflow_loop sticky index) =
    o.enable_poller_autoscaling && leb (max 1 (pos_part o.min_concurrent_pollers)) index
is_scalable o (activity_loop session index) =
    not session
    && o.enable_poller_autoscaling
    && leb (max 1 (pos_part o.min_concurrent_pollers)) index
is_scalable o nexus_loop = false

-- How many pass a test.
abbrev pub count {ℓ} : {A : Type ℓ} → (A → Bool) → List A → ℕ
count p [] = 0
count p (x ∷ xs) = (if p x then 1 else 0) + count p xs

-- The loops of the workflow queues that park, and those that do not.
abbrev pub parks_workflow : StartOptions → Loop → Bool
parks_workflow o (workflow_loop sticky index) = is_scalable o (workflow_loop sticky index)
parks_workflow o _ = false

abbrev pub stays_workflow : StartOptions → Loop → Bool
stays_workflow o (workflow_loop sticky index) = not (is_scalable o (workflow_loop sticky index))
stays_workflow o _ = false
