-- ===== src/Tasks/Cached.antt =====
-- What handling a task leaves in the sticky cache.
use temporal_cpp.Prelude.{
  ℕ, suc, ◌≡◌, refl, sym, ap, ◌∙◌, inl, inr, String, Bool, true, false, Option, none, some, List,
  [], ◌∷◌, map, ◌==◌, string_key, Bool-cases, Option-cases, if◌then◌else◌, length, arith, beq_refl,
}
use temporal_cpp.History.{Payload, Event}
use temporal_cpp.Cache.{LruCache, get, erase, contains}
use temporal_cpp.Cache.Order.{has, Distinct}
use temporal_cpp.Cache.Bounds.{IsValid, put-IsValid, get-IsValid, erase-IsValid}
use temporal_cpp.Runner.Markers.{Converter}
use temporal_cpp.Workflow.{Execution, Body, is_done, apply_and_resume}
use temporal_cpp.Determinism.{match_replay_commands}
use temporal_cpp.Prelude.{ltb}
use temporal_cpp.Tasks.Messages.{UserHandlers, Message, process_messages}
use temporal_cpp.Tasks.Reapplied.{process_messages-runner}
use temporal_cpp.Runner.{blocked}
use temporal_cpp.Tasks.{
  Task, TaskHandler, handle, cached, store, complete, respond, on_hit, on_replay, on_miss,
  after_check, serve, reset_sticky_queue, Response, not_registered, serves, is_full_history,
  rebuilt,
}

module _ {U : Type 0} (k : String) (x : Execution U) where
  abbrev put_in : String × Execution U → String × Execution U
  put_in p = if p.0 == k then (p.0, x) else p

  put_in-key : (p : String × Execution U) → (put_in p).0 ≡ p.0
  put_in-key p = elim (Bool-cases (p.0 == k)) [ inl h ↦ rw h | inr h ↦ rw h ]

  has-map : (j : String) (o : List (String × Execution U)) → has j (map put_in o) ≡ has j o
  has-map j [] = refl
  has-map j (p ∷ o) = rw (put_in-key p, has-map j o)

  map-Distinct : (o : List (String × Execution U)) → Distinct o → Distinct (map put_in o)
  map-Distinct [] d = tt
  map-Distinct (p ∷ o) d =
      (ap (λ i. has i (map put_in o)) (put_in-key p) ∙ has-map p.0 o ∙ d.0, map-Distinct o d.1)

  map-length : (o : List (String × Execution U)) → length (map put_in o) ≡ length o
  map-length [] = refl
  map-length (p ∷ o) = ap suc (map-length o)

  store-IsValid : (c : LruCache String (Execution U)) → IsValid c → IsValid (store k x c)
  store-IsValid c s = record {
    in_step = record {
      distinct = map-Distinct c.order s.in_step.distinct;
      indexed = λ j. s.in_step.indexed j ∙ sym (has-map j c.order);
      sized = s.in_step.sized ∙ sym (map-length c.order);
    };
    fits = s.fits;
  }

if_IsValid :
    {A : Type 0} {U : Type 0} (b : Bool) (p q : A × LruCache String (Execution U))
    → IsValid p.1
    → IsValid q.1
    → IsValid (if b then p else q).1
if_IsValid true p q h k = h
if_IsValid false p q h k = k

cached-IsValid :
    {U : Type 0} (t : Task) (c : LruCache String (Execution U)) → IsValid c → IsValid (cached t c).1
unfolding cached
cached-IsValid {U} t c s =
    let looked = get-IsValid t.info.run_id c s in
    let c₁ = (get t.info.run_id c).1 in
    if_IsValid (is_full_history t.events) (none, c) _ s
      (elim (get t.info.run_id c).0
        as (λ f.
          IsValid
            (elim f as (λ g. Option (Execution U) × LruCache String (Execution U)) [
              | none ↦ (none, c₁)
              | some x ↦ if serves t x then (some x, c₁) else (none, c₁)
            ]).1) [
              | none ↦ looked
              | some x ↦ if_IsValid (serves t x) (some x, c₁) (none, c₁) looked looked
            ])

module _ (conv : Converter) (fresh : ℕ → Payload) {U : Type 0} (handlers : UserHandlers U) where
  respond-IsValid :
      (t : Task) (sent : List Message) (x : Execution U) (th : TaskHandler U)
      → IsValid th.cache
      → IsValid (respond conv fresh handlers t sent x th).1.cache
  unfolding respond
  respond-IsValid t sent x th s =
      let erased = erase-IsValid t.info.run_id th.cache s in
      elim (is_done conv fresh x)
        as (λ b.
          IsValid (if b then record th { cache = erase t.info.run_id th.cache } else th).cache) [
            | true ↦ erased
            | false ↦ s
          ]

  complete-IsValid :
      (t : Task) (x : Execution U) (th : TaskHandler U)
      → IsValid th.cache
      → IsValid (complete conv fresh handlers t x th).1.cache
  unfolding complete
  complete-IsValid t x th s =
      let (sent, x₁) = process_messages handlers t.messages x in
      respond-IsValid t sent x₁ (record th { cache = store t.info.run_id x₁ th.cache })
        (store-IsValid t.info.run_id x₁ th.cache s)

  on_hit-IsValid :
      (t : Task) (x : Execution U) (th : TaskHandler U)
      → IsValid th.cache
      → IsValid (on_hit conv fresh handlers t x th).1.cache
  unfolding on_hit
  on_hit-IsValid t x th s = elim (Option-cases t.query) [
    | inl e ↦ rw e (
        complete-IsValid t (apply_and_resume conv fresh t.events x) _
          (store-IsValid t.info.run_id (apply_and_resume conv fresh t.events x) th.cache s))
    | inr (q, e) ↦ rw e s
  ]

  after_check-IsValid :
      (t : Task) (x : Execution U) (verdict : Option String) (th : TaskHandler U)
      → IsValid th.cache
      → IsValid (after_check conv fresh handlers t x verdict th).1.cache
  unfolding after_check
  after_check-IsValid t x (some detail) th s = s
  after_check-IsValid t x none th s =
      complete-IsValid t x _ (put-IsValid t.info.run_id x th.cache s)

  on_replay-IsValid :
      (t : Task) (wf : Body U × U) (th : TaskHandler U)
      → IsValid th.cache
      → IsValid (on_replay conv fresh handlers t wf th).1.cache
  unfolding on_replay
  on_replay-IsValid t wf th s =
      let x =
        rebuilt conv fresh handlers t (ltb 0 t.previous_started_event_id) wf t.events th.resolver
          th.chain in
      after_check-IsValid t x
        (match_replay_commands x.runner.produced_commands x.runner.scan.commands) th s

  on_miss-IsValid :
      (fetched : Option (List Event)) (t : Task) (wf : Body U × U) (th : TaskHandler U)
      → IsValid th.cache
      → IsValid (on_miss conv fresh handlers fetched t wf th).1.cache
  unfolding on_miss
  on_miss-IsValid fetched t wf th s = elim (Option-cases t.query) [
    | inl e ↦
        rw e
          (elim (is_full_history t.events)
            as (λ b.
              IsValid
                (if b
                  then on_replay conv fresh handlers t wf (record th { replays = suc th.replays })
                  else (reset_sticky_queue, th)).1.cache) [
                    | true ↦ on_replay-IsValid t wf (record th { replays = suc th.replays }) s
                    | false ↦ s
                  ])
    | inr (q, e) ↦ elim fetched as (λ f. IsValid (on_miss conv fresh handlers f t wf th).1.cache) [
      | none ↦ rw e s
      | some events ↦ rw e s
    ]
  ]

  served-IsValid :
      (fetched : Option (List Event)) (t : Task) (wf : Body U × U) (th : TaskHandler U)
      (found : Option (Execution U))
      → IsValid th.cache
      → IsValid (serve conv fresh handlers fetched t wf found th).1.cache
  unfolding serve
  served-IsValid fetched t wf th (some x) s =
      on_hit-IsValid t x (record th { cache_hits = suc th.cache_hits }) s
  served-IsValid fetched t wf th none s = on_miss-IsValid fetched t wf th s

  -- Whatever a task is (a continuation, a full history, a query, for a workflow that is known or
  -- not) and however it ends, the sticky cache stays valid: its list and its index agree and its
  -- capacity is respected.
  pub handle-IsValid :
      (fetched : Option (List Event)) (t : Task) (th : TaskHandler U)
      → IsValid th.cache
      → IsValid (handle conv fresh handlers fetched t th).1.cache
  unfolding handle
  handle-IsValid fetched t th s =
      elim (th.workflows t.info.workflow_type)
        as (λ w.
          IsValid
            (elim w as (λ v. Response × TaskHandler U) [
              | none ↦ (not_registered, th)
              | some wf ↦
                  serve conv fresh handlers fetched t wf (cached t th.cache).0
                    (record th { cache = (cached t th.cache).1 })
            ]).1.cache) [
              | none ↦ s
              | some wf ↦
                  served-IsValid fetched t wf (record th { cache = (cached t th.cache).1 })
                    (cached t th.cache).0 (cached-IsValid t th.cache s)
            ]

  pub erase-absent :
      (k : String) (cache : LruCache String (Execution U)) → contains k (erase k cache) ≡ false
  unfolding erase
  erase-absent k cache = ground (arith, beq_refl k)

  -- A run that is done when its task is answered is not in the cache any more.
  pub complete-drops_done :
      (t : Task) (x : Execution U) (th : TaskHandler U)
      → is_done conv fresh x ≡ true
      → contains t.info.run_id (complete conv fresh handlers t x th).1.cache ≡ false
  unfolding complete respond
  complete-drops_done t x th h =
      let done : is_done conv fresh (process_messages handlers t.messages x).1 ≡ true =
        ap (λ r. elim r.status [ blocked ↦ false | _ ↦ true ])
          (process_messages-runner handlers t.messages x)
        ∙ h in
      rw done (
        erase-absent t.info.run_id
          (store t.info.run_id (process_messages handlers t.messages x).1 th.cache))
