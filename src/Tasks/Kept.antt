-- ===== src/Tasks/Kept.antt =====
-- What answering a task without updates and queries keeps in the sticky cache (the end of Handle,
-- src/internal/workflow_task_handler.cpp).
use temporal_cpp.Prelude.{
  ℕ, ◌≡◌, sym, ap, ◌∙◌, inl, inr, true, false, none, some, String, List, [], ◌∷◌, ◌==◌, ◌||◌,
  string_key, Bool-cases, if◌then◌else◌, arith, beq_refl, map,
}
use temporal_cpp.History.{Payload}
use temporal_cpp.Cache.{LruCache, get, put, entry, contains, erase}
use temporal_cpp.Cache.Order.{has}
use temporal_cpp.Cache.Bounds.{IsValid, put-IsValid, get-put}
use temporal_cpp.Runner.Markers.{Converter}
use temporal_cpp.Workflow.{Execution, is_done}
use temporal_cpp.Tasks.Messages.{UserHandlers, process_messages}
use temporal_cpp.Tasks.Cached.{erase-absent}
use temporal_cpp.Tasks.{Task, TaskHandler, store, complete, respond}

module _ {U : Type 0} (k : String) where
  get-contains :
      (x : Execution U) (c : LruCache String (Execution U))
      → (get k c).0 ≡ some x
      → c.index k ≡ true
  unfolding get
  get-contains x c h = elim (Bool-cases (c.index k)) [ inl e ↦ e | inr e ↦ ground arith ]

  get-absent : (c : LruCache String (Execution U)) → contains k c ≡ false → (get k c).0 ≡ none
  unfolding get
  get-absent c h = rw h

  entry-stored :
      (x : Execution U) (o : List (String × Execution U))
      → has k o ≡ true
      → entry k (map (λ p. if p.0 == k then (p.0, x) else p) o) ≡ some x
  entry-stored x [] h = ground arith
  entry-stored x ((j, v) ∷ o) h = elim (Bool-cases (k == j)) [
    | inl t ↦
        let back : (j == k) ≡ true =
          ap (λ i. i == k) (sym (string_key.equal_sound k j t)) ∙ beq_refl k in
        rw (back, t)
    | inr f ↦
        let ih = entry-stored x o (sym (ap (λ b. b || has k o) f) ∙ h) in
        elim (Bool-cases (j == k)) [ inl d ↦ rw (d, f) ih | inr d ↦ rw (d, f) ih ]
  ]

  get-store :
      (x : Execution U) (c : LruCache String (Execution U))
      → IsValid c
      → c.index k ≡ true
      → (get k (store k x c)).0 ≡ some x
  unfolding get
  get-store x c s h = rw (h, entry-stored x c.order (sym (s.in_step.indexed k) ∙ h))

module _ (conv : Converter) (fresh : ℕ → Payload) {U : Type 0} (handlers : UserHandlers U) where
  -- The runner is kept for the next task, unless the run is done.
  pub complete-keeps :
      (t : Task) (x : Execution U) (th : TaskHandler U) (c : LruCache String (Execution U))
      → IsValid c
      → t.messages ≡ []
      → (get t.info.run_id
          (complete conv fresh handlers t x
            (record th { cache = put t.info.run_id x c })).1.cache).0
        ≡ (if is_done conv fresh x then none else some x)
  unfolding complete respond process_messages
  complete-keeps t x th c s m =
      let c₁ = put t.info.run_id x c in
      let stored = store t.info.run_id x c₁ in
      rw m (elim (Bool-cases (is_done conv fresh x)) [
        | inl e ↦ rw e (
            get-absent t.info.run_id (erase t.info.run_id stored)
              (erase-absent conv fresh handlers t.info.run_id stored))
        | inr e ↦ rw e (
            get-store t.info.run_id x c₁ (put-IsValid t.info.run_id x c s)
              (get-contains t.info.run_id x c₁ (get-put t.info.run_id x c s)))
      ])
