-- ===== src/Tasks/Queries.antt =====
-- What a query leaves of the sticky cache.
use temporal_cpp.Prelude.{
  ℕ, ◌≡◌, refl, sym, ap, ◌∙◌, inl, inr, String, Bool, true, false, Option, none, some, List, [],
  ◌∷◌, Key, ◌==◌, string_key, Bool-cases, Option-cases, if◌then◌else◌,
}
use mathlib.Core.Path.{subst}
use temporal_cpp.History.{Payload, Payloads, Event}
use temporal_cpp.Cache.{LruCache, get, entry, take_out, move_front}
use temporal_cpp.Runner.Markers.{Converter}
use temporal_cpp.Workflow.{Execution, Body}
use temporal_cpp.Tasks.Messages.{UserHandlers}
use temporal_cpp.Tasks.{
  Task, TaskHandler, handle, cached, on_hit, on_miss, serve, serves, is_full_history, Response,
  not_registered,
}

module _ {ℓ κ} {K : Type ℓ} {V : Type κ} ⦃e : Key K⦄ where
  entry-take_out :
      (k j : K) (order : List (K × V))
      → (j == k) ≡ false
      → entry j (take_out k order) ≡ entry j order
  entry-take_out k j [] h = refl
  entry-take_out k j ((i, v) ∷ rest) h =
      let ih = entry-take_out k j rest h in
      elim (Bool-cases (k == i)) [
        | inl t ↦
            let same : (j == k) ≡ (j == i) = ap (λ x. j == x) (e.equal_sound k i t) in
            rw (t, sym same ∙ h)
        | inr t ↦ rw t (ap (λ o. if j == i then some v else o) ih)
      ]

  entry-move_front : (k j : K) (order : List (K × V)) → entry j (move_front k order) ≡ entry j order
  entry-move_front k j order = elim (Option-cases (entry k order)) [
    | inl n ↦ rw (n, move_front)
    | inr (v, s) ↦
        let front : move_front k order ≡ (k, v) ∷ take_out k order = rw (s, move_front) in
        ap (entry j) front ∙ elim (Bool-cases (j == k)) [
          | inl t ↦ rw t (sym s ∙ ap (λ x. entry x order) (sym (e.equal_sound j k t)))
          | inr t ↦ rw t (entry-take_out k j order t)
        ]
  ]

-- Two caches that hold the same executions.
abbrev pub Alike :
    {U : Type 0} → LruCache String (Execution U) → LruCache String (Execution U) → Type 0
Alike c c' = (k : String) → (c'.index k ≡ c.index k) × (entry k c'.order ≡ entry k c.order)

get-Alike : {U : Type 0} (k : String) (c : LruCache String (Execution U)) → Alike c (get k c).1
unfolding get
get-Alike k c j = elim (Bool-cases (c.index k)) [
  | inl h ↦ rw h (refl, entry-move_front k j c.order)
  | inr h ↦ rw h (refl, refl)
]

if_Alike :
    {A : Type 0} {U : Type 0} (c : LruCache String (Execution U)) (b : Bool)
    (p q : A × LruCache String (Execution U))
    → Alike c p.1
    → Alike c q.1
    → Alike c (if b then p else q).1
if_Alike c true p q h k = h
if_Alike c false p q h k = k

cached-Alike : {U : Type 0} (t : Task) (c : LruCache String (Execution U)) → Alike c (cached t c).1
unfolding cached
cached-Alike {U} t c =
    let looked = get-Alike t.info.run_id c in
    let c₁ = (get t.info.run_id c).1 in
    if_Alike c (is_full_history t.events) (none, c) _ (λ k. (refl, refl))
      (elim (get t.info.run_id c).0
        as (λ f.
          Alike c
            (elim f as (λ g. Option (Execution U) × LruCache String (Execution U)) [
              | none ↦ (none, c₁)
              | some x ↦ if serves t x then (some x, c₁) else (none, c₁)
            ]).1) [
              | none ↦ looked
              | some x ↦ if_Alike c (serves t x) (some x, c₁) (none, c₁) looked looked
            ])

module _ (conv : Converter) (fresh : ℕ → Payload) {U : Type 0} (handlers : UserHandlers U) where
  serve-query :
      (fetched : Option (List Event)) (t : Task) (q : String × Payloads) (wf : Body U × U)
      (found : Option (Execution U)) (th : TaskHandler U)
      → t.query ≡ some q
      → (serve conv fresh handlers fetched t wf found th).1.cache ≡ th.cache
  unfolding serve on_hit on_miss
  serve-query fetched t q wf (some x) th e = rw e
  serve-query (some events) t q wf none th e = rw e
  serve-query none t q wf none th e = rw e

  -- A query changes no execution in the sticky cache, adds none and drops none, whether it is
  -- answered from the cache or from a runner that is rebuilt for it: only the order of use moves.
  pub handle_query-Alike :
      (fetched : Option (List Event)) (t : Task) (q : String × Payloads) (th : TaskHandler U)
      → t.query ≡ some q
      → Alike th.cache (handle conv fresh handlers fetched t th).1.cache
  unfolding handle
  handle_query-Alike fetched t q th e =
      elim (th.workflows t.info.workflow_type)
        as (λ w.
          Alike th.cache
            (elim w as (λ v. Response × TaskHandler U) [
              | none ↦ (not_registered, th)
              | some wf ↦
                  serve conv fresh handlers fetched t wf (cached t th.cache).0
                    (record th { cache = (cached t th.cache).1 })
            ]).1.cache) [
              | none ↦ λ k. (refl, refl)
              | some wf ↦
                  subst (Alike th.cache)
                    (sym (
                      serve-query fetched t q wf (cached t th.cache).0
                        (record th { cache = (cached t th.cache).1 }) e))
                    (cached-Alike t th.cache)
            ]
