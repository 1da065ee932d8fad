-- ===== src/Coroutine/Progress.antt =====
-- Which waits of a coroutine can end, and when its destructor does (src/internal/coroutine.cpp).
use temporal_cpp.Prelude.{
  ℕ, ◌≤◌, Bool, true, false, ◌&&◌, ◌||◌, Option, none, some, List, [], ◌∷◌, bind, length, ◌≡◌, refl,
  sym, ap, ◌∙◌, ltb, leb, arith, ltb→lt, leb→le, Option-cases, Bool-cases, inl, inr, ◌⊎◌,
}
use temporal_cpp.Coroutine.{
  State, Controller, Action, controllers, coroutines, in_resume, in_resume_for, destroying, joining,
  joined, running, suspended, unwinding, finished, step, Reachable, controller_wakes, thread_wakes,
  yields, ends,
}
use temporal_cpp.Coroutine.Exhaustive.{all_states, all_states_lem, all_actions, all_actions_lem}
use temporal_cpp.Coroutine.Protocol.{
  is_consistent, implies, implies-elim, and-left, and-right, and-intro, stepwise, stepwise_lem,
  Reachable-is_consistent,
}

-- The controller is in a wait, or in `join()`.
abbrev pub is_blocked : Controller → Bool
is_blocked in_resume = true
is_blocked in_resume_for = true
is_blocked destroying = true
is_blocked joining = true
is_blocked _ = false

is_some {ℓ} : {A : Type ℓ} → Option A → Bool
is_some none = false
is_some (some a) = true

is_some_lem {ℓ} : {A : Type ℓ} (o : Option A) → is_some o ≡ true → (a : A) × (o ≡ some a)
unfolding is_some
is_some_lem none h = absurd cc
is_some_lem (some a) h = (a, refl)

-- An action of the thread whose turn it is.
abbrev pub due : State → Action
due s = elim s.controller [
  | joining ↦ controller_wakes
  | _ ↦ elim s.turn [
    | controllers ↦ controller_wakes
    | coroutines ↦ elim s.thread [ running ↦ yields | unwinding ↦ ends false | _ ↦ thread_wakes ]
  ]
]

is_none_test {ℓ} : {A : Type ℓ} → Option A → Bool
is_none_test none = true
is_none_test (some a) = false

is_none_lem {ℓ} : {A : Type ℓ} (o : Option A) → is_none_test o ≡ true → o ≡ none
unfolding is_none_test
is_none_lem none h = refl
is_none_lem (some a) h = absurd cc

-- The destructor waits in `join()` for a thread that waits in Yield.
abbrev pub is_hung : State → Bool
is_hung s =
    elim s.controller [ joining ↦ true | _ ↦ false ]
    && elim s.thread [ suspended ↦ true | _ ↦ false ]

no_action : Bool → State → Bool
unfolding is_none_test
no_action swallows s = all_actions λ a. is_none_test (step swallows a s)

no_action_lem :
    (swallows : Bool) (s : State)
    → no_action swallows s ≡ true
    → (a : Action) → step swallows a s ≡ none
unfolding no_action
no_action_lem swallows s h a =
    is_none_lem (step swallows a s) (all_actions_lem (λ x. is_none_test (step swallows x s)) h a)

abbrev goes_or_hangs : Bool → State → Bool
goes_or_hangs swallows s =
    is_some (step swallows (due s) s) || (swallows && is_hung s && no_action swallows s)

wakes :
    (swallows : Bool)
    → all_states (λ s.
      implies (is_consistent swallows s && is_blocked s.controller) (goes_or_hangs swallows s))
      ≡ true
unfolding is_consistent step is_some no_action
wakes false = refl
wakes true = refl

-- While the controller waits for the coroutine, one of the two can go on, and not because a time-out
-- passes: no wake-up is lost. The one exception is a body that swallows CoroutineAbort and yields
-- again: then the destructor may stand in `join()` and the thread in Yield, and nothing can go on
-- any more.
pub is_blocked-progresses :
    (swallows : Bool) (s : State)
    → Reachable swallows s
    → is_blocked s.controller ≡ true
    → ((t : State) × (step swallows (due s) s ≡ some t))
      ⊎ ((swallows ≡ true) × (is_hung s ≡ true) × ((a : Action) → step swallows a s ≡ none))
is_blocked-progresses swallows s r blocked =
    let h =
      implies-elim _ _
        (all_states_lem
          (λ x.
            implies (is_consistent swallows x && is_blocked x.controller)
              (goes_or_hangs swallows x))
          (wakes swallows) s)
        (and-intro _ _ (Reachable-is_consistent r) blocked) in
    elim (Bool-cases (is_some (step swallows (due s) s))) [
      | inl goes ↦ inl (is_some_lem (step swallows (due s) s) goes)
      | inr stays ↦
          let hung : (swallows && is_hung s && no_action swallows s) ≡ true = ground arith in
          let both = and-left (swallows && is_hung s) (no_action swallows s) hung in
          inr (
            and-left swallows (is_hung s) both,
            and-right swallows (is_hung s) both,
            no_action_lem swallows s (and-right (swallows && is_hung s) _ hung),
          )
    ]

-- The destructor has begun.
abbrev pub is_destructed : Controller → Bool
is_destructed destroying = true
is_destructed joining = true
is_destructed joined = true
is_destructed _ = false

-- The steps left of the destructor.
remaining : State → ℕ
remaining s = elim s.controller [
  | joined ↦ 0
  | joining ↦ 1
  | _ ↦ elim s.thread [ finished ↦ 2 | unwinding ↦ 3 | _ ↦ 4 ]
]

advances :
    all_states (
      stepwise false
        (λ s. is_destructed s.controller)
        (λ s t.
          is_consistent false t && is_destructed t.controller && ltb (remaining t) (remaining s)))
    ≡ true
unfolding is_consistent step remaining
advances = refl

at_most_four : all_states (λ s. leb (remaining s) 4) ≡ true
unfolding remaining
at_most_four = refl

-- `join()` has returned, and the thread has left RunBody.
abbrev pub is_joined : State → Bool
is_joined s =
    elim s.controller [ joined ↦ true | _ ↦ false ]
    && elim s.thread [ finished ↦ true | _ ↦ false ]
    && s.done

settles :
    all_states (λ s.
      implies
        (is_consistent false s && is_destructed s.controller)
        (is_joined s || is_some (step false (due s) s)))
    ≡ true
unfolding is_consistent step is_some
settles = refl

-- Actions one after the other.
abbrev pub run : Bool → List Action → State → Option State
run swallows [] s = some s
run swallows (a ∷ rest) s = bind (step swallows a s) λ t. run swallows rest t

settles_lem :
    (s : State)
    → is_consistent false s ≡ true
    → is_destructed s.controller ≡ true
    → is_joined s ≡ true ⊎ (t : State) × (step false (due s) s ≡ some t)
settles_lem s c d =
    let h =
      implies-elim _ _
        (all_states_lem
          (λ x.
            implies (is_consistent false x && is_destructed x.controller)
              (is_joined x || is_some (step false (due x) x)))
          settles s)
        (and-intro _ _ c d) in
    elim (Bool-cases (is_joined s)) [
      | inl end ↦ inl end
      | inr going ↦ inr (is_some_lem (step false (due s) s) (ground arith))
    ]

run-advances :
    (actions : List Action) (s t : State)
    → is_consistent false s ≡ true
    → is_destructed s.controller ≡ true
    → run false actions s ≡ some t
    → (length actions ≤ remaining s)
      × (is_joined t ≡ true ⊎ (u : State) × (step false (due t) t ≡ some u))
run-advances [] s t c d e =
    let same : s ≡ t = cc in
    (
      omega arith,
      settles_lem t (ap (is_consistent false) (sym same) ∙ c)
          (ap (λ x. is_destructed x.controller) (sym same) ∙ d),
    )
run-advances (a ∷ rest) s t c d e = elim (Option-cases (step false a s)) [
  | inl stuck ↦ absurd cc
  | inr (u, ok) ↦
      let test =
        stepwise_lem false (λ x. is_destructed x.controller)
          (λ x y.
            is_consistent false y && is_destructed y.controller && ltb (remaining y) (remaining x))
          advances s u a c d ok in
      let both = is_consistent false u && is_destructed u.controller in
      let c' =
        and-left (is_consistent false u) (is_destructed u.controller) (and-left both _ test) in
      let d' =
        and-right (is_consistent false u) (is_destructed u.controller) (and-left both _ test) in
      let l = and-right both (ltb (remaining u) (remaining s)) test in
      let less = ltb→lt (remaining u) (remaining s) l in
      let h = run-advances rest u t c' d' cc in (omega arith, h.1)
]

-- The destructor of a coroutine comes to its end, wherever the body stood when it began, if the body
-- does not swallow CoroutineAbort: after four steps at the most of the two threads in any order, and
-- a run of them that is not at its end can go on, until the body was unwound and `join()` returned.
pub destroy-terminates :
    (s t : State) (actions : List Action)
    → Reachable false s
    → is_destructed s.controller ≡ true
    → run false actions s ≡ some t
    → (length actions ≤ 4) × (is_joined t ≡ true ⊎ (u : State) × (step false (due t) t ≡ some u))
destroy-terminates s t actions r d e =
    let h = run-advances actions s t (Reachable-is_consistent r) d e in
    let four = leb→le _ _ (all_states_lem (λ x. leb (remaining x) 4) at_most_four s) in
    (omega arith, h.1)

abbrev unwinds : State → Bool
unwinds s =
    elim s.controller [ destroying ↦ true | _ ↦ false ]
    && elim s.thread [ unwinding ↦ true | _ ↦ false ]

-- Yields once more, and is not waited for.
abbrev pub yields_again : State → Option State
yields_again s = run true (yields ∷ controller_wakes ∷ []) s

abbrev hangs_after : State → Bool
hangs_after s = elim (yields_again s) [ none ↦ false | some t ↦ is_hung t && no_action true t ]

hangs : all_states (λ s. implies (is_consistent true s && unwinds s) (hangs_after s)) ≡ true
unfolding is_consistent step no_action
hangs = refl

hangs_lem :
    (o : Option State)
    → elim o as (λ x. Bool) [ none ↦ false | some t ↦ is_hung t && no_action true t ] ≡ true
    → (t : State) × ((o ≡ some t) × ((a : Action) → step true a t ≡ none))
hangs_lem none h = absurd cc
hangs_lem (some t) h =
    (t, (refl, no_action_lem true t (and-right (is_hung t) (no_action true t) h)))

-- Wherever a body that swallows CoroutineAbort is unwound for a destructor, one more Yield of it
-- leaves the destructor in a `join()` that never returns.
pub swallowed-hangs :
    (s : State)
    → Reachable true s
    → unwinds s ≡ true
    → (t : State) × ((yields_again s ≡ some t) × ((a : Action) → step true a t ≡ none))
swallowed-hangs s r at_once = hangs_lem (yields_again s) (
    implies-elim _ _
      (all_states_lem (λ x. implies (is_consistent true x && unwinds x) (hangs_after x)) hangs s)
      (and-intro _ _ (Reachable-is_consistent r) at_once))
