-- ===== src/Coroutine/Protocol.antt =====
-- That code of the body runs only while the controller waits or has given up waiting
-- (src/internal/coroutine.cpp).
use temporal_cpp.Prelude.{
  Bool, true, false, not, ◌&&◌, ◌||◌, Option, none, some, ◌≡◌, refl, if◌then◌else◌, arith, ap, sym,
  ◌∙◌, ◌⊎◌,
}
use temporal_cpp.Coroutine.{
  State, Turn, Controller, Thread, Action, controllers, coroutines, at_rest, in_resume,
  in_resume_for, overran, detached, destroying, joining, joined, not_started, running, suspended,
  unwinding, finished, step, created, Reachable, construction, after,
}
use temporal_cpp.Coroutine.Exhaustive.{all_states, all_states_lem, all_actions, all_actions_lem}

-- The body runs, or is unwound.
abbrev pub in_body : State → Bool
in_body s = elim s.thread [ running ↦ true | unwinding ↦ true | _ ↦ false ]

-- The controller stands in a wait of Resume, ResumeFor or the destructor.
abbrev pub in_wait : Controller → Bool
in_wait in_resume = true
in_wait in_resume_for = true
in_wait destroying = true
in_wait _ = false

-- A ResumeFor of the controller has timed out.
abbrev pub timed_out : Controller → Bool
timed_out overran = true
timed_out detached = true
timed_out _ = false

abbrev is_coroutines : Turn → Bool
is_coroutines controllers = false
is_coroutines coroutines = true

abbrev waits_for_turn : Thread → Bool
waits_for_turn not_started = true
waits_for_turn suspended = true
waits_for_turn _ = false

abbrev pub implies : Bool → Bool → Bool
implies a b = not a || b

abbrev at_end : Thread → Bool
at_end finished = true
at_end _ = false

abbrev is_unwinding : Thread → Bool
is_unwinding unwinding = true
is_unwinding _ = false

-- A body that swallowed CoroutineAbort has yielded again.
is_stuck : Bool → State → Bool
is_stuck swallows s = swallows && not s.done && elim s.thread [ suspended ↦ true | _ ↦ false ]

-- Where the controller stands decides whose turn it can be, what the thread can be at, and the flags.
is_consistent_at : Bool → Controller → State → Bool
unfolding is_stuck
is_consistent_at swallows at_rest s =
    not (is_coroutines s.turn)
    && not s.abort
    && (if s.done then at_end s.thread else waits_for_turn s.thread)
is_consistent_at swallows destroying s =
    s.abort
    && (if is_coroutines s.turn
        then not s.done && (waits_for_turn s.thread || is_unwinding s.thread)
        else (s.done && at_end s.thread) || is_stuck swallows s)
is_consistent_at swallows joining s =
    not (is_coroutines s.turn) && ((s.done && at_end s.thread) || (s.abort && is_stuck swallows s))
is_consistent_at swallows joined s = not (is_coroutines s.turn) && s.done && at_end s.thread
is_consistent_at swallows _ s =
    not s.abort
    && (if is_coroutines s.turn
        then not s.done && not (at_end s.thread) && not (is_unwinding s.thread)
        else if s.done
        then at_end s.thread
        else waits_for_turn s.thread)

is_given_up : Controller → Bool
is_given_up detached = true
is_given_up _ = false

unfoldable pub is_consistent : Bool → State → Bool
unfolding is_consistent_at is_given_up
is_consistent swallows s =
    is_consistent_at swallows s.controller s
    && (s.done || not s.error)
    && (not s.abandoned || is_given_up s.controller)

-- A test of what a step leads to, if it can be taken.
abbrev pub holds_after : (State → Bool) → Option State → Bool
holds_after f none = true
holds_after f (some s) = f s

pub implies-elim : (a b : Bool) → implies a b ≡ true → a ≡ true → b ≡ true
implies-elim a b h t = ground arith

pub and-intro : (a b : Bool) → a ≡ true → b ≡ true → (a && b) ≡ true
and-intro a b h k = ground arith

pub and-left : (a b : Bool) → (a && b) ≡ true → a ≡ true
and-left a b h = ground arith

pub and-right : (a b : Bool) → (a && b) ≡ true → b ≡ true
and-right a b h = ground arith

holds_after_lem :
    (f : State → Bool) (o : Option State) (t : State)
    → holds_after f o ≡ true
    → o ≡ some t
    → f t ≡ true
holds_after_lem f none t h e = absurd cc
holds_after_lem f (some s) t h e = let same : s ≡ t = cc in ap f (sym same) ∙ h

-- A test of the states that a step from a consistent state can lead to.
abbrev pub stepwise : Bool → (State → Bool) → (State → State → Bool) → State → Bool
stepwise swallows before test s =
    all_actions
      λ a. implies (is_consistent swallows s && before s) (holds_after (test s) (step swallows a s))

pub stepwise_lem :
    (swallows : Bool) (before : State → Bool) (test : State → State → Bool)
    → all_states (stepwise swallows before test) ≡ true
    → (s t : State) (a : Action) → is_consistent swallows s ≡ true
    → before s ≡ true
    → step swallows a s ≡ some t
    → test s t ≡ true
stepwise_lem swallows before test holds s t a c b e =
    let at_s = all_states_lem (stepwise swallows before test) holds s in
    let at_a =
      all_actions_lem
        (λ x.
          implies (is_consistent swallows s && before s) (holds_after (test s) (step swallows x s)))
        at_s a in
    holds_after_lem (test s) (step swallows a s) t (implies-elim _ _ at_a (and-intro _ _ c b)) e

preserved :
    (swallows : Bool)
    → all_states (stepwise swallows (λ s. true) (λ s t. is_consistent swallows t)) ≡ true
unfolding is_consistent step
preserved false = refl
preserved true = refl

pub Reachable-is_consistent :
    {swallows : Bool} {s : State} → Reachable swallows s → is_consistent swallows s ≡ true
unfolding is_consistent created
Reachable-is_consistent {swallows} construction = at_first swallows
  where
    at_first : (b : Bool) → is_consistent b created ≡ true
    at_first false = refl
    at_first true = refl
Reachable-is_consistent {swallows} (after {s} {t} a r e) =
    stepwise_lem swallows (λ x. true) (λ x y. is_consistent swallows y) (preserved swallows) s t a
      (Reachable-is_consistent r) refl e

-- The thread is in the body only there.
abbrev leaves_room : State → Bool
leaves_room s = implies (in_body s) (in_wait s.controller || timed_out s.controller)

excludes :
    (swallows : Bool) → all_states (λ s. implies (is_consistent swallows s) (leaves_room s)) ≡ true
unfolding is_consistent
excludes false = refl
excludes true = refl

-- While code of the body runs, or unwinds, the controller stands in the wait of a Resume, a
-- ResumeFor or the destructor, or a ResumeFor of it has timed out: so the two never run at once as
-- long as no ResumeFor times out, whether the body swallows CoroutineAbort or not.
pub in_body-waits :
    (swallows : Bool) (s : State)
    → Reachable swallows s
    → in_body s ≡ true
    → (in_wait s.controller ≡ true) ⊎ (timed_out s.controller ≡ true)
in_body-waits swallows s r inside =
    let h =
      implies-elim _ _
        (all_states_lem (λ x. implies (is_consistent swallows x) (leaves_room x))
          (excludes swallows) s)
        (Reachable-is_consistent r) in
    ground (arith, h, inside)
