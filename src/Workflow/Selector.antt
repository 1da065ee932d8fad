-- ===== src/Workflow/Selector.antt =====
-- Selector::Select (include/temporal/workflow/selector.h) against what its comment promises: the case
-- that is taken, and when there is none.
use temporal_cpp.Prelude.{
  ℕ, ◌≡◌, refl, sym, ◌∙◌, ◌⊎◌, inl, inr, String, true, false, Map, Bool-cases,
}
use temporal_cpp.History.{Payload, Payloads}
use temporal_cpp.Runner.{Runner, FutureState}
use temporal_cpp.Runner.Calls.{has_signal}
use temporal_cpp.Runner.Markers.{Converter}
use temporal_cpp.Workflow.{
  Body, Handler, resume, get, receive, select, Cases, no_default, default_case, on_future,
  on_receive, resume_cases,
}
use temporal_cpp.Workflow.Waits.{parked, receive-eq, get-eq, on_future-eq, on_receive-eq}

-- The first case that is ready, as the call that its `exec` makes; the default if no case is.
pub data Selects {U : Type 0} (r : Runner) : Cases U → Body U → Type 0 where
  default_taken : (k : Body U) → Selects r (default_case k) k
  future_taken :
      (h : ℕ) (k : FutureState → Body U) (rest : Cases U)
      → (r.futures h).ready ≡ true
      → Selects r (on_future h k rest) (get h k)
  signal_taken :
      (name : String) (k : Payloads → Body U) (rest : Cases U)
      → has_signal name r ≡ true
      → Selects r (on_receive name k rest) (receive name k)
  future_passed :
      {b : Body U} (h : ℕ) (k : FutureState → Body U) (rest : Cases U)
      → (r.futures h).ready ≡ false
      → Selects r rest b
      → Selects r (on_future h k rest) b
  signal_passed :
      {b : Body U} (name : String) (k : Payloads → Body U) (rest : Cases U)
      → has_signal name r ≡ false
      → Selects r rest b
      → Selects r (on_receive name k rest) b

-- No case is ready, and there is no default.
abbrev pub NoneReady : {U : Type 0} → Runner → Cases U → Type 0
NoneReady r no_default = Unit
NoneReady r (default_case k) = ⊥
NoneReady r (on_future h k rest) = ((r.futures h).ready ≡ false) × NoneReady r rest
NoneReady r (on_receive name k rest) = (has_signal name r ≡ false) × NoneReady r rest

module _ (c : Converter) (fresh : ℕ → Payload) {U : Type 0} (r : Runner) (u : U)
    (hs : Map String (Handler U)) where
  -- The walk over the cases from one of them on.
  abbrev Walks : Cases U → Cases U → Type 0
  Walks cs cases =
      ((b : Body U) × (Selects r cs b
          × (resume_cases c fresh cs cases r u hs ≡ resume c fresh b r u hs)))
      ⊎ (NoneReady r cs × (resume_cases c fresh cs cases r u hs ≡ parked c (select cases) u hs r))

  resume_cases-Walks : (cs cases : Cases U) → Walks cs cases
  unfolding resume
  resume_cases-Walks no_default cases = inr (tt, refl)
  resume_cases-Walks (default_case k) cases = inl (k, (default_taken k, refl))
  resume_cases-Walks (on_future h k rest) cases = elim (Bool-cases (r.futures h).ready) [
    | inl e ↦ inl (
      get h k,
      (
        future_taken h k rest e,
        on_future-eq c fresh h k rest cases r u hs true e ∙ sym (get-eq c fresh h k r u hs true e),
      ),
    )
    | inr e ↦
        let passed = on_future-eq c fresh h k rest cases r u hs false e in
        elim (resume_cases-Walks rest cases) [
          | inl (b, (s, eq)) ↦ inl (b, (future_passed h k rest e s, passed ∙ eq))
          | inr (n, eq) ↦ inr ((e, n), passed ∙ eq)
        ]
  ]
  resume_cases-Walks (on_receive name k rest) cases = elim (Bool-cases (has_signal name r)) [
    | inl e ↦ inl (
      receive name k,
      (
        signal_taken name k rest e,
        on_receive-eq c fresh name k rest cases r u hs true e
            ∙ sym (receive-eq c fresh name k r u hs),
      ),
    )
    | inr e ↦
        let passed = on_receive-eq c fresh name k rest cases r u hs false e in
        elim (resume_cases-Walks rest cases) [
          | inl (b, (s, eq)) ↦ inl (b, (signal_passed name k rest e s, passed ∙ eq))
          | inr (n, eq) ↦ inr ((e, n), passed ∙ eq)
        ]
  ]

  -- Select goes on as a Get of the future or a Receive on the channel of the first case that is ready,
  -- in the order in which the cases were added; if none is, as the default; and if there is no
  -- default, it parks with nothing changed, and looks at all its cases again when it is resumed.
  pub select-Selects :
      (cases : Cases U)
      → ((b : Body U) × (Selects r cases b
            × (resume c fresh (select cases) r u hs ≡ resume c fresh b r u hs)))
        ⊎ (NoneReady r cases
            × (resume c fresh (select cases) r u hs ≡ parked c (select cases) u hs r))
  unfolding resume
  select-Selects cases = resume_cases-Walks cases cases
