-- ===== src/Workflow/Waits.antt =====
-- What the waits of a body come to: Future::Get, ReceiveChannel::Receive and the cases of a Selector
-- (include/temporal/workflow/{future,channel,selector}.h).
use temporal_cpp.Prelude.{ℕ, ◌≡◌, refl, ap, ◌∙◌, String, Bool, true, false, Option, none, some, Map}
use temporal_cpp.History.{Payload, Payloads}
use temporal_cpp.Runner.{Runner, FutureState}
use temporal_cpp.Runner.Calls.{has_signal, try_consume_signal}
use temporal_cpp.Runner.Markers.{Converter}
use temporal_cpp.Workflow.{
  Body, Execution, Handler, resume, get, receive, Cases, on_future, on_receive, resume_cases,
}

module _ (c : Converter) {U : Type 0} where
  -- What the body does behind `receive`.
  abbrev pub received :
      (ℕ → Payload)
      → String
      → (Payloads → Body U)
      → U
      → Map String (Handler U)
      → Option Payloads
      → Runner
      → Execution U
  received fresh name k u hs none r = record {
    runner = r;
    user = u;
    update_handlers = hs;
    rest = receive name k;
  }
  received fresh name k u hs (some args) r = resume c fresh (k args) r u hs

  taken-eq :
      (fresh : ℕ → Payload) (name : String) (k : Payloads → Body U) (u : U)
      (hs : Map String (Handler U)) (taken : Option Payloads) (r : Runner)
      → (elim taken as (λ t. Execution U) [
        | some args ↦ resume c fresh (k args) r u hs
        | none ↦ record { runner = r; user = u; update_handlers = hs; rest = receive name k }
      ])
        ≡ received fresh name k u hs taken r
  taken-eq fresh name k u hs none r = refl
  taken-eq fresh name k u hs (some args) r = refl

  pub receive-eq :
      (fresh : ℕ → Payload) (name : String) (k : Payloads → Body U) (r : Runner) (u : U)
      (hs : Map String (Handler U))
      → resume c fresh (receive name k) r u hs
        ≡ received fresh name k u hs (try_consume_signal name r).0 (try_consume_signal name r).1
  unfolding resume
  receive-eq fresh name k r u hs =
      taken-eq fresh name k u hs (try_consume_signal name r).0 (try_consume_signal name r).1

  abbrev pub parked : Body U → U → Map String (Handler U) → Runner → Execution U
  parked b u hs r = record { runner = r; user = u; update_handlers = hs; rest = b }

  pub get-eq :
      (fresh : ℕ → Payload) (h : ℕ) (k : FutureState → Body U) (r : Runner) (u : U)
      (hs : Map String (Handler U)) (ready : Bool)
      → (r.futures h).ready ≡ ready
      → resume c fresh (get h k) r u hs ≡ (elim ready as (λ b. Execution U) [
        | true ↦ resume c fresh (k (r.futures h)) r u hs
        | false ↦ parked (get h k) u hs r
      ])
  unfolding resume
  get-eq fresh h k r u hs ready e = λ i. elim (e i) as (λ b. Execution U) [
    | true ↦ resume c fresh (k (r.futures h)) r u hs
    | false ↦ parked (get h k) u hs r
  ]

  pub on_future-eq :
      (fresh : ℕ → Payload) (h : ℕ) (k : FutureState → Body U) (rest cases : Cases U) (r : Runner)
      (u : U) (hs : Map String (Handler U)) (ready : Bool)
      → (r.futures h).ready ≡ ready
      → resume_cases c fresh (on_future h k rest) cases r u hs ≡ (elim ready as (λ b. Execution U) [
        | true ↦ resume c fresh (k (r.futures h)) r u hs
        | false ↦ resume_cases c fresh rest cases r u hs
      ])
  unfolding resume
  on_future-eq fresh h k rest cases r u hs ready e = λ i. elim (e i) as (λ b. Execution U) [
    | true ↦ resume c fresh (k (r.futures h)) r u hs
    | false ↦ resume_cases c fresh rest cases r u hs
  ]

  pub on_receive-eq :
      (fresh : ℕ → Payload) (name : String) (k : Payloads → Body U) (rest cases : Cases U)
      (r : Runner) (u : U) (hs : Map String (Handler U)) (pending : Bool)
      → has_signal name r ≡ pending
      → resume_cases c fresh (on_receive name k rest) cases r u hs
        ≡ (elim pending as (λ b. Execution U) [
          | true ↦
              received fresh name k u hs (try_consume_signal name r).0 (try_consume_signal name r).1
          | false ↦ resume_cases c fresh rest cases r u hs
        ])
  unfolding resume
  on_receive-eq fresh name k rest cases r u hs pending e =
      let (taken, r₁) = try_consume_signal name r in
      let others = resume_cases c fresh rest cases r u hs in
      (λ i. elim (e i) as (λ b. Execution U) [
        | true ↦ elim taken as (λ t. Execution U) [
          | some args ↦ resume c fresh (k args) r₁ u hs
          | none ↦ record { runner = r₁; user = u; update_handlers = hs; rest = receive name k }
        ]
        | false ↦ others
      ])
      ∙ ap (λ x. elim pending as (λ b. Execution U) [ true ↦ x | false ↦ others ])
          (taken-eq fresh name k u hs taken r₁)
