-- ===== src/Workflow/Silent.antt =====
-- The calls of supported bodies that send nothing.
use temporal_cpp.Prelude.{
  ◌≡◌, refl, sym, ap, ◌∙◌, inl, inr, String, true, false, arith, Option-cases, Bool-cases,
  number_key, string_key,
}
use temporal_cpp.History.{Prescan}
use temporal_cpp.Runner.{Runner}
use temporal_cpp.Runner.Calls.{await_cancellation, try_consume_signal, has_signal}
use temporal_cpp.Workflow.Live.{replayed, IsFirst, Silent}

module _ (ps : Prescan) (r : Runner) (v : IsFirst ps r) where
  pub await_cancellation-Silent : Silent ps await_cancellation r
  unfolding await_cancellation
  await_cancellation-Silent = elim (Bool-cases r.scan.cancel_requested) [
    | inl e ↦
        let known : ps.cancel_requested ≡ true = sym v.same_cancel ∙ e in
        record {
          silent = ground arith;
          first = ground (arith, v);
          replays = rw (known, e, await_cancellation);
        }
    | inr e ↦
        let known : ps.cancel_requested ≡ false = sym v.same_cancel ∙ e in
        record {
          silent = ground arith;
          first = ground (arith, v);
          replays = rw (known, e, await_cancellation);
        }
  ]

  pub receive-Silent : (name : String) → Silent ps (try_consume_signal name) r
  unfolding try_consume_signal
  receive-Silent name =
      let same : ps.signals name ≡ r.scan.signals name = ap (λ m. m name) (sym v.same_signals) in
      elim (Option-cases (r.scan.signals name)) [
        | inl e ↦ record { silent = ground arith; first = ground arith; replays = ground arith }
        | inr (q, e) ↦ record {
          silent = ground arith;
          first = ground arith;
          replays = ground arith;
        }
      ]

  -- A call that only looks.
  pub reads-Silent :
      {A : Type 0} (look : Runner → A)
      → look (replayed ps r) ≡ look r
      → Silent ps (λ r₀. (look r₀, r₀)) r
  reads-Silent look e = record {
    silent = refl;
    first = v;
    replays = ap (λ a. (a, replayed ps r)) e;
  }

  pub has_signal-same : (name : String) → has_signal name (replayed ps r) ≡ has_signal name r
  unfolding has_signal
  has_signal-same name =
      let same : ps.signals name ≡ r.scan.signals name = ap (λ m. m name) (sym v.same_signals) in
      elim (Option-cases (r.scan.signals name)) [ inl e ↦ ground arith | inr (q, e) ↦ ground arith ]
