-- ===== src/Runner/Signals.antt =====
-- Signals: what a workflow receives under one name, against what arrives.
use temporal_cpp.Prelude.{
  ℕ, ◌≤◌, ◌≡◌, sym, ap, ◌∙◌, inl, inr, String, Option, none, some, List, [], ◌∷◌, ◌++◌, arith,
  append_assoc, append-nil, string_key, beq_refl, or_else, length, drop, drop-get_elem?,
  drop-append, lt_of_get_elem?, get_elem?, Option-cases, length-append,
}
use temporal_cpp.History.{Payloads, workflow_signaled}
use temporal_cpp.History.Scan.{deliver_signal}
use temporal_cpp.Runner.{Runner}
use temporal_cpp.Runner.Calls.{try_consume_signal}
use temporal_cpp.Runner.Events.{apply_attributes}

-- A signal arrives, or the workflow asks for one.
pub data SignalStep : Type 0 where
  arrives : Payloads → SignalStep
  consumes : SignalStep

abbrev to_list : Option Payloads → List Payloads
to_list none = []
to_list (some x) = x ∷ []

pub arrivals : List SignalStep → List Payloads
arrivals [] = []
arrivals (arrives a ∷ steps) = a ∷ arrivals steps
arrivals (consumes ∷ steps) = arrivals steps

module _ (name : String) where
  abbrev pub queue : Runner → List Payloads
  queue r = or_else [] (r.scan.signals name)

  abbrev pub cursor : Runner → ℕ
  cursor r = or_else 0 (r.signal_cursor name)

  -- The signals that have arrived and were not received.
  abbrev pub unread : Runner → List Payloads
  unread r = drop (cursor r) (queue r)

  -- Steps in any order, with the signals received.
  pub signal_run : List SignalStep → Runner → List Payloads × Runner
  signal_run [] r = ([], r)
  signal_run (arrives a ∷ steps) r =
      signal_run steps (apply_attributes 0 (workflow_signaled name a) r)
  signal_run (consumes ∷ steps) r =
      let (taken, r₁) = try_consume_signal name r in
      let (received, r₂) = signal_run steps r₁ in (to_list taken ++ received, r₂)

  arrives-unread :
      (a : Payloads) (r : Runner)
      → cursor r ≤ length (queue r)
      → let r₁ = apply_attributes 0 (workflow_signaled name a) r in
        (cursor r₁ ≤ length (queue r₁)) × (unread r₁ ≡ unread r ++ a ∷ [])
  unfolding apply_attributes deliver_signal
  arrives-unread a r h = ground (
    arith,
    beq_refl name,
    drop-append (cursor r) (queue r) (a ∷ []),
    length-append (queue r) (a ∷ []),
  )

  consumes-unread :
      (r : Runner)
      → cursor r ≤ length (queue r)
      → let r₁ = (try_consume_signal name r).1 in
        (cursor r₁ ≤ length (queue r₁))
        × (unread r ≡ to_list (try_consume_signal name r).0 ++ unread r₁)
  unfolding try_consume_signal
  consumes-unread r h = elim (Option-cases (r.scan.signals name)) [
    | inl e ↦ ground arith
    | inr (q, e) ↦ elim (Option-cases (get_elem? q (cursor r))) [
      | inl f ↦ ground (arith, beq_refl name)
      | inr (x, f) ↦
          ground
            (arith, beq_refl name, drop-get_elem? (cursor r) q f, lt_of_get_elem? (cursor r) q f)
    ]
  ]

  -- However arrivals and receives interleave from a state whose cursor lies within the queue, what
  -- was received, followed by what is unread at the end, is what was unread at the start, followed
  -- by the arrivals in their order: every signal of a name is received once, in order, and none is
  -- lost.
  pub signal_run-in_order :
      (steps : List SignalStep) (r : Runner)
      → cursor r ≤ length (queue r)
      → (signal_run steps r).0 ++ unread (signal_run steps r).1 ≡ unread r ++ arrivals steps
  unfolding signal_run arrivals
  signal_run-in_order [] r h = sym (append-nil (unread r))
  signal_run-in_order (arrives a ∷ steps) r h =
      let r₁ = apply_attributes 0 (workflow_signaled name a) r in
      let e = arrives-unread a r h in
      signal_run-in_order steps r₁ e.0
      ∙ ap (λ l. l ++ arrivals steps) e.1
      ∙ append_assoc (unread r) (a ∷ []) (arrivals steps)
  signal_run-in_order (consumes ∷ steps) r h =
      let taken = to_list (try_consume_signal name r).0 in
      let r₁ = (try_consume_signal name r).1 in
      let e = consumes-unread r h in
      append_assoc taken (signal_run steps r₁).0 (unread (signal_run steps r₁).1)
      ∙ ap (λ l. taken ++ l) (signal_run-in_order steps r₁ e.0)
      ∙ sym (append_assoc taken (unread r₁) (arrivals steps))
      ∙ ap (λ l. l ++ arrivals steps) (sym e.1)
