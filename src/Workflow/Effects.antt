-- ===== src/Workflow/Effects.antt =====
-- SideEffect in a supported body: what the first execution records, the replay reads.
use temporal_cpp.Prelude.{
  ℕ, suc, ◌≡◌, sym, ap, ◌∙◌, none, some, [], ◌∷◌, ◌++◌, arith, get_elem?, get_elem?-append_length,
  number_key, string_key, ◌-◌,
}
use temporal_cpp.Prelude.Int.{pos}
use temporal_cpp.Determinism.{Kind}
use temporal_cpp.History.{Payload, Prescan}
use temporal_cpp.Runner.{Runner, Command}
use temporal_cpp.Runner.Emit.{emit_record_marker}
use temporal_cpp.Runner.Markers.{Converter, side_effect}
use temporal_cpp.Workflow.Supported.{event_of, values, effect}
use temporal_cpp.Workflow.Live.{replayed, IsFirst, Sends}
use temporal_cpp.Workflow.Sends.{IsFirst-send}

side_effect-live :
    (conv : Converter) (value : Payload) (r : Runner)
    → get_elem? r.scan.side_effects r.side_effect_seq ≡ none
    → side_effect conv value r ≡ (
      value,
      record r {
        commands =
            r.commands
            ++ Command.record_marker "SideEffect" (
                ("side-effect-id", conv.encode_int (pos (suc r.side_effect_seq - 1)) ∷ [])
                ∷ ("data", value ∷ [])
                ∷ [])
              ∷ [];
        produced_commands =
            r.produced_commands ++ record { kind = Kind.marker; id = "SideEffect"; name = "" } ∷ [];
        side_effect_seq = suc r.side_effect_seq;
      },
    )
unfolding side_effect emit_record_marker
side_effect-live conv value r e = ground arith

side_effect-replayed :
    (conv : Converter) (value recorded : Payload) (r : Runner)
    → get_elem? r.scan.side_effects r.side_effect_seq ≡ some recorded
    → side_effect conv value r ≡ (
      recorded,
      record r {
        produced_commands =
            r.produced_commands ++ record { kind = Kind.marker; id = "SideEffect"; name = "" } ∷ [];
        side_effect_seq = suc r.side_effect_seq;
      },
    )
unfolding side_effect
side_effect-replayed conv value recorded r e = ground arith

module _ (ps : Prescan) (r : Runner) (v : IsFirst ps r) where
  marker_command : Converter → Payload → Command
  marker_command conv value = Command.record_marker "SideEffect" (
      ("side-effect-id", conv.encode_int (pos (suc r.side_effect_seq - 1)) ∷ [])
      ∷ ("data", value ∷ [])
      ∷ [])

  pub side_effect-Sends :
      (conv : Converter) (fresh fresh' : ℕ → Payload)
      → Sends ps
          (λ r₀. side_effect conv (fresh r₀.side_effect_seq) r₀)
          (λ r₀. side_effect conv (fresh' r₀.side_effect_seq) r₀)
          r
  unfolding marker_command event_of
  side_effect-Sends conv fresh fresh' =
      let value = fresh r.side_effect_seq in
      let none_yet : get_elem? r.scan.side_effects r.side_effect_seq ≡ none =
        rw v.blank.no_side_effects in
      let live = side_effect-live conv value r none_yet in
      let c = marker_command conv value in
      let r₁ = (side_effect conv value r).1 in
      let sent : r₁.commands ≡ r.commands ++ c ∷ [] = ap (λ p. p.1.commands) live in
      record {
        command = c;
        plain = effect _ value;
        sent = sent;
        first =
            IsFirst-send ps r v c r₁ (ap (λ p. p.1.scan) live) sent
              (ap (λ p. p.1.produced_commands) live)
              (ap (λ p. p.1.ext_signal_seq) live ∙ omega arith)
              (ap (λ p. p.1.upsert_seq) live ∙ omega arith)
              (ap (λ p. p.1.side_effect_seq) live ∙ omega arith);
        replays = λ next.
            let at_cursor : get_elem? ps.side_effects r.side_effect_seq ≡ some value =
              rw next.side_effects (
                ap (get_elem? (values r.commands ++ value ∷ next.later))
                  (omega (arith, v.value_count))
                ∙ get_elem?-append_length (values r.commands) (value ∷ next.later) 0) in
            side_effect-replayed conv (fresh' r.side_effect_seq) value (replayed ps r) at_cursor
            ∙ ap (λ p. (p.0, replayed ps p.1)) (sym live);
      }
