-- ===== src/Runner/Markers.antt =====
-- The calls of `WorkflowRunner` that record markers: SideEffect, GetVersion, MutableSideEffect and
-- local activities, and the version and side-effect tables that its constructor builds. What they
-- use of the data converter is an interface; an application may install its own converters.
use Prim.Native.String.{◌++◌ as append}
use temporal_cpp.Prelude.{
  ℕ, suc, ◌-◌, ◌≡◌, String, Bool, true, false, Option, none, some, List, [], ◌∷◌, ◌++◌, Map, insert,
  modify, or_else, bind, ◌==◌, if◌then◌else◌, ◌&&◌, ◌||◌, to_string, number_key, string_key,
  get_elem?,
}
use temporal_cpp.Prelude.Int.{ℤ, pos, negsuc, pos_part, neg_part, ltb_ℤ}
use temporal_cpp.Determinism.{Kind}
use temporal_cpp.History.{Payload, Payloads, MutableSideEffectMarkerRaw}
use temporal_cpp.Runner.{Runner, produce}
use temporal_cpp.Runner.Emit.{emit_record_marker}

-- `none` stands for an exception of the converter.
pub record Converter : Type 0 where
  pub encode_string : String → Payload
  pub decode_string : Payload → Option String
  pub encode_int : ℤ → Payload
  pub decode_int : Payload → Option ℤ

-- What a converter must do for markers to be read back: decoding undoes encoding.
pub record IsLawful (c : Converter) : Type 0 where
  pub string_round_trip : (s : String) → c.decode_string (c.encode_string s) ≡ some s
  pub int_round_trip : (n : ℤ) → c.decode_int (c.encode_int n) ≡ some n

-- A value, or an ApplicationError with its message and type.
pub data Outcome {ℓ} (A : Type ℓ) : Type ℓ where
  ok : A → Outcome A
  error : String → String → Outcome A

abbrev pub eqb_ℤ : ℤ → ℤ → Bool
eqb_ℤ a b = pos_part a == pos_part b && neg_part a == neg_part b

abbrev to_string_ℤ : ℤ → String
to_string_ℤ (pos n) = to_string n
to_string_ℤ (negsuc n) = append "-" (to_string (suc n))

-- workflow::kDefaultVersion
abbrev pub default_version : ℤ
default_version = negsuc 0

abbrev head? : Payloads → Option Payload
head? [] = none
head? (p ∷ ps) = some p

module _ (c : Converter) where
  -- The change id and version of a marker, unless it is malformed.
  pub version_of : Payloads × Payloads → Option (String × ℤ)
  version_of (ids, vers) = bind (head? ids) λ i.
      bind (head? vers)
        λ v. bind (c.decode_string i) λ id. bind (c.decode_int v) λ ver. some (id, ver)

  unfoldable pub recorded_versions : List (Payloads × Payloads) → Map String ℤ → Map String ℤ
  unfolding version_of
  recorded_versions [] versions = versions
  recorded_versions (m ∷ ms) versions =
      recorded_versions ms
        (elim (version_of m) [ none ↦ versions | some (id, v) ↦ insert id v versions ])

  side_effect_of : MutableSideEffectMarkerRaw → Option (String × ℤ)
  side_effect_of m =
      bind (c.decode_string m.id) λ id. bind (c.decode_int m.call_index) λ idx. some (id, idx)

  unfoldable pub recorded_changes :
      List MutableSideEffectMarkerRaw
      → Map String (List (ℤ × Payload))
      → Map String (List (ℤ × Payload))
  unfolding side_effect_of
  recorded_changes [] table = table
  recorded_changes (m ∷ ms) table = recorded_changes ms (elim (side_effect_of m) [
    | none ↦ table
    | some (id, idx) ↦ modify [] (λ l. l ++ (idx, m.value) ∷ []) id table
  ])

unfoldable pub replay_side_effect : Runner → Option Payload × Runner
replay_side_effect r = (
  get_elem? r.scan.side_effects r.side_effect_seq,
  produce Kind.marker "SideEffect" "" (record r { side_effect_seq = suc r.side_effect_seq }),
)

module _ (c : Converter) where
  unfoldable pub record_side_effect : Payload → Runner → Runner
  record_side_effect value r =
      emit_record_marker "SideEffect"
        (("side-effect-id", c.encode_int (pos (r.side_effect_seq - 1)) ∷ [])
          ∷ ("data", value ∷ [])
          ∷ [])
        r

  -- Context::SideEffect, where `value` is what its function returns in this execution.
  unfoldable pub side_effect : Payload → Runner → Payload × Runner
  unfolding replay_side_effect record_side_effect
  side_effect value r =
      let (recorded, r₁) = replay_side_effect r in
      elim recorded [ some v ↦ (v, r₁) | none ↦ (value, record_side_effect value r₁) ]

  version_mismatch : String → ℤ → ℤ → ℤ → String
  version_mismatch change_id v min_supported max_supported = append "workflow change '" (
      append change_id (
        append "': recorded version " (
          append (to_string_ℤ v) (
            append " not in supported range [" (
              append (to_string_ℤ min_supported)
                (append ", " (append (to_string_ℤ max_supported) "]")))))))

  unfoldable pub get_version : String → ℤ → ℤ → Runner → Outcome ℤ × Runner
  unfolding version_mismatch
  get_version change_id min_supported max_supported r = elim (r.change_versions change_id) [
    | some v ↦
        let r₁ = produce Kind.marker "Version" "" r in
        if ltb_ℤ v min_supported || ltb_ℤ max_supported v
        then (
          error (version_mismatch change_id v min_supported max_supported) "VersionMismatch",
          r₁,
        )
        else (ok v, r₁)
    | none ↦
        if r.is_replaying
        then (
          ok default_version,
          record r { change_versions = insert change_id default_version r.change_versions },
        )
        else (
          ok max_supported,
          (let r₁ =
                emit_record_marker "Version"
                  (("change-id", c.encode_string change_id ∷ [])
                    ∷ ("version", c.encode_int max_supported ∷ [])
                    ∷ [])
                  (produce Kind.marker "Version" "" r) in
              record r₁ { change_versions = insert change_id max_supported r.change_versions }),
        )
  ]

-- MutableSideEffectStep, with the value that the call hands out.
pub data MutableSideEffectStep : Type 0 where
  replay_change replay_unchanged : Payload → MutableSideEffectStep
  live : Option Payload → MutableSideEffectStep

module _ (no_value : Payload) where
  -- On a list of recorded changes and the cursor into it.
  begin_recorded :
      String → ℕ → List (ℤ × Payload) → ℕ → Runner → Option (MutableSideEffectStep × Runner)
  begin_recorded id idx changes cur r = elim (get_elem? changes cur) [
    | none ↦ none
    | some (at_idx, v) ↦ some (
        if eqb_ℤ at_idx (pos idx)
        then (
          replay_change v,
          record (produce Kind.marker "MutableSideEffect" "" r) {
            mse_current = insert id v r.mse_current;
            mse_cursor = insert id (suc cur) r.mse_cursor;
          },
        )
        else (
          replay_unchanged (or_else no_value (r.mse_current id)),
          record r {
            mse_current = insert id (or_else no_value (r.mse_current id)) r.mse_current;
            mse_cursor = insert id cur r.mse_cursor;
          },
        ))
  ]

  unfoldable pub begin_mutable_side_effect : String → Runner → MutableSideEffectStep × Runner
  unfolding begin_recorded
  begin_mutable_side_effect id r =
      let idx = or_else 0 (r.mse_call_count id) in
      let r₁ = record r { mse_call_count = insert id (suc idx) r.mse_call_count } in
      elim (r.mse_recorded id) [
        | none ↦ (live (r.mse_current id), r₁)
        | some changes ↦
            let cur = or_else 0 (r.mse_cursor id) in
            elim (begin_recorded id idx changes cur r₁) [
              | some step ↦ step
              | none ↦
                  (live (r.mse_current id), record r₁ { mse_cursor = insert id cur r.mse_cursor })
            ]
      ]

module _ (c : Converter) where
  unfoldable pub record_mutable_side_effect : String → Bool → Payload → Runner → Runner
  record_mutable_side_effect id false value r = r
  record_mutable_side_effect id true value r =
      let idx = or_else 0 (r.mse_call_count id) - 1 in
      emit_record_marker "MutableSideEffect"
        (("id", c.encode_string id ∷ [])
          ∷ ("mse-call-index", c.encode_int (pos idx) ∷ [])
          ∷ ("data", value ∷ [])
          ∷ [])
        (record (produce Kind.marker "MutableSideEffect" "" r) {
          mse_current = insert id value r.mse_current;
        })
