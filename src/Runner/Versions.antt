-- ===== src/Runner/Versions.antt =====
-- GetVersion, called twice with one change id.
use temporal_cpp.Prelude.{
  ◌≡◌, refl, String, false, none, some, [], ◌∷◌, ◌++◌, arith, append_assoc, string_key, beq_refl,
  ◌||◌, to_string,
}
use temporal_cpp.Prelude.Int.{ℤ, ltb_ℤ}
use temporal_cpp.Determinism.{
  Kind, CommandEvent, match_replay_commands, mismatch, command_matches_event,
}
use temporal_cpp.Determinism.Matching.{
  nil, cons, match_replay_commands-first_divergence, command_matches_event_refl,
}
use temporal_cpp.History.{Payloads}
use temporal_cpp.Proto.{ActivityOptions}
use temporal_cpp.Runner.{Runner, Command}
use temporal_cpp.Runner.Calls.{schedule_activity}
use temporal_cpp.Runner.Emit.{emit_record_marker, emit_schedule_activity}
use temporal_cpp.Runner.Markers.{Converter, get_version}

abbrev pub version_marker : CommandEvent
version_marker = record { kind = Kind.marker; id = "Version"; name = "" }

pub produced-schedule :
    (type : String) (input : Payloads) (options : ActivityOptions) (r : Runner)
    → (schedule_activity type input options r).1.produced_commands
      ≡ r.produced_commands
        ++ record { kind = Kind.activity; id = to_string r.activity_seq; name = type } ∷ []
unfolding schedule_activity emit_schedule_activity
produced-schedule type input options r = ground arith

module _ (c : Converter) (id : String) (lo hi : ℤ) where
  abbrev pub twice : Runner → Runner
  twice r = (get_version c id lo hi (get_version c id lo hi r).1).1

  -- On the first execution, with a range that holds its own upper end, the two calls send one
  -- marker to the server and count two.
  pub get_version_twice-live :
      (r : Runner)
      → r.change_versions id ≡ none
      → r.is_replaying ≡ false
      → (ltb_ℤ hi lo || ltb_ℤ hi hi) ≡ false
      → ((twice r).commands
          ≡ r.commands
            ++ Command.record_marker "Version"
                (("change-id", c.encode_string id ∷ []) ∷ ("version", c.encode_int hi ∷ []) ∷ [])
              ∷ [])
        × ((twice r).produced_commands
            ≡ r.produced_commands ++ version_marker ∷ version_marker ∷ [])
  unfolding get_version emit_record_marker
  get_version_twice-live r v live range = ground (
    arith,
    beq_refl id,
    append_assoc r.produced_commands (version_marker ∷ []) (version_marker ∷ []),
  )

  twice-recorded :
      (v : ℤ) (r : Runner)
      → r.change_versions id ≡ some v
      → (ltb_ℤ v lo || ltb_ℤ hi v) ≡ false
      → r.produced_commands ≡ []
      → (twice r).produced_commands ≡ version_marker ∷ version_marker ∷ []
  unfolding get_version
  twice-recorded v r e range p = ground arith

  -- Where a version in the supported range is recorded, a workflow that asks for it twice before
  -- anything else and then schedules an activity is refused on the replay of a history with one
  -- Version marker and the activity, which is what its first execution records.
  pub get_version_twice-refused :
      (v : ℤ) (type : String) (input : Payloads) (options : ActivityOptions) (r : Runner)
      → r.change_versions id ≡ some v
      → (ltb_ℤ v lo || ltb_ℤ hi v) ≡ false
      → r.produced_commands ≡ []
      → let activity_event : CommandEvent = record {
        kind = Kind.activity;
        id = "0";
        name = type;
      } in
        match_replay_commands
          (schedule_activity type input options (twice r)).1.produced_commands
          (version_marker ∷ activity_event ∷ [])
        ≡ some (mismatch 1 activity_event version_marker)
  unfolding command_matches_event
  get_version_twice-refused v type input options r e range p =
      rw (produced-schedule type input options (twice r), twice-recorded v r e range p)
        ((match_replay_commands-first_divergence version_marker
          (record { kind = Kind.activity; id = "0"; name = type }) _ []
          (cons (command_matches_event_refl version_marker) nil) refl).0)
