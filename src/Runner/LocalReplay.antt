-- ===== src/Runner/LocalReplay.antt =====
-- The marker of a local activity, written by the execution that runs it and read by a replay.
use temporal_cpp.Prelude.{ℕ, suc, ◌≡◌, String, false, Option, List, [], ◌∷◌, is_empty, string_key}
use temporal_cpp.Determinism.{Kind}
use temporal_cpp.History.{Payloads, Prescan, marker_recorded, details_of}
use temporal_cpp.History.Scan.{scan_attributes}
use temporal_cpp.Runner.{Runner, produce, LocalActivityResolver}
use temporal_cpp.Runner.Markers.{Converter, IsLawful}
use temporal_cpp.Runner.LocalActivity.{Attempted, succeeded, gave_up}

module _ (c : Converter) (lawful : IsLawful c)
    (not_blank : (s : String) → is_empty (c.encode_string s).content ≡ false) where
  details : Attempted → List (String × Payloads)
  details (succeeded result) = ("result", result) ∷ []
  details (gave_up type message) =
      ("failure-type", c.encode_string type ∷ [])
      ∷ ("failure-message", c.encode_string message ∷ [])
      ∷ []

  -- The same call in a replay by a worker with other registrations, or none.
  abbrev pub replaying :
      Option LocalActivityResolver → ℕ → Prescan → List (String × Payloads) → Runner → Runner
  replaying other i ps d r = record r {
    scan = scan_attributes i (marker_recorded "LocalActivity" (details_of d)) ps;
    local_activity_resolver = other;
  }

  abbrev called : Runner → Runner
  called r =
      produce Kind.marker "LocalActivity" ""
        (record r { local_activity_seq = suc r.local_activity_seq })
