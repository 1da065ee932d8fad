-- ===== src/Determinism.antt =====
-- src/internal/determinism.h, the non-determinism check. A command is what a
-- workflow produced in a run, or what a history event recorded; both are matched in order.
pub mod Matching
use Prim.Native.String.{◌++◌ as append}
use temporal_cpp.Prelude.{
  ℕ, suc, ◌+◌, ◌≡◌, String, Bool, true, false, ◌&&◌, not, Option, none, some, List, [], ◌∷◌, ◌==◌,
  if◌then◌else◌, to_string, number_key, string_key,
}

-- CommandEvent::Kind
pub data Kind : Type 0 where
  activity request_cancel_activity timer cancel_timer child_workflow : Kind
  request_cancel_external_workflow signal_external_workflow upsert_search_attributes : Kind
  nexus_operation marker complete_workflow fail_workflow continue_as_new : Kind

pub Kind-discrete : Discrete Kind
Kind-discrete = hlevel

pub record CommandEvent : Type 0 where
  pub kind : Kind
  pub id : String
  pub name : String

-- The position in the enumeration, which `==` on kinds compares.
unfoldable pub ordinal : Kind → ℕ
ordinal activity = 0
ordinal request_cancel_activity = 1
ordinal timer = 2
ordinal cancel_timer = 3
ordinal child_workflow = 4
ordinal request_cancel_external_workflow = 5
ordinal signal_external_workflow = 6
ordinal upsert_search_attributes = 7
ordinal nexus_operation = 8
ordinal marker = 9
ordinal complete_workflow = 10
ordinal fail_workflow = 11
ordinal continue_as_new = 12

-- kCommandKindNames at the kind's position
unfoldable pub command_kind_name : Kind → String
command_kind_name activity = "ScheduleActivity"
command_kind_name request_cancel_activity = "RequestCancelActivity"
command_kind_name timer = "StartTimer"
command_kind_name cancel_timer = "CancelTimer"
command_kind_name child_workflow = "StartChildWorkflow"
command_kind_name request_cancel_external_workflow = "RequestCancelExternalWorkflowExecution"
command_kind_name signal_external_workflow = "SignalExternalWorkflowExecution"
command_kind_name upsert_search_attributes = "UpsertWorkflowSearchAttributes"
command_kind_name nexus_operation = "ScheduleNexusOperation"
command_kind_name marker = "RecordMarker"
command_kind_name complete_workflow = "CompleteWorkflowExecution"
command_kind_name fail_workflow = "FailWorkflowExecution"
command_kind_name continue_as_new = "ContinueAsNewWorkflowExecution"

-- The `switch` of CommandMatchesEvent, on the kind that both sides have.
matches_by_kind : Kind → CommandEvent → CommandEvent → Bool
matches_by_kind activity p e = p.id == e.id && p.name == e.name
matches_by_kind child_workflow p e = p.id == e.id && p.name == e.name
matches_by_kind complete_workflow p e = true
matches_by_kind fail_workflow p e = true
matches_by_kind continue_as_new p e = true
matches_by_kind _ p e = p.id == e.id

unfoldable pub command_matches_event : CommandEvent → CommandEvent → Bool
unfolding ordinal matches_by_kind
command_matches_event produced expected =
    if not (ordinal produced.kind == ordinal expected.kind)
    then false
    else matches_by_kind produced.kind produced expected

-- `s += "/" + part`, unless the part is empty
suffix : String → String → String
suffix s part = if part == "" then s else append s (append "/" part)

unfoldable pub describe : CommandEvent → String
unfolding suffix command_kind_name
describe c = suffix (suffix (command_kind_name c.kind) c.id) c.name

pub missing : CommandEvent → String
unfolding describe
missing e =
    append "[TMPRL1100] nondeterministic workflow: missing replay command for history " (describe e)

pub mismatch : ℕ → CommandEvent → CommandEvent → String
unfolding describe
mismatch i e p = append "[TMPRL1100] nondeterministic workflow: at command #" (
    append (to_string i) (
      append " history recorded "
        (append (describe e) (append " but replay produced " (describe p)))))

-- The loop of MatchReplayCommands from position `i` on, over what is left of both vectors.
match_from : ℕ → List CommandEvent → List CommandEvent → Option String
unfolding missing mismatch
match_from i produced [] = none
match_from i [] (e ∷ expected) = some (missing e)
match_from i (p ∷ produced) (e ∷ expected) =
    let rest = match_from (suc i) produced expected in
    if not (command_matches_event p e) then some (mismatch i e p) else rest

unfoldable pub match_replay_commands : List CommandEvent → List CommandEvent → Option String
unfolding match_from
match_replay_commands produced expected = match_from 0 produced expected
