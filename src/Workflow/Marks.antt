-- ===== src/Workflow/Marks.antt =====
-- What a scan holds of the calls that wait for an outcome, and that more of it leaves the rest.
use temporal_cpp.Prelude.{
  ◌≡◌, ◌⊎◌, inl, inr, String, none, some, List, [], ◌∷◌, ◌++◌, Map, beq_refl, string_key, ◌==◌,
  Bool-cases, modify, or_else,
}
use temporal_cpp.History.{Prescan}
use temporal_cpp.Runner.{Command}
use temporal_cpp.Runner.Agreement.{scheduled_only}
use temporal_cpp.Workflow.Supported.{Holds, AllHold, started_only, initiated_only}

abbrev pub IsMarked : {V : Type 0} → V → Map String V → Type 0
IsMarked v m = (id : String) → (m id ≡ none) ⊎ (m id ≡ some v)

-- What a scan holds of activities, timers and child workflows before any of them has come to an end.
pub record Marked (ps : Prescan) : Type 0 where
  pub activities : IsMarked scheduled_only ps.activities
  pub timers : IsMarked started_only ps.timers
  pub children : IsMarked initiated_only ps.children

-- What is held stays.
pub record Keeps (ps ps' : Prescan) : Type 0 where
  pub activities :
      (id : String)
      → ps.activities id ≡ some scheduled_only
      → ps'.activities id ≡ some scheduled_only
  pub timers : (id : String) → ps.timers id ≡ some started_only → ps'.timers id ≡ some started_only
  pub children :
      (id : String) → ps.children id ≡ some initiated_only → ps'.children id ≡ some initiated_only

-- Marking an entry again changes nothing, so the entries of earlier commands stay.
module _ {V : Type 0} (d v : V) (f : V → V) (on_none : f d ≡ v) (on_some : f v ≡ v) where
  marked : (k : String) (m : Map String V) → IsMarked v m → f (or_else d (m k)) ≡ v
  marked k m h = elim (h k) [ inl e ↦ rw (e, on_none) | inr e ↦ rw (e, on_some) ]

  pub modify-IsMarked : (k : String) (m : Map String V) → IsMarked v m → IsMarked v (modify d f k m)
  modify-IsMarked k m h id = elim (Bool-cases (id == k)) [
    | inl e ↦ inr (rw (e, marked k m h))
    | inr e ↦ rw e (h id)
  ]

  pub modify_self : (k : String) (m : Map String V) → IsMarked v m → modify d f k m k ≡ some v
  modify_self k m h = rw (beq_refl k, marked k m h)

  pub modify-keeps :
      (k : String) (m : Map String V)
      → IsMarked v m
      → (id : String) → m id ≡ some v
      → modify d f k m id ≡ some v
  modify-keeps k m h id e = elim (Bool-cases (id == k)) [
    | inl t ↦ rw (t, marked k m h)
    | inr t ↦ rw t e
  ]

pub AllHold-mono :
    (ps ps' : Prescan) (cs : List Command) → Keeps ps ps' → AllHold ps cs → AllHold ps' cs
AllHold-mono ps ps' [] k h = h
AllHold-mono ps ps' (Command.schedule_activity a ∷ cs) k h =
    (k.activities a.activity_id h.0, AllHold-mono ps ps' cs k h.1)
AllHold-mono ps ps' (Command.start_timer id duration ∷ cs) k h =
    (k.timers id h.0, AllHold-mono ps ps' cs k h.1)
AllHold-mono ps ps' (Command.start_child a ∷ cs) k h =
    (k.children a.workflow_id h.0, AllHold-mono ps ps' cs k h.1)
AllHold-mono ps ps' (_ ∷ cs) k h = (h.0, AllHold-mono ps ps' cs k h.1)

pub AllHold-snoc :
    (ps : Prescan) (cs : List Command) (c : Command)
    → AllHold ps cs
    → Holds ps c
    → AllHold ps (cs ++ c ∷ [])
AllHold-snoc ps [] c h x = (x, tt)
AllHold-snoc ps (_ ∷ cs) c h x = (h.0, AllHold-snoc ps cs c h.1 x)
