-- ===== src/Determinism/Matching.antt =====
-- What the check of a replay against its history decides.
use temporal_cpp.Prelude.{
  ℕ, suc, ◌+◌, ◌≡◌, refl, ◌↔◌, inl, ap, ◌∙◌, inr, true, false, none, some, List, [], ◌∷◌, ◌++◌,
  arith, length, Bool-cases, ◌≤◌, beq_refl, string_key,
}
use temporal_cpp.Determinism.{
  Kind, CommandEvent, activity, child_workflow, complete_workflow, fail_workflow, continue_as_new,
  command_matches_event, match_from, match_replay_commands, mismatch, missing, matches_by_kind,
}

-- The replayed commands begin with commands that match those of the history, one for one.
pub data Reproduces : List CommandEvent → List CommandEvent → Type 0 where
  done : {ps : List CommandEvent} → Reproduces ps []
  step :
      {p e : CommandEvent} {ps es : List CommandEvent}
      → command_matches_event p e ≡ true
      → Reproduces ps es
      → Reproduces (p ∷ ps) (e ∷ es)

match_from_complete :
    (i : ℕ) {ps es : List CommandEvent} → Reproduces ps es → match_from i ps es ≡ none
unfolding match_from
match_from_complete i done = refl
match_from_complete i (step h r) = rw h (match_from_complete (suc i) r)

match_from_sound :
    (i : ℕ) (ps es : List CommandEvent) → match_from i ps es ≡ none → Reproduces ps es
unfolding match_from
match_from_sound i ps [] h = done
match_from_sound i [] (e ∷ es) h = absurd (cc h)
match_from_sound i (p ∷ ps) (e ∷ es) h = elim (Bool-cases (command_matches_event p e)) [
  | inl m ↦ step m (match_from_sound (suc i) ps es (ground arith))
  | inr m ↦ absurd (ground arith)
]

-- A replay passes the check exactly when the commands that it produced begin with commands that
-- match the recorded ones in order, one for one; what it produces beyond them does not matter.
pub match_replay_commands-iff-Reproduces :
    (ps es : List CommandEvent) → (match_replay_commands ps es ≡ none) ↔ Reproduces ps es
unfolding match_replay_commands
match_replay_commands-iff-Reproduces ps es = (match_from_sound 0 ps es, match_from_complete 0)

Reproduces-length : {ps es : List CommandEvent} → Reproduces ps es → length es ≤ length ps
Reproduces-length done = omega arith
Reproduces-length (step h r) = omega (arith, Reproduces-length r)

-- `Same ps es`: as many commands on both sides, matching pairwise.
pub data Same : List CommandEvent → List CommandEvent → Type 0 where
  nil : Same [] []
  cons :
      {p e : CommandEvent} {ps es : List CommandEvent}
      → command_matches_event p e ≡ true
      → Same ps es
      → Same (p ∷ ps) (e ∷ es)

mismatch_from :
    (i : ℕ) {ps es : List CommandEvent} (p e : CommandEvent) (ps' es' : List CommandEvent)
    → Same ps es
    → command_matches_event p e ≡ false
    → match_from i (ps ++ p ∷ ps') (es ++ e ∷ es') ≡ some (mismatch (i + length es) e p)
unfolding match_from
mismatch_from i p e ps' es' nil h = rw h (ap (λ n. some (mismatch n e p)) (omega arith))
mismatch_from i p e ps' es' (cons {es} m s) h =
    rw m (mismatch_from (suc i) p e ps' es' s h ∙ ap (λ n. some (mismatch n e p)) (omega arith))

missing_from :
    (i : ℕ) {ps es : List CommandEvent} (e : CommandEvent) (es' : List CommandEvent)
    → Same ps es
    → match_from i ps (es ++ e ∷ es') ≡ some (missing e)
unfolding match_from
missing_from i e es' nil = refl
missing_from i e es' (cons m s) = rw m (missing_from (suc i) e es' s)

-- After a common beginning, the first pair that does not match is what the check reports, with its
-- position, whatever follows; and a recorded command past the end of the produced ones is reported
-- as missing.
pub match_replay_commands-first_divergence :
    {ps es : List CommandEvent} (p e : CommandEvent) (ps' es' : List CommandEvent)
    → Same ps es
    → command_matches_event p e ≡ false
    → (match_replay_commands (ps ++ p ∷ ps') (es ++ e ∷ es') ≡ some (mismatch (length es) e p))
      × (match_replay_commands ps (es ++ e ∷ es') ≡ some (missing e))
unfolding match_replay_commands
match_replay_commands-first_divergence p e ps' es' s h = (
  mismatch_from 0 p e ps' es' s h ∙ ap (λ n. some (mismatch n e p)) (omega arith),
  missing_from 0 e es' s,
)

matches_by_kind_refl : (k : Kind) (c : CommandEvent) → matches_by_kind k c c ≡ true
unfolding matches_by_kind
matches_by_kind_refl activity c = rw (beq_refl c.id, beq_refl c.name)
matches_by_kind_refl child_workflow c = rw (beq_refl c.id, beq_refl c.name)
matches_by_kind_refl complete_workflow c = refl
matches_by_kind_refl fail_workflow c = refl
matches_by_kind_refl continue_as_new c = refl
matches_by_kind_refl _ c = beq_refl c.id

pub command_matches_event_refl : (c : CommandEvent) → command_matches_event c c ≡ true
unfolding command_matches_event
command_matches_event_refl c = ground (arith, matches_by_kind_refl c.kind c)

-- Commands reproduce themselves, with more behind them or not.
pub Reproduces-append : (es extra : List CommandEvent) → Reproduces (es ++ extra) es
Reproduces-append [] extra = done
Reproduces-append (e ∷ es) extra = step (command_matches_event_refl e) (Reproduces-append es extra)
