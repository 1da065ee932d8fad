-- ===== src/Worker/Sessions.antt =====
-- The session slots of a worker (RegisterSessionActivities in src/internal/worker_impl.cpp):
-- activities on any number of threads that take and give back slots by compare-and-swap, in any
-- order of their steps. `compare_exchange_weak` may also fail for no reason (`spurious`).
use temporal_cpp.Prelude.{
  ℕ, suc, ◌+◌, ◌-◌, ◌≤◌, ◌<◌, Bool, not, ◌&&◌, ltb, leb, ◌==◌, number_key, if◌then◌else◌, ◌≡◌,
  arith, Bool-cases, inl, inr, beq_refl, refl, true, false,
}

-- Where a thread stands in an activity: with the `cur` that it loaded.
pub data Phase : Type 0 where
  idle : Phase
  creating : ℕ → Phase
  completing : ℕ → Phase

-- `active_sessions_`, the threads, how many creations have succeeded, and how many completions have
-- returned; `found_none` counts the completions among them that found no active session to end.
pub record Sessions : Type 0 where
  pub active : ℕ
  pub phase : ℕ → Phase
  pub created : ℕ
  pub completed : ℕ
  pub found_none : ℕ

unfoldable pub no_sessions : Sessions
no_sessions = record { active = 0; phase = λ t. idle; created = 0; completed = 0; found_none = 0 }

abbrev at_phase : ℕ → Phase → Sessions → Sessions
at_phase t p s = record s { phase = λ j. if j == t then p else s.phase j }

-- The creation activity begins: `load()`, or `fetch_add` where there is no limit (0 stands for every
-- value up to 0).
unfoldable pub begin_creation : ℕ → ℕ → Sessions → Sessions
begin_creation limit t s =
    if ltb 0 limit
    then at_phase t (creating s.active) s
    else record s { active = suc s.active; created = suc s.created }

-- A round of its loop: an error at the capacity, else the compare-and-swap, which loads the value anew
-- where it fails.
unfoldable pub attempt_creation : ℕ → Bool → ℕ → ℕ → Sessions → Sessions
attempt_creation limit spurious t cur s =
    if leb limit cur
    then at_phase t idle s
    else if not spurious && s.active == cur
    then at_phase t idle (record s { active = suc cur; created = suc s.created })
    else at_phase t (creating s.active) s

unfoldable pub begin_completion : ℕ → Sessions → Sessions
begin_completion t s = at_phase t (completing s.active) s

unfoldable pub attempt_completion : Bool → ℕ → ℕ → Sessions → Sessions
attempt_completion spurious t cur s =
    if not (ltb 0 cur)
    then at_phase t idle s
    else if not spurious && s.active == cur
    then at_phase t idle (record s { active = cur - 1 })
    else at_phase t (completing s.active) s

-- The count of a completion that has returned from a round it entered with `cur`.
abbrev pub counted : Phase → ℕ → Sessions → Sessions
counted idle cur s = record s {
  completed = suc s.completed;
  found_none = if cur == 0 then suc s.found_none else s.found_none;
}
counted _ cur s = s

unfoldable pub count_return : ℕ → ℕ → Sessions → Sessions
count_return t cur s = counted (s.phase t) cur s

count_return-at_phase :
    (t cur : ℕ) (p : Phase) (s : Sessions)
    → count_return t cur (at_phase t p s) ≡ counted p cur (at_phase t p s)
unfolding count_return
count_return-at_phase t cur p s = rw (beq_refl t) refl

-- What the worker does: one step of one of its threads.
pub data Step (limit : ℕ) : Sessions → Sessions → Type 0 where
  creation : {s : Sessions} (t : ℕ) → s.phase t ≡ idle → Step limit s (begin_creation limit t s)
  creation_round :
      {s : Sessions} (spurious : Bool) (t cur : ℕ)
      → s.phase t ≡ creating cur
      → Step limit s (attempt_creation limit spurious t cur s)
  completion : {s : Sessions} (t : ℕ) → s.phase t ≡ idle → Step limit s (begin_completion t s)
  completion_round :
      {s : Sessions} (spurious : Bool) (t cur : ℕ)
      → s.phase t ≡ completing cur
      → Step limit s (count_return t cur (attempt_completion spurious t cur s))

pub data Reachable (limit : ℕ) : Sessions → Type 0 where
  start : Reachable limit no_sessions
  after : {s s' : Sessions} → Reachable limit s → Step limit s s' → Reachable limit s'

-- No more slots are taken than there are, and none is lost or given back twice.
abbrev Kept : ℕ → Sessions → Type 0
Kept limit s = (0 < limit → s.active ≤ limit) × (s.created + s.found_none ≡ s.active + s.completed)

begin_creation-Kept :
    (limit t : ℕ) (s : Sessions) → Kept limit s → Kept limit (begin_creation limit t s)
unfolding begin_creation
begin_creation-Kept limit t s (fits, kept) = elim (Bool-cases (ltb 0 limit)) [
  | inl limited ↦ rw limited (fits, kept)
  | inr free ↦ rw free (λ h. absurd (ground arith), omega arith)
]

attempt_creation-Kept :
    (limit : ℕ) (spurious : Bool) (t cur : ℕ) (s : Sessions)
    → Kept limit s
    → Kept limit (attempt_creation limit spurious t cur s)
unfolding attempt_creation
attempt_creation-Kept limit spurious t cur s (fits, kept) = elim (Bool-cases (leb limit cur)) [
  | inl full ↦ rw full (fits, kept)
  | inr room ↦ elim (Bool-cases (not spurious && s.active == cur)) [
    | inl swapped ↦
        let same : s.active ≡ cur = ground arith in
        let less : cur < limit = ground arith in rw (room, swapped) (λ h. omega arith, omega arith)
    | inr lost ↦ rw (room, lost) (fits, kept)
  ]
]

attempt_completion-Kept :
    (limit : ℕ) (spurious : Bool) (t cur : ℕ) (s : Sessions)
    → Kept limit s
    → Kept limit (count_return t cur (attempt_completion spurious t cur s))
unfolding attempt_completion
attempt_completion-Kept limit spurious t cur s (fits, kept) = elim (Bool-cases (not (ltb 0 cur))) [
  | inl none_left ↦
      let zero : (cur == 0) ≡ true = ground arith in
      rw (none_left, count_return-at_phase t cur idle s, zero) (fits, omega arith)
  | inr some_left ↦ elim (Bool-cases (not spurious && s.active == cur)) [
    | inl swapped ↦
        let same : s.active ≡ cur = ground arith in
        let above : 0 < cur = ground arith in
        let positive : (cur == 0) ≡ false = ground arith in
        rw
          (
            some_left,
            swapped,
            count_return-at_phase t cur idle (record s { active = cur - 1 }),
            positive,
          )
          (λ h. omega (arith, fits h), omega arith)
    | inr lost ↦
        rw (some_left, lost, count_return-at_phase t cur (completing s.active) s) (fits, kept)
  ]
]

Step-Kept : (limit : ℕ) {s s' : Sessions} → Step limit s s' → Kept limit s → Kept limit s'
unfolding begin_completion
Step-Kept limit (creation {s} t i) k = begin_creation-Kept limit t s k
Step-Kept limit (creation_round {s} spurious t cur p) k =
    attempt_creation-Kept limit spurious t cur s k
Step-Kept limit (completion t i) k = k
Step-Kept limit (completion_round {s} spurious t cur p) k =
    attempt_completion-Kept limit spurious t cur s k

-- However the steps of the session activities interleave: never more sessions are active than
-- max_concurrent_sessions, where that is above zero, and the creations that succeeded, with the
-- completions that found nothing to end, are as many as the active sessions with all completions
-- that returned: each of the other completions gave back exactly one slot, so that none is lost to a
-- race or given back twice.
pub active_sessions-bounded :
    (limit : ℕ) {s : Sessions}
    → Reachable limit s
    → (0 < limit → s.active ≤ limit) × (s.created + s.found_none ≡ s.active + s.completed)
unfolding no_sessions
active_sessions-bounded limit start = (λ h. omega arith, omega arith)
active_sessions-bounded limit (after r step) =
    Step-Kept limit step (active_sessions-bounded limit r)
