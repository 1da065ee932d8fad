-- ===== src/Workflow/Live.antt =====
-- A first execution of a supported body, and its replay on a scan that holds what it sent.
use temporal_cpp.Prelude.{
  ℕ, ◌+◌, ◌≤◌, ◌≡◌, refl, sym, ap, ◌∙◌, true, List, [], ◌∷◌, ◌++◌, map, arith, append_assoc, length,
}
use mathlib.Core.Path.{subst}
use temporal_cpp.Determinism.{CommandEvent}
use temporal_cpp.History.{Payload, Prescan}
use temporal_cpp.Runner.{Runner, Command}
use temporal_cpp.Workflow.{Execution}
use temporal_cpp.Workflow.Supported.{
  IsBlank, event_of, is_signal, is_upsert, total, values, value_of, Holds, AllHold, Records,
  IsPlain, AllPlain,
}

-- The same state in a replay on the scan `ps`: nothing was sent.
abbrev pub replayed : Prescan → Runner → Runner
replayed ps r = record r { scan = ps; is_replaying = true; commands = [] }

pub record IsFirst (ps : Prescan) (r : Runner) : Type 0 where
  pub blank : IsBlank r.scan
  pub produced : r.produced_commands ≡ map event_of r.commands
  pub signal_count : total is_signal r.commands ≡ r.ext_signal_seq
  pub upsert_count : total is_upsert r.commands ≡ r.upsert_seq
  pub value_count : length (values r.commands) ≡ r.side_effect_seq
  pub same_signals : r.scan.signals ≡ ps.signals
  pub same_cancel : r.scan.cancel_requested ≡ ps.cancel_requested
  pub no_timeline : r.scan.post_update_timeline ≡ []

pub total-append :
    (f : Command → ℕ) (xs ys : List Command) → total f (xs ++ ys) ≡ total f xs + total f ys
total-append f [] ys = omega arith
total-append f (x ∷ xs) ys = omega (arith, total-append f xs ys)

pub values-append : (xs ys : List Command) → values (xs ++ ys) ≡ values xs ++ values ys
values-append [] ys = refl
values-append (x ∷ xs) ys =
    ap (λ l. value_of x ++ l) (values-append xs ys)
    ∙ sym (append_assoc (value_of x) (values xs) (values ys))

AllHold-middle :
    (ps : Prescan) (xs : List Command) (c : Command) (ys : List Command)
    → AllHold ps (xs ++ c ∷ ys)
    → Holds ps c
AllHold-middle ps [] c ys h = h.0
AllHold-middle ps (x ∷ xs) c ys h = AllHold-middle ps xs c ys h.1

-- What a scan that records a sequence of commands holds for the one behind `before`.
pub record RecordsNext (ps : Prescan) (before : List Command) (c : Command) : Type 0 where
  pub holds : Holds ps c
  pub ext_signals : total is_signal before + is_signal c ≤ ps.ext_signals_initiated
  pub upserts : total is_upsert before + is_upsert c ≤ ps.upserts_initiated
  pub later : List Payload
  pub side_effects : ps.side_effects ≡ values before ++ (value_of c ++ later)

Records-next :
    (ps : Prescan) (before : List Command) (c : Command) (after : List Command)
    → Records ps (before ++ c ∷ after)
    → RecordsNext ps before c
Records-next ps before c after rec = record {
  holds = AllHold-middle ps before c after rec.scheduled;
  ext_signals = omega (arith, total-append is_signal before (c ∷ after), rec.ext_signals);
  upserts = omega (arith, total-append is_upsert before (c ∷ after), rec.upserts);
  later = values after;
  side_effects = sym rec.side_effects ∙ values-append before (c ∷ after);
}

module _ {U : Type 0} (ps : Prescan) where
  abbrev pub replayed_execution : Execution U → Execution U
  replayed_execution x = record x { runner = replayed ps x.runner }

  -- From `r`, an execution sends more commands, produces what it sends and a terminal command if
  -- it ends, and runs alike on a replay whose scan records all that was sent.
  pub record Runs (f f' : Runner → Execution U) (r : Runner) : Type 0 where
    pub more : List Command
    pub tail : List CommandEvent
    pub plain : AllPlain more
    pub sent : (f r).runner.commands ≡ r.commands ++ more
    pub produces : (f r).runner.produced_commands ≡ map event_of (f r).runner.commands ++ tail
    pub no_timeline : (f r).runner.scan.post_update_timeline ≡ []
    pub replays : Records ps (f r).runner.commands → f' (replayed ps r) ≡ replayed_execution (f r)

module _ (ps : Prescan) {A : Type 0} where
  -- A call that sends one command.
  pub record Sends (op op' : Runner → A × Runner) (r : Runner) : Type 0 where
    pub command : Command
    pub plain : IsPlain command
    pub sent : (op r).1.commands ≡ r.commands ++ command ∷ []
    pub first : IsFirst ps (op r).1
    pub replays :
        RecordsNext ps r.commands command → op' (replayed ps r) ≡ ((op r).0, replayed ps (op r).1)

  -- A call that sends nothing.
  pub record Silent (op : Runner → A × Runner) (r : Runner) : Type 0 where
    pub silent : (op r).1.commands ≡ r.commands
    pub first : IsFirst ps (op r).1
    pub replays : op (replayed ps r) ≡ ((op r).0, replayed ps (op r).1)

module _ {U : Type 0} (ps : Prescan) {A : Type 0} where
  pub Runs-Sends :
      (op op' : Runner → A × Runner) (g g' : A → Runner → Execution U) (r : Runner)
      → Sends ps op op' r
      → Runs ps (g (op r).0) (g' (op r).0) (op r).1
      → Runs ps (λ r₀. g (op r₀).0 (op r₀).1) (λ r₀. g' (op' r₀).0 (op' r₀).1) r
  Runs-Sends op op' g g' r s runs =
      let e : (g (op r).0 (op r).1).runner.commands ≡ r.commands ++ s.command ∷ runs.more =
        runs.sent
        ∙ ap (λ l. l ++ runs.more) s.sent
        ∙ append_assoc r.commands (s.command ∷ []) runs.more in
      record {
        more = s.command ∷ runs.more;
        tail = runs.tail;
        plain = (s.plain, runs.plain);
        sent = e;
        produces = runs.produces;
        no_timeline = runs.no_timeline;
        replays = λ rec.
            ap (λ p. g' p.0 p.1)
              (s.replays
                (Records-next ps r.commands s.command runs.more (subst (Records ps) e rec)))
            ∙ runs.replays rec;
      }

  pub Runs-Silent :
      (op : Runner → A × Runner) (g g' : A → Runner → Execution U) (r : Runner)
      → Silent ps op r
      → Runs ps (g (op r).0) (g' (op r).0) (op r).1
      → Runs ps (λ r₀. g (op r₀).0 (op r₀).1) (λ r₀. g' (op r₀).0 (op r₀).1) r
  Runs-Silent op g g' r s runs = record {
    more = runs.more;
    tail = runs.tail;
    plain = runs.plain;
    sent = runs.sent ∙ ap (λ l. l ++ runs.more) s.silent;
    produces = runs.produces;
    no_timeline = runs.no_timeline;
    replays = λ rec. ap (λ p. g' p.0 p.1) s.replays ∙ runs.replays rec;
  }
