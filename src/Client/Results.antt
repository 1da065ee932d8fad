-- ===== src/Client/Results.antt =====
-- That waiting for a result comes to its end.
use temporal_cpp.Prelude.{
  ℕ, zero, suc, ◌+◌, ◌-◌, ◌<◌, ◌≤◌, ◌≡◌, ◌⊎◌, inl, inr, refl, ap, ◌∙◌, String, Option, some, List,
  [], ◌∷◌, arith, leb, Bool-cases,
}
use temporal_cpp.History.{Failure}
use temporal_cpp.Client.{
  CloseEvent, continued_as_new, Decoded, Result, close_result, next_run, result_payloads,
}

-- A server with which every run has closed by the N-th call, with the event `close`: before that, a long
-- poll may also return without an event.
pub record Closes (server : ℕ → String → Option (List CloseEvent)) (close : String → CloseEvent)
    (N : ℕ) : Type 0 where
  pub empty_or_closed :
      (n : ℕ) (run_id : String)
      → server n run_id ≡ some [] ⊎ server n run_id ≡ some (close run_id ∷ [])
  pub closed : (n : ℕ) (run_id : String) → N ≤ n → server n run_id ≡ some (close run_id ∷ [])

-- A chain of runs, each of which was continued as the next one, up to the last, whose close event is
-- the result.
abbrev pub Leads :
    Option (Failure → Decoded) → (String → CloseEvent) → ℕ → String → String → Result → Type 0
Leads convert close zero run_id last result =
    (run_id ≡ last) × (close_result convert (close run_id) ≡ some result)
Leads convert close (suc n) run_id last result =
    (next : String) × ((close run_id ≡ continued_as_new next)
      × Leads convert close n next last result)

module _ (convert : Option (Failure → Decoded)) (server : ℕ → String → Option (List CloseEvent))
    (close : String → CloseEvent) (N : ℕ) where
  at_end_lem :
      (rounds n : ℕ) (run_id : String) (result : Result)
      → server n run_id ≡ some (close run_id ∷ [])
      → close_result convert (close run_id) ≡ some result
      → result_payloads convert server (suc rounds) n run_id ≡ some (result, run_id)
  unfolding result_payloads
  at_end_lem rounds n run_id result answer final = rw (answer, final, result_payloads) refl

  on_empty_lem :
      (rounds n : ℕ) (run_id : String)
      → server n run_id ≡ some []
      → result_payloads convert server (suc rounds) n run_id
        ≡ result_payloads convert server rounds (suc n) run_id
  unfolding result_payloads
  on_empty_lem rounds n run_id answer = rw (answer, result_payloads) refl

  on_continued_lem :
      (rounds n : ℕ) (run_id next : String)
      → server n run_id ≡ some (close run_id ∷ [])
      → close run_id ≡ continued_as_new next
      → result_payloads convert server (suc rounds) n run_id
        ≡ result_payloads convert server rounds (suc n) next
  unfolding result_payloads
  on_continued_lem rounds n run_id next answer continued =
      rw (answer, continued, result_payloads)
        (ap (λ e. result_payloads convert server rounds (suc n) (next_run e run_id)) continued)

  -- The answer is the close event of the run.
  on_closed_lem :
      (rounds n length : ℕ) (run_id last : String) (result : Result)
      → ((l : ℕ) (next : String)
          → Leads convert close l next last result
          → N - suc n + l < rounds
          → result_payloads convert server rounds (suc n) next ≡ some (result, last))
      → server n run_id ≡ some (close run_id ∷ [])
      → Leads convert close length run_id last result
      → N - n + length < suc rounds
      → result_payloads convert server (suc rounds) n run_id ≡ some (result, last)
  on_closed_lem rounds n zero run_id last result later answer (same, final) h =
      at_end_lem rounds n run_id result answer final ∙ ap (λ r. some (result, r)) same
  on_closed_lem rounds n (suc l) run_id last result later answer (next, (continued, c)) h =
      on_continued_lem rounds n run_id next answer continued ∙ later l next c (omega arith)

  follows_lem :
      (rounds n length : ℕ) (run_id last : String) (result : Result)
      → Closes server close N
      → Leads convert close length run_id last result
      → N - n + length < rounds
      → result_payloads convert server rounds n run_id ≡ some (result, last)
  follows_lem zero n length run_id last result s c h = absurd (omega arith)
  follows_lem (suc rounds) n length run_id last result s c h =
      let later : (l : ℕ) (next : String)
          → Leads convert close l next last result
          → N - suc n + l < rounds
          → result_payloads convert server rounds (suc n) next ≡ some (result, last) =
        λ l next d less. follows_lem rounds (suc n) l next last result s d less in
      elim (Bool-cases (leb N n)) [
        | inl closed ↦
            on_closed_lem rounds n length run_id last result later
              (s.closed n run_id (ground arith)) c h
        | inr early ↦
            let before : n < N = ground arith in
            elim (s.empty_or_closed n run_id) [
              | inl empty ↦
                  on_empty_lem rounds n run_id empty
                  ∙ follows_lem rounds (suc n) length run_id last result s c (omega arith)
              | inr answer ↦ on_closed_lem rounds n length run_id last result later answer c h
            ]
      ]

-- Waiting for a result comes to its end: when every run has closed by the N-th call, and the runs were
-- continued as new `length` times up to the last, ResultPayloads returns the result of the last run
-- after at most N + length + 1 calls, however many long polls came back empty before, and the handle
-- then stands at the last run.
pub result_payloads-follows :
    (convert : Option (Failure → Decoded)) (server : ℕ → String → Option (List CloseEvent))
    (close : String → CloseEvent) (N length : ℕ) (run_id last : String) (result : Result)
    → Closes server close N
    → Leads convert close length run_id last result
    → result_payloads convert server (N + length + 1) 0 run_id ≡ some (result, last)
result_payloads-follows convert server close N length run_id last result s c =
    follows_lem convert server close N (N + length + 1) 0 length run_id last result s c
      (omega arith)
