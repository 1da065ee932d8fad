-- ===== src/Tasks/Paging.antt =====
-- The pages of a history: Handle and BuildRunnerForQuery of src/internal/workflow_task_handler.cpp,
-- and Paginate and FetchHistoryJson of src/client/client.cpp. `fetch token` is the RPC, none when it
-- throws; it gives a page and the token of the next one, "" behind the last.
use temporal_cpp.Prelude.{
  ℕ, zero, suc, ◌<◌, String, false, Option, none, some, List, [], ◌∷◌, ◌++◌, ◌==◌, string_key,
  if◌then◌else◌, length, ◌≡◌, refl, sym, ap, ◌∙◌, Option-cases, inl, inr, arith, append-nil,
}
use temporal_cpp.History.{Payload, Payloads, Event}
use temporal_cpp.Runner.Markers.{Converter}
use temporal_cpp.Tasks.Messages.{UserHandlers}
use temporal_cpp.Tasks.{Task, TaskHandler, Response, handle, not_registered}

-- What a loop over pages comes to: it has not ended within the rounds it was given, an RPC threw, or
-- every page was read.
pub data Paged {ℓ} (A : Type ℓ) : Type ℓ where
  unfinished : Paged A
  rpc_failed : Paged A
  read_all : A → Paged A

abbrev pub with_page {ℓ} : {A : Type ℓ} → List A → Paged (List A) → Paged (List A)
with_page items unfinished = unfinished
with_page items rpc_failed = rpc_failed
with_page items (read_all rest) = read_all (items ++ rest)

module _ {ℓ} {A : Type ℓ} (fetch : String → Option (List A × String)) where
  -- `while (!page_token.empty())`, as Handle has it.
  unfoldable pub fetch_rest : ℕ → String → Paged (List A)
  fetch_rest zero token = if token == "" then read_all [] else unfinished
  fetch_rest (suc rounds) token =
      let more = elim (fetch token) as (λ r. Paged (List A)) [
        | none ↦ rpc_failed
        | some (items, next) ↦ with_page items (fetch_rest rounds next)
      ] in
      if token == "" then read_all [] else more

  -- `for (;;)` with a break behind the last page, as Paginate and BuildRunnerForQuery have it.
  unfoldable pub paginate : ℕ → String → Paged (List A)
  paginate zero token = unfinished
  paginate (suc rounds) token = elim (fetch token) [
    | none ↦ rpc_failed
    | some (items, next) ↦
        let more = with_page items (paginate rounds next) in
        if next == "" then read_all items else more
  ]

  -- The pages that the server has from a token on: the first, and those behind it.
  abbrev pub Serves : String → List A → List (List A) → Type ℓ
  Serves token items [] = fetch token ≡ some (items, "")
  Serves token items (page ∷ pages) =
      (next : String) × ((fetch token ≡ some (items, next))
        × (((next == "") ≡ false) × Serves next page pages))

-- The pages one behind the other.
abbrev pub joined {ℓ} : {A : Type ℓ} → List (List A) → List A
joined [] = []
joined (p ∷ ps) = p ++ joined ps

module _ {ℓ} {A : Type ℓ} (fetch : String → Option (List A × String)) where
  -- Enough rounds read every page, in order, and nothing else.
  pub paginate-joined :
      (token : String) (items : List A) (pages : List (List A)) (rounds : ℕ)
      → Serves fetch token items pages
      → length pages < rounds
      → paginate fetch rounds token ≡ read_all (items ++ joined pages)
  unfolding paginate
  paginate-joined token items pages zero s h = absurd (omega arith)
  paginate-joined token items [] (suc rounds) s h =
      rw (s, paginate) (ap read_all (sym (append-nil items)))
  paginate-joined token items (page ∷ pages) (suc rounds) (next, (e, (n, s))) h =
      rw (e, n, paginate)
        (ap (with_page items) (paginate-joined next page pages rounds s (omega arith)))

  fetch_rest-end : (rounds : ℕ) → fetch_rest fetch rounds "" ≡ read_all []
  unfolding fetch_rest
  fetch_rest-end zero = refl
  fetch_rest-end (suc rounds) = refl

  fetch_rest-joined :
      (token : String) (items : List A) (pages : List (List A)) (rounds : ℕ)
      → (token == "") ≡ false
      → Serves fetch token items pages
      → length pages < rounds
      → fetch_rest fetch rounds token ≡ read_all (items ++ joined pages)
  unfolding fetch_rest
  fetch_rest-joined token items pages zero f s h = absurd (omega arith)
  fetch_rest-joined token items [] (suc rounds) f s h =
      rw (f, s) (ap (with_page items) (fetch_rest-end rounds))
  fetch_rest-joined token items (page ∷ pages) (suc rounds) f (next, (e, (n, s))) h =
      rw (f, e) (ap (with_page items) (fetch_rest-joined next page pages rounds n s (omega arith)))

-- The history that a task runs on: its own events, and those on the pages behind them, if there are.
unfoldable pub assemble :
    (String → Option (List Event × String)) → ℕ → List Event → String → Paged (List Event)
unfolding fetch_rest
assemble fetch rounds events token =
    if token == "" then read_all events else with_page events (fetch_rest fetch rounds token)

assemble-page :
    (fetch : String → Option (List Event × String)) (rounds : ℕ) (events : List Event)
    (token : String)
    → (token == "") ≡ false
    → assemble fetch rounds events token ≡ with_page events (fetch_rest fetch rounds token)
unfolding assemble
assemble-page fetch rounds events token more = rw more refl

-- The history that BuildRunnerForQuery fetches, when the task is a query: none when an RPC throws.
abbrev pub for_query : Option (String × Payloads) → Paged (List Event) → Paged (Option (List Event))
for_query none fetched = read_all none
for_query (some q) unfinished = unfinished
for_query (some q) rpc_failed = read_all none
for_query (some q) (read_all events) = read_all (some events)

module _ (c : Converter) (fresh : ℕ → Payload) {U : Type 0} (handlers : UserHandlers U) where
  -- Handle once the pages are read.
  abbrev on_pages :
      Task
      → TaskHandler U
      → Paged (List Event)
      → Paged (Option (List Event))
      → Paged (Response × TaskHandler U)
  on_pages t th (read_all events) (read_all fetched) =
      read_all (handle c fresh handlers fetched (record t { events = events }) th)
  on_pages t th (read_all events) _ = unfinished
  on_pages t th rpc_failed _ = rpc_failed
  on_pages t th unfinished _ = unfinished

  -- Handle on a task as the server sends it: the first page of its history, and the token of the
  -- next. An exception of the RPC leaves Handle.
  unfoldable pub handle_paged :
      (String → Option (List Event × String))
      → ℕ
      → Task
      → String
      → TaskHandler U
      → Paged (Response × TaskHandler U)
  unfolding assemble
  handle_paged fetch rounds t token th = elim (th.workflows t.info.workflow_type) [
    | none ↦ read_all (not_registered, th)
    | some wf ↦
        on_pages t th (assemble fetch rounds t.events token)
          (for_query t.query (paginate fetch rounds ""))
  ]

  -- A workflow task whose history comes in pages is handled as the task that has them all at once:
  -- Handle reads every page, in order, and once.
  pub handle_paged-whole :
      (fetch : String → Option (List Event × String)) (rounds : ℕ) (t : Task) (token : String)
      (items : List Event) (pages : List (List Event)) (th : TaskHandler U)
      → t.query ≡ none
      → (token == "") ≡ false
      → Serves fetch token items pages
      → length pages < rounds
      → handle_paged fetch rounds t token th
        ≡ read_all (
            handle c fresh handlers none
              (record t { events = t.events ++ (items ++ joined pages) })
              th)
  unfolding handle_paged handle
  handle_paged-whole fetch rounds t token items pages th no_query more s h =
      let rest = fetch_rest-joined fetch token items pages rounds more s h in
      let read = assemble-page fetch rounds t.events token more ∙ ap (with_page t.events) rest in
      let fetched = paginate fetch rounds "" in
      let quiet : for_query t.query fetched ≡ read_all none =
        ap (λ q. for_query q fetched) no_query in
      elim (Option-cases (th.workflows t.info.workflow_type)) [
        | inl unknown ↦ rw (unknown, handle_paged, handle) refl
        | inr (wf, known) ↦
            rw (known, handle_paged)
              (ap (λ a. on_pages t th a (for_query t.query fetched)) read
                ∙ ap (on_pages t th (read_all (t.events ++ (items ++ joined pages)))) quiet)
      ]
