-- ===== src/Rpc/Truncation.antt =====
-- What a page that comes late does to a history.
use temporal_cpp.Prelude.{
  ℕ, ◌<◌, ◌≤◌, ◌≡◌, refl, ap, ◌∙◌, String, false, none, some, List, [], ◌∷◌, ◌++◌, ◌==◌, string_key,
  length, length-append, arith,
}
use temporal_cpp.History.{Payload, Event}
use temporal_cpp.Runner.Markers.{Converter}
use temporal_cpp.Tasks.{Task, TaskHandler, handle}
use temporal_cpp.Tasks.Messages.{UserHandlers}
use temporal_cpp.Tasks.Paging.{
  read_all, Serves, joined, handle_paged, handle_paged-whole, paginate, paginate-joined,
}
use temporal_cpp.Rpc.{Status, deadline_exceeded, ok, Page, get_history}

-- From a token on, the server gives these pages, and then takes longer than the deadline of a poll.
abbrev pub ServesUntilLate : (String → Status × Page) → String → List (List Event) → Type 0
ServesUntilLate remote token [] = (remote token).0.code ≡ deadline_exceeded
ServesUntilLate remote token (page ∷ pages) =
    (next : String) × (((remote token).0.code ≡ ok)
      × (((remote token).1 ≡ (page, next))
          × (((next == "") ≡ false) × ServesUntilLate remote next pages)))

-- The first of them, which is empty when the first call is late already.
abbrev first_of : List (List Event) → List Event
first_of [] = []
first_of (page ∷ pages) = page

-- The others, and an empty one for the late call.
abbrev rest_of : List (List Event) → List (List Event)
rest_of [] = []
rest_of (page ∷ pages) = pages ++ [] ∷ []

get_history-late :
    (remote : String → Status × Page) (token : String)
    → (remote token).0.code ≡ deadline_exceeded
    → get_history remote token ≡ some ([], "")
unfolding get_history
get_history-late remote token late = rw (late, get_history)

get_history-ok :
    (remote : String → Status × Page) (token : String)
    → (remote token).0.code ≡ ok
    → get_history remote token ≡ some (remote token).1
unfolding get_history
get_history-ok remote token h = rw (h, get_history)

ServesUntilLate-Serves :
    (remote : String → Status × Page) (token : String) (pages : List (List Event))
    → ServesUntilLate remote token pages
    → Serves (get_history remote) token (first_of pages) (rest_of pages)
ServesUntilLate-Serves remote token [] late = get_history-late remote token late
ServesUntilLate-Serves remote token (page ∷ []) (next, (c, (e, (n, late)))) =
    (next, (get_history-ok remote token c ∙ ap some e, (n, get_history-late remote next late)))
ServesUntilLate-Serves remote token (page ∷ page' ∷ pages) (next, (c, (e, (n, more)))) = (
  next,
  (
    get_history-ok remote token c ∙ ap some e,
    (n, ServesUntilLate-Serves remote next (page' ∷ pages) more),
  ),
)

joined-late : (pages : List (List Event)) → first_of pages ++ joined (rest_of pages) ≡ joined pages
joined-late [] = refl
joined-late (page ∷ pages) = ap (λ l. page ++ l) (joined-snoc pages)
  where
    joined-snoc : (l : List (List Event)) → joined (l ++ [] ∷ []) ≡ joined l
    joined-snoc [] = refl
    joined-snoc (p ∷ l) = ap (λ m. p ++ m) (joined-snoc l)

rest_of-length : (pages : List (List Event)) → length (rest_of pages) ≤ length pages
rest_of-length [] = omega arith
rest_of-length (page ∷ pages) = omega (arith, length-append pages ([] ∷ []))

module _ (remote : String → Status × Page) (rounds : ℕ) where
  -- GetWorkflowExecutionHistory counts as a long poll: a call that exceeds the deadline of a poll does
  -- not fail but returns an empty page with no token. So when a page of a history comes late, the
  -- loops that put histories together take the pages before it for the whole: Handle, from the token
  -- of its task on, replays that part of the history as if it were all; and the loop of
  -- FetchHistoryJson and of a rebuild for a query, which begins without a token, returns it.
  pub late_page-truncates :
      (c : Converter) (fresh : ℕ → Payload) {U : Type 0} (handlers : UserHandlers U) (t : Task)
      (th : TaskHandler U) (token : String) (rest whole : List (List Event))
      → ServesUntilLate remote token rest
      → ServesUntilLate remote "" whole
      → length rest < rounds
      → length whole < rounds
      → (token == "") ≡ false
      → t.query ≡ none
      → (handle_paged c fresh handlers (get_history remote) rounds t token th
          ≡ read_all
              (handle c fresh handlers none (record t { events = t.events ++ joined rest }) th))
        × (paginate (get_history remote) rounds "" ≡ read_all (joined whole))
  late_page-truncates c fresh handlers t th token rest whole served begun enough enough' more
        no_query =
      let read =
        paginate-joined (get_history remote) "" (first_of whole) (rest_of whole) rounds
          (ServesUntilLate-Serves remote "" whole begun) (omega (arith, rest_of-length whole)) in
      let handled =
        handle_paged-whole c fresh handlers (get_history remote) rounds t token (first_of rest)
          (rest_of rest) th no_query more (ServesUntilLate-Serves remote token rest served)
          (omega (arith, rest_of-length rest)) in
      (
        handled
            ∙ ap
                (λ l.
                  read_all (handle c fresh handlers none (record t { events = t.events ++ l }) th))
                (joined-late rest),
        read ∙ ap read_all (joined-late whole),
      )
