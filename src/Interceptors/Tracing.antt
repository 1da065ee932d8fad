-- ===== src/Interceptors/Tracing.antt =====
-- src/interceptor/tracing.cpp: the wrappers of the tracing interceptor, with the tracer of the
-- repository, InMemoryTracer. A std::map<string, string> that is propagated is the list of its pairs;
-- its JSON text is nlohmann::json's, a parameter. What an interceptor wraps is a call on the header
-- and the tracer, none where it throws.
pub mod Connected
pub mod Ends
use temporal_cpp.Prelude.{
  ℕ, suc, String, Bool, true, false, ◌||◌, Option, none, some, List, [], ◌∷◌, ◌++◌, Map, empty,
  insert, or_else, is_empty, string_key, ◌==◌, if◌then◌else◌, length, get_elem?, set, to_string,
}
use Prim.Native.String.{◌++◌ as concat}
use temporal_cpp.History.{Payload}
use temporal_cpp.Data.{encoding_key, json_encoding}
use temporal_cpp.Runner.{WorkflowInfo}
use temporal_cpp.Activity.{ActivityInfo}

abbrev pub Pairs : Type 0
Pairs = List (String × String)

-- `data.find(key)`
abbrev pub find : String → Pairs → Option String
find k [] = none
find k ((j, v) ∷ rest) = if j == k then some v else find k rest

-- nlohmann::json on objects of texts; `parse` gives the fields that are texts, and none on anything but
-- an object.
pub record ObjectText : Type 0 where
  pub dump : Pairs → List ℕ
  pub parse : List ℕ → Option Pairs

abbrev pub Header : Type 0
Header = Map String Payload

module _ (text : ObjectText) where
  unfoldable pub write_to_header : String → Pairs → Header → Header
  write_to_header header_key fields header =
      let payload : Payload = record {
        metadata = insert encoding_key json_encoding empty;
        content = text.dump fields;
      } in
      if is_empty fields then header else insert header_key payload header

  unfoldable pub read_from_header : String → Header → Pairs
  read_from_header header_key header = elim (header header_key) [
    | none ↦ []
    | some payload ↦ or_else [] (text.parse payload.content)
  ]

-- StartSpanOptions; a SpanContext is its pairs.
pub record StartSpanOptions : Type 0 where
  pub operation : String
  pub name : String
  pub parent : Option Pairs
  pub tags : Map String String

-- InMemoryTracer::Record
pub record SpanRecord : Type 0 where
  pub operation : String
  pub name : String
  pub trace_id : String
  pub span_id : String
  pub parent_span_id : String
  pub tags : Map String String
  pub ended : Bool
  pub error : Bool

pub record InMemoryTracer : Type 0 where
  pub records : List SpanRecord
  pub next_trace_id : ℕ
  pub next_span_id : ℕ

unfoldable pub new_tracer : InMemoryTracer
new_tracer = record { records = []; next_trace_id = 1; next_span_id = 1 }

-- A MemSpan: the index of its record, and its context.
pub record Span : Type 0 where
  pub record_index : ℕ
  pub context : Pairs

abbrev pub trace_id_key : String
trace_id_key = "trace_id"

abbrev pub span_id_key : String
span_id_key = "span_id"

-- An id that a parent carries, "" without one.
abbrev pub of_parent : String → Option Pairs → String
of_parent k none = ""
of_parent k (some fields) = or_else "" (find k fields)

unfoldable pub start_span : StartSpanOptions → InMemoryTracer → Span × InMemoryTracer
start_span options t =
    let inherited = of_parent trace_id_key options.parent in
    let fresh = inherited == "" in
    let trace_id = if fresh then concat "t" (to_string t.next_trace_id) else inherited in
    let span_id = concat "s" (to_string t.next_span_id) in
    let started : SpanRecord = record {
      operation = options.operation;
      name = options.name;
      trace_id = trace_id;
      span_id = span_id;
      parent_span_id = of_parent span_id_key options.parent;
      tags = options.tags;
      ended = false;
      error = false;
    } in
    (
      record {
        record_index = length t.records;
        context = (span_id_key, span_id) ∷ (trace_id_key, trace_id) ∷ [];
      },
      record {
        records = t.records ++ started ∷ [];
        next_trace_id = if fresh then suc t.next_trace_id else t.next_trace_id;
        next_span_id = suc t.next_span_id;
      },
    )

-- MemSpan::End
unfoldable pub end_span : Span → Bool → InMemoryTracer → InMemoryTracer
end_span span error t = elim (get_elem? t.records span.record_index) [
  | none ↦ t
  | some r ↦ record t {
    records = set t.records span.record_index (record r { ended = true; error = error });
  }
]

-- InMemoryTracer::Extract
unfoldable pub extract : Pairs → Option Pairs
extract fields = elim (find trace_id_key fields) [
  | none ↦ none
  | some trace_id ↦ elim (find span_id_key fields) [ none ↦ none | some span_id ↦ some fields ]
]

abbrev pub workflow_tags : WorkflowInfo → Map String String
workflow_tags info =
    insert "temporalRunID" info.run_id (insert "temporalWorkflowID" info.workflow_id empty)

abbrev pub activity_tags : ActivityInfo → Map String String
activity_tags info =
    insert "temporalActivityID" info.activity_id
      (insert "temporalRunID" info.run_id (insert "temporalWorkflowID" info.workflow_id empty))

module _ (text : ObjectText) (header_key : String) where
  -- StartAndInject; `slot` is the context of the workflow's span, while it runs.
  unfoldable pub start_and_inject :
      WorkflowInfo
      → String
      → String
      → Option Pairs
      → Header
      → InMemoryTracer
      → Span × (Header × InMemoryTracer)
  unfolding write_to_header start_span
  start_and_inject info operation name slot header t =
      let (span, t₁) =
        start_span
          (record { operation = operation; name = name; parent = slot; tags = workflow_tags info })
          t in
      (span, (write_to_header text header_key span.context header, t₁))

  -- WorkflowOutbound::ExecuteActivity, ExecuteChildWorkflow and SignalExternalWorkflow: an exception
  -- passes without an end of the span.
  unfoldable pub outbound_call {ℓ} :
      {R : Type ℓ}
      → WorkflowInfo
      → String
      → String
      → Option Pairs
      → (Header → InMemoryTracer → Option R × InMemoryTracer)
      → Header
      → InMemoryTracer
      → Option R × InMemoryTracer
  unfolding start_and_inject end_span
  outbound_call info operation name slot next header t =
      let (span, (header₁, t₁)) = start_and_inject info operation name slot header t in
      let (result, t₂) = next header₁ t₁ in
      elim result [ none ↦ (none, t₂) | some r ↦ (some r, end_span span false t₂) ]

  -- The span of an inbound call, a child of what the header carries.
  unfoldable pub start_inbound :
      String → String → Map String String → Header → InMemoryTracer → Span × InMemoryTracer
  unfolding extract read_from_header start_span
  start_inbound operation name tags header t =
      start_span
        (record {
          operation = operation;
          name = name;
          parent = extract (read_from_header text header_key header);
          tags = tags;
        })
        t

  -- The wrapped call, and the end of its span either way.
  unfoldable pub run_inbound {ℓ} :
      {R : Type ℓ}
      → Span
      → (InMemoryTracer → Option R × InMemoryTracer)
      → InMemoryTracer
      → Option R × InMemoryTracer
  unfolding end_span
  run_inbound span next t =
      let (result, t₁) = next t in
      (result, end_span span (elim result [ none ↦ true | some r ↦ false ]) t₁)

  -- WorkflowInbound::ExecuteWorkflow; the workflow's own calls see its span in the slot.
  unfoldable pub traced_workflow {ℓ} :
      {R : Type ℓ}
      → WorkflowInfo
      → (Option Pairs → InMemoryTracer → Option R × InMemoryTracer)
      → Header
      → InMemoryTracer
      → Option R × InMemoryTracer
  unfolding start_inbound run_inbound
  traced_workflow info next header t =
      let (span, t₁) =
        start_inbound "RunWorkflow" info.workflow_type (workflow_tags info) header t in
      run_inbound span (next (some span.context)) t₁

  -- HandleSignal and HandleQuery.
  unfoldable pub traced_handler {ℓ} :
      {R : Type ℓ}
      → String
      → String
      → (InMemoryTracer → Option R × InMemoryTracer)
      → Header
      → InMemoryTracer
      → Option R × InMemoryTracer
  unfolding start_inbound run_inbound
  traced_handler operation name next header t =
      let (span, t₁) = start_inbound operation name empty header t in run_inbound span next t₁

  -- ActivityInbound::ExecuteActivity
  unfoldable pub traced_activity {ℓ} :
      {R : Type ℓ}
      → ActivityInfo
      → (InMemoryTracer → Option R × InMemoryTracer)
      → Header
      → InMemoryTracer
      → Option R × InMemoryTracer
  unfolding start_inbound run_inbound
  traced_activity info next header t =
      let (span, t₁) =
        start_inbound "RunActivity" info.activity_type (activity_tags info) header t in
      run_inbound span next t₁

  -- ClientOutbound's calls: like those of a workflow, with a span that has no parent.
  unfoldable pub client_call {ℓ} :
      {R : Type ℓ}
      → String
      → String
      → String
      → (Header → InMemoryTracer → Option R × InMemoryTracer)
      → Header
      → InMemoryTracer
      → Option R × InMemoryTracer
  unfolding write_to_header start_span end_span
  client_call operation name workflow_id next header t =
      let (span, t₁) =
        start_span
          (record {
            operation = operation;
            name = name;
            parent = none;
            tags = insert "temporalWorkflowID" workflow_id empty;
          })
          t in
      let (result, t₂) = next (write_to_header text header_key span.context header) t₁ in
      elim result [ none ↦ (none, t₂) | some r ↦ (some r, end_span span false t₂) ]
