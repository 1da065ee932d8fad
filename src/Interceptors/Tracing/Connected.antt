-- ===== src/Interceptors/Tracing/Connected.antt =====
-- That traces connect across a header, and which spans are left open.
use temporal_cpp.Prelude.{
  ℕ, String, Bool, true, false, Option, none, some, List, [], ◌∷◌, ◌++◌, length, get_elem?,
  to_string, ◌≡◌, refl, sym, ap, ◌∙◌, Bool-cases, inl, inr, ◌==◌, string_key, if◌then◌else◌,
  insert_self, insert, or_else, empty, Map,
}
use mathlib.Core.Path.{subst}
use Prim.Native.String.{◌++◌ as concat}
use Prim.Native.String.append
use temporal_cpp.History.{Payload}
use temporal_cpp.Data.{encoding_key, json_encoding}
use temporal_cpp.Runner.{WorkflowInfo}
use temporal_cpp.Interceptors.Tracing.{
  ObjectText, Header, Pairs, find, StartSpanOptions, SpanRecord, InMemoryTracer, Span, trace_id_key,
  span_id_key, of_parent, start_span, extract, write_to_header, read_from_header, start_and_inject,
  start_inbound, workflow_tags,
}

is_nil : String → Bool
is_nil String.[] = true
is_nil (String.◌∷◌ c s) = false

fresh_id-nonempty : (n : ℕ) → (concat "t" (to_string n) == "") ≡ false
unfolding is_nil
fresh_id-nonempty n = elim (Bool-cases (concat "t" (to_string n) == "")) [
  | inr e ↦ e
  | inl e ↦
      let same = string_key.equal_sound (concat "t" (to_string n)) "" e in
      let starts : is_nil (concat "t" (to_string n)) ≡ false =
        ap is_nil (λ i. append.cons "t" "" (to_string n) i) in
      absurd cc
]

-- The id of the trace of a span.
abbrev pub trace_of : Span → Option String
trace_of span = find trace_id_key span.context

abbrev pub id_of : Span → Option String
id_of span = find span_id_key span.context

start_span-nonempty :
    (options : StartSpanOptions) (t : InMemoryTracer)
    → (id : String) × ((trace_of (start_span options t).0 ≡ some id) × ((id == "") ≡ false))
unfolding start_span
start_span-nonempty options t = elim (Bool-cases (of_parent trace_id_key options.parent == "")) [
  | inl e ↦ (concat "t" (to_string t.next_trace_id), (rw e refl, fresh_id-nonempty t.next_trace_id))
  | inr e ↦ (of_parent trace_id_key options.parent, (rw e refl, e))
]

pub get_elem?-last :
    (rs : List SpanRecord) (r : SpanRecord) → get_elem? (rs ++ r ∷ []) (length rs) ≡ some r
get_elem?-last [] r = refl
get_elem?-last (x ∷ rs) r = get_elem?-last rs r

-- A span that was started below another: in its trace, and recorded with it as its parent.
abbrev pub IsChild : Span → Span → InMemoryTracer → Type 0
IsChild parent child t =
    (trace_of child ≡ trace_of parent)
    × ((r : SpanRecord) × ((get_elem? t.records child.record_index ≡ some r)
          × ((some r.parent_span_id ≡ id_of parent) × (some r.trace_id ≡ trace_of parent))))

start_span-parented :
    (operation name : String) (tags : Map String String) (parent : Span) (id span_id : String)
    (t : InMemoryTracer)
    → trace_of parent ≡ some id
    → (id == "") ≡ false
    → id_of parent ≡ some span_id
    → (let started =
          start_span
            (record {
              operation = operation;
              name = name;
              parent = some parent.context;
              tags = tags;
            })
            t in
        IsChild parent started.0 started.1)
unfolding start_span
start_span-parented operation name tags parent id span_id t traced nonempty named =
    let inherited : of_parent trace_id_key (some parent.context) ≡ id =
      rw (traced, of_parent) refl in
    let above : of_parent span_id_key (some parent.context) ≡ span_id =
      rw (named, of_parent) refl in
    let own = concat "t" (to_string t.next_trace_id) in
    let chosen : (if of_parent trace_id_key (some parent.context) == ""
          then own
          else of_parent trace_id_key (some parent.context))
        ≡ id =
      ap (λ x. if x == "" then own else x) inherited ∙ rw nonempty refl in
    let in_trace = ap some chosen ∙ sym traced in
    (in_trace, (_, (get_elem?-last t.records _, (ap some above ∙ sym named, in_trace))))

id_of-start_span :
    (options : StartSpanOptions) (t : InMemoryTracer)
    → (span_id : String) × (id_of (start_span options t).0 ≡ some span_id)
unfolding start_span
id_of-start_span options t = (concat "s" (to_string t.next_span_id), refl)

extract-started :
    (options : StartSpanOptions) (t : InMemoryTracer)
    → extract (start_span options t).0.context ≡ some (start_span options t).0.context
unfolding start_span extract
extract-started options t = refl

-- The JSON text of an object of texts is read back.
abbrev pub IsReadable : ObjectText → Pairs → Type 0
IsReadable text fields = text.parse (text.dump fields) ≡ some fields

read_from_header-started :
    (text : ObjectText) (header_key : String) (options : StartSpanOptions) (t : InMemoryTracer)
    (header : Header)
    → IsReadable text (start_span options t).0.context
    → read_from_header text header_key
        (write_to_header text header_key (start_span options t).0.context header)
      ≡ (start_span options t).0.context
unfolding read_from_header write_to_header start_span
read_from_header-started text header_key options t header readable =
    let fields = (start_span options t).0.context in
    let payload : Payload = record {
      metadata = insert encoding_key json_encoding empty;
      content = text.dump fields;
    } in
    ap (λ o. elim o as (λ x. Pairs) [ none ↦ [] | some p ↦ or_else [] (text.parse p.content) ])
      (insert_self header_key payload header)
    ∙ ap (or_else []) readable

-- Traces connect across a header. Take the span of a workflow, a call that the workflow makes while it
-- runs, and what the call's header is received with, on another worker with its own tracer: the span
-- of the call is a child of the workflow's, and the span of what received it a child of the call's,
-- all in the trace of the workflow. The JSON text of the call's context is read back.
pub start_inbound-connected :
    (text : ObjectText) (header_key : String) (workflow : StartSpanOptions) (info : WorkflowInfo)
    (operation name received_operation received_name : String) (tags : Map String String)
    (header : Header) (t₀ t₁ t₂ : InMemoryTracer)
    → IsReadable text
        (start_and_inject text header_key info operation name
          (some (start_span workflow t₀).0.context)
          header
          t₁).0.context
    → (let running = (start_span workflow t₀).0 in
        let call =
          start_and_inject text header_key info operation name (some running.context) header t₁ in
        let received =
          start_inbound text header_key received_operation received_name tags call.1.0 t₂ in
        IsChild running call.0 call.1.1 × IsChild call.0 received.0 received.1)
unfolding start_and_inject start_inbound
start_inbound-connected text header_key workflow info operation name received_operation
      received_name tags header t₀ t₁ t₂ readable =
    let (id, (traced, nonempty)) = start_span-nonempty workflow t₀ in
    let (w, named) = id_of-start_span workflow t₀ in
    let running = (start_span workflow t₀).0 in
    let child =
      start_span-parented operation name (workflow_tags info) running id w t₁ traced nonempty
        named in
    let options : StartSpanOptions = record {
      operation = operation;
      name = name;
      parent = some running.context;
      tags = workflow_tags info;
    } in
    let (call, t') = start_span options t₁ in
    let (c, called) = id_of-start_span options t₁ in
    let found =
      ap extract (read_from_header-started text header_key options t₁ header readable)
      ∙ extract-started options t₁ in
    (
      child,
      subst
          (λ p.
            let received =
              start_span
                (record {
                  operation = received_operation;
                  name = received_name;
                  parent = p;
                  tags = tags;
                })
                t₂ in
            IsChild call received.0 received.1)
          (sym found)
          (start_span-parented received_operation received_name tags call id c t₂ (child.0 ∙ traced)
            nonempty called),
    )
