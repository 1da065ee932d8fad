-- ===== src/Interceptors/Tracing/Ends.antt =====
-- Which spans end when the call that they wrap throws.
use temporal_cpp.Prelude.{
  ℕ, ◌<◌, String, Bool, true, false, Option, none, some, [], ◌∷◌, length, get_elem?, arith, ◌≡◌,
  refl, length-append, get_elem?-set_self,
}
use temporal_cpp.Activity.{ActivityInfo}
use temporal_cpp.Interceptors.Tracing.{
  ObjectText, Header, StartSpanOptions, SpanRecord, InMemoryTracer, Span, start_span, end_span,
  start_inbound, client_call, traced_activity, run_inbound, extract, read_from_header,
  activity_tags,
}
use temporal_cpp.Interceptors.Tracing.Connected.{get_elem?-last}

-- A call that throws at once.
abbrev pub throws {ℓ} : {R : Type ℓ} → InMemoryTracer → Option R × InMemoryTracer
throws t = (none, t)

-- What the record of a span says of its end: whether it ended, and with an error.
abbrev pub HasEnd : ℕ → Bool → Bool → InMemoryTracer → Type 0
HasEnd index ended error t =
    (r : SpanRecord) × ((get_elem? t.records index ≡ some r)
      × ((r.ended ≡ ended) × (r.error ≡ error)))

end_span-HasEnd :
    (span : Span) (error : Bool) (r : SpanRecord) (t : InMemoryTracer)
    → get_elem? t.records span.record_index ≡ some r
    → span.record_index < length t.records
    → HasEnd span.record_index true error (end_span span error t)
unfolding end_span
end_span-HasEnd span error r t here below =
    let ended : SpanRecord = record r { ended = true; error = error } in
    let written = get_elem?-set_self t.records span.record_index ended below in
    rw (here, end_span) (ended, (written, (refl, refl)))

start_span-HasEnd :
    (options : StartSpanOptions) (error : Bool) (t : InMemoryTracer)
    → HasEnd
        (length t.records)
        true
        error
        (end_span (start_span options t).0 error (start_span options t).1)
unfolding start_span
start_span-HasEnd options error t =
    let (span, t₁) = start_span options t in
    end_span-HasEnd span error _ t₁ (get_elem?-last t.records _)
      (omega (arith, length-append t.records (_ ∷ [])))

-- A call of the client that throws leaves its span open: the record does not end and shows no error,
-- while an activity that throws ends its span with an error.
pub client_call-left_open :
    (text : ObjectText) (header_key operation name workflow_id : String) (info : ActivityInfo)
    (header : Header) (t : InMemoryTracer)
    → HasEnd
        (length t.records)
        false
        false
        (client_call text header_key operation name workflow_id
          (λ h. throws {R = String})
          header
          t).1
      × HasEnd
          (length t.records)
          true
          true
          (traced_activity text header_key info (throws {R = String}) header t).1
unfolding client_call traced_activity start_inbound run_inbound start_span
client_call-left_open text header_key operation name workflow_id info header t = (
  (_, (get_elem?-last t.records _, (refl, refl))),
  start_span-HasEnd
      (record {
        operation = "RunActivity";
        name = info.activity_type;
        parent = extract (read_from_header text header_key header);
        tags = activity_tags info;
      })
      true t,
)
