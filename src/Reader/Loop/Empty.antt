-- ===== src/Reader/Loop/Empty.antt =====
-- An empty-element tag, against the opening and the closing tag that it stands for.
use xml_oxidator.Prelude.{
  ℕ, ◌≡◌, refl, sym, ap, inr, ◌∷◌, none, some, Bool-cases, inl, ltb, Outcome, ok, err, panic, ◌>>=◌,
  or_panic, from_result, OnOk, OnOk-bind,
}
use xml_oxidator.Errors.{ReaderError, utf8}
use xml_oxidator.Text.Utf8.{from_utf8}
use xml_oxidator.Tree.Path.{NodeId, format_path}
use xml_oxidator.Tree.Needs.{is_capture}
use xml_oxidator.Tree.Descriptor.{DescriptorNode, DescriptorTree, get}
use xml_oxidator.Rule.{Rule}
use xml_oxidator.Text.{Str}
use xml_oxidator.View.Summary.{Attrs}
use xml_oxidator.Reader.Events.{BytesStart, start, close, empty, parse_attributes_into}
use xml_oxidator.Reader.Context.{acquire_attrs}
use xml_oxidator.Reader.Capture.{new, start_element}
use xml_oxidator.Reader.State.{ParserState, ReaderMode, streaming, capturing}
use xml_oxidator.Reader.Sink.{Sink}
use xml_oxidator.Reader.Start.{
  descriptor_for, attrs_for, open_context, start_declared, start_streaming, start_capturing,
  start_in, handle_start,
}
use xml_oxidator.Reader.End.{handle_end}
use xml_oxidator.Reader.Loop.{Input, Verdict, handle_event, event_loop, resume}

module _ (X I : Type 0) {R : Type 0} (t : DescriptorTree R) (sink : Sink) where
  abbrev HasSink : ParserState → Type 0
  HasSink s = s.sink ≡ sink

  open_context-HasSink :
      (id : NodeId) (desc : DescriptorNode R) (name : Str) (a : Attrs) (index : ℕ) (s : ParserState)
      → HasSink s
      → OnOk {E = ReaderError X I} HasSink (open_context t id desc name a index s)
  unfolding open_context
  open_context-HasSink id desc name a index s h = elim (Bool-cases (is_capture desc.needs)) [
    | inl captured ↦ rw captured (
        OnOk-bind HasSink
          (start_element {X = X} {I = I} (new t.capture_memory_limit (format_path desc.full_path))
            name a)
          _ (λ b. h))
    | inr streamed ↦ rw streamed h
  ]

  start_in-HasSink :
      (mode : ReaderMode) (tag : BytesStart X) (s : ParserState)
      → HasSink s
      → OnOk {E = ReaderError X I} HasSink (start_in mode t tag s)
  unfolding start_streaming start_declared start_capturing
  start_in-HasSink streaming tag s h =
      OnOk-bind HasSink (from_result {E = ReaderError X I} utf8 (from_utf8 tag.name)) _ λ name.
        OnOk-bind HasSink
          (or_panic {E = ReaderError X I} (descriptor_for t s.descriptor_stack name)) _
          λ found.
            elim found
              as (λ f. OnOk {E = ReaderError X I} HasSink (elim f [
                | none ↦ ok (record s { skip_depth = 1 })
                | some id ↦ start_declared t id tag name s
              ])) [
                | none ↦ h
                | some id ↦ OnOk-bind HasSink (or_panic {E = ReaderError X I} (get t id)) _ λ desc.
                    OnOk-bind HasSink (attrs_for {I = I} desc tag s.attr_pool) _
                      λ read. open_context-HasSink id desc name read.0 _ _ h
              ]
  start_in-HasSink (capturing b depth id place) tag s h =
      OnOk-bind HasSink (from_result {E = ReaderError X I} utf8 (from_utf8 tag.name)) _ λ name.
        OnOk-bind HasSink (parse_attributes_into {I = I} tag (acquire_attrs s.attr_pool).0) _
          λ a. OnOk-bind HasSink (start_element {X = X} {I = I} b name a) _ λ b'. h

  handle_start-HasSink :
      (tag : BytesStart X) (s : ParserState)
      → HasSink s
      → OnOk {E = ReaderError X I} HasSink (handle_start t tag s)
  unfolding handle_start
  handle_start-HasSink tag s h = elim (Bool-cases (ltb 0 s.skip_depth)) [
    | inl skipping ↦ rw skipping h
    | inr reading ↦ rw reading (start_in-HasSink s.mode tag s h)
  ]

module _ (X I : Type 0) {R : Type 0} ⦃rule : Rule R⦄ (t : DescriptorTree R) where
  resume-bind :
      (m : Outcome (ReaderError X I) ParserState)
      (f : ParserState → Outcome (ReaderError X I) ParserState) (k : ParserState → Verdict X I)
      (sink : Sink)
      → OnOk (HasSink X I t sink) m
      → resume (m >>= f) k sink.sent ≡ resume m (λ s. resume (f s) k s.sink.sent) sink.sent
  resume-bind (ok s) f k sink h = ap (λ (x : Sink). resume (f s) k x.sent) (sym h)
  resume-bind (err e) f k sink h = refl
  resume-bind panic f k sink h = refl

  -- In every state an empty-element tag is read as the opening tag followed by the closing tag: the
  -- same result, and the same diagnostics sent.
  pub event_loop-empty :
      (tag : BytesStart X) (rest : Input X) (s : ParserState)
      → event_loop {I = I} t (inr (empty tag) ∷ rest) s
        ≡ event_loop t (inr (start tag) ∷ inr close ∷ rest) s
  unfolding event_loop handle_event
  event_loop-empty tag rest s =
      resume-bind (handle_start t tag s) (handle_end t) (event_loop t rest) s.sink
        (handle_start-HasSink X I t s.sink tag s refl)
