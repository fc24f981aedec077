-- ===== src/Reader/Siblings/Closed.antt =====
-- What `handle_end` and the text events do to the sibling counters (src/reader/parser.rs).
use xml_oxidator.Prelude.{
  refl, ◌⊎◌, inr, inl, [], ◌∷◌, Bool-cases, ltb, Stack, popped, Option, Outcome, ok, ◌>>=◌,
  or_panic, from_result, OnOk, OnOk-bind, sub_usize, ◌==◌, is_empty, pop, prefix, get_at,
  if◌then◌else◌,
}
use xml_oxidator.Errors.{ReaderError, xml_parse}
use xml_oxidator.Text.{Str}
use xml_oxidator.Tree.Needs.{contains, attrs_flag}
use xml_oxidator.Tree.Descriptor.{DescriptorTree, get}
use xml_oxidator.Rule.{Rule}
use xml_oxidator.View.Results.{no_results}
use xml_oxidator.View.Streaming.{owned_access}
use xml_oxidator.View.Captured.{subtree_access}
use xml_oxidator.Reader.Context.{NodeContext}
use xml_oxidator.Reader.Capture
use xml_oxidator.Reader.Capture.{CaptureBuilder, end_element, finalize}
use xml_oxidator.Reader.Consistent.Closing.{taken}
use xml_oxidator.Reader.Siblings.Opened.{Kept}
use xml_oxidator.Reader.Sink.{evaluate_rules}
use xml_oxidator.Reader.State.{ParserState, ReaderMode, streaming, capturing}
use xml_oxidator.Reader.End.{
  leave, close_context, end_streaming, close_capture, end_capturing, end_in, handle_end,
}
use xml_oxidator.Reader.Loop.{needs_text, append_if_needed, text_streaming, text_in, handle_text}

-- A closing tag keeps the counters, or drops those of the children of the closed element.
abbrev pub Ended : ParserState → ParserState → Type 0
Ended s s' = Kept s.sibling_counters s' ⊎ Kept (popped s.sibling_counters) s'

module _ (X I : Type 0) {R : Type 0} ⦃rule : Rule R⦄ (t : DescriptorTree R) (s : ParserState) where
  -- An access goes on or panics.
  through :
      {A : Type 0} (o : Option A) (f : A → Outcome (ReaderError X I) ParserState)
      → ((a : A) → OnOk (Ended s) (f a))
      → OnOk (Ended s) (or_panic o >>= f)
  through o f h = OnOk-bind (Ended s) (or_panic o) f h

  close_context-Ended :
      (cs : Stack NodeContext) → OnOk {E = ReaderError X I} (Ended s) (close_context cs t (leave s))
  unfolding close_context
  close_context-Ended [] = inr refl
  close_context-Ended (c ∷ parents) = through (get t c.descriptor_id) _ λ desc.
      through (owned_access _) _
        λ view. through (evaluate_rules desc.rules 0 view s.sink no_results) _ λ out. inr refl

  end_in-Ended : (mode : ReaderMode) → OnOk {E = ReaderError X I} (Ended s) (end_in mode t s)
  unfolding end_streaming end_capturing close_capture
  end_in-Ended streaming = close_context-Ended s.context_stack
  end_in-Ended (capturing b depth id place) = elim (Bool-cases (sub_usize depth 1 == 0)) [
    | inl last ↦ rw last (
        through (end_element b) _ λ b'. through (finalize b') _ λ root. through (get t id) _ λ desc.
          through (get_at s.context_stack place) _ λ ctx.
            through (prefix s.context_stack place) _ λ parents. through (subtree_access _) _ λ view.
              through (evaluate_rules desc.rules 0 view s.sink no_results) _ λ out.
                through (pop (taken (contains desc.summary_needs attrs_flag) s.context_stack place))
                  _ λ gone. inr refl)
    | inr inner ↦ rw inner (through (end_element b) _ λ b'. inl refl)
  ]

  pub handle_end-Ended : OnOk {E = ReaderError X I} (Ended s) (handle_end t s)
  unfolding handle_end
  handle_end-Ended = elim (Bool-cases (ltb 0 s.skip_depth)) [
    | inl skipping ↦ rw skipping (inl refl)
    | inr reading ↦ rw reading (end_in-Ended s.mode)
  ]

module _ (X I : Type 0) {R : Type 0} (t : DescriptorTree R) (decode : X ⊎ Str)
    (s : ParserState) where
  text_streaming-Kept :
      (cs : Stack NodeContext)
      → OnOk {E = ReaderError X I} (Kept s.sibling_counters) (text_streaming cs t decode s)
  unfolding text_streaming append_if_needed
  text_streaming-Kept [] = refl
  text_streaming-Kept (c ∷ parents) =
      OnOk-bind _ (or_panic {E = ReaderError X I} (get t c.descriptor_id)) _ λ desc.
        elim (Bool-cases (needs_text desc)) [
          | inl needed ↦ rw needed (
              OnOk-bind (Kept s.sibling_counters)
                (from_result {E = ReaderError X I} xml_parse decode) _ λ decoded. refl)
          | inr spared ↦ rw spared refl
        ]

  text_in-Kept :
      (mode : ReaderMode)
      → OnOk {E = ReaderError X I} (Kept s.sibling_counters) (text_in mode t decode s)
  text_in-Kept streaming = text_streaming-Kept s.context_stack
  text_in-Kept (capturing b depth id place) =
      OnOk-bind (Kept s.sibling_counters) (from_result {E = ReaderError X I} xml_parse decode) _
        λ decoded.
          OnOk-bind (Kept s.sibling_counters)
            (if is_empty decoded then ok b else Capture.text {X = X} {I = I} b decoded) _ λ b'. refl

  pub handle_text-Kept :
      OnOk {E = ReaderError X I} (Kept s.sibling_counters) (handle_text t decode s)
  unfolding handle_text
  handle_text-Kept = elim (Bool-cases (s.skip_depth == 0)) [
    | inl reading ↦ rw reading (text_in-Kept s.mode)
    | inr skipping ↦ rw skipping refl
  ]
