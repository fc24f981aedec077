-- ===== src/Reader/Loop.antt =====
-- src/reader/parser.rs, the text events and the loops of `parse_file` and `parse_slice`.
pub mod Empty
pub mod Skip
pub mod Captured
pub mod Replayed
pub mod Subtree
pub mod Streamed
pub mod Element
pub mod Tests
use xml_oxidator.Prelude.{
  ℕ, ◌||◌, ◌⊎◌, inl, inr, List, [], ◌∷◌, ◌++◌, Bool, Stack, is_empty, ◌==◌, Outcome, ok, err, panic,
  ◌>>=◌, or_panic, from_result, if◌then◌else◌,
}
use xml_oxidator.Text.{Str}
use xml_oxidator.Text.Utf8.{from_utf8}
use xml_oxidator.Errors.{ReaderError, xml_parse, utf8}
use xml_oxidator.Diagnostic.{Diagnostic}
use xml_oxidator.Tree.Needs.{text_flag, contains}
use xml_oxidator.Tree.Descriptor.{DescriptorNode, DescriptorTree, get}
use xml_oxidator.Rule.{Rule}
use xml_oxidator.Reader.Capture
use xml_oxidator.Reader.Context.{NodeContext}
use xml_oxidator.Reader.Events.{Event, start, close, text, empty, other}
use xml_oxidator.Reader.Sink.{flush_diagnostics}
use xml_oxidator.Reader.State.{ReaderMode, streaming, capturing, ParserState, init}
use xml_oxidator.Reader.Start.{handle_start}
use xml_oxidator.Reader.End.{handle_end}

module _ {R : Type 0} where
  unfoldable pub needs_text : DescriptorNode R → Bool
  needs_text desc = contains desc.needs text_flag || contains desc.summary_needs text_flag

-- What `read_event_into` returns before `Eof`.
abbrev pub Input : Type 0 → Type 0
Input X = List (X ⊎ Event X)

-- The result of a run, and the diagnostics that it has sent; after a panic, those that the events
-- before the one that panics have sent.
abbrev pub Verdict : Type 0 → Type 0 → Type 0
Verdict X I = Outcome (ReaderError X I) (Unit {0}) × List Diagnostic

-- `?` on the outcome of a handler.
abbrev pub resume :
    {X I : Type 0}
    → Outcome (ReaderError X I) ParserState
    → (ParserState → Verdict X I)
    → List Diagnostic
    → Verdict X I
resume (ok s) k sent = k s
resume (err e) k sent = (err e, sent)
resume panic k sent = (panic, sent)

module _ {R X I : Type 0} where
  -- The text goes to the open element, if its rules or its parent's need it.
  unfoldable pub append_if_needed :
      DescriptorNode R
      → NodeContext
      → Stack NodeContext
      → X ⊎ Str
      → ParserState
      → Outcome (ReaderError X I) ParserState
  unfolding needs_text
  append_if_needed desc ctx parents decode s =
      if needs_text desc
      then (do
        decoded ← from_result xml_parse decode
        ok (record s {
          context_stack =
              record ctx { text = if is_empty decoded then ctx.text else ctx.text ++ decoded }
              ∷ parents;
        }))
      else ok s

  unfoldable pub text_streaming :
      Stack NodeContext
      → DescriptorTree R
      → X ⊎ Str
      → ParserState
      → Outcome (ReaderError X I) ParserState
  unfolding append_if_needed
  text_streaming [] t decode s = ok s
  text_streaming (ctx ∷ parents) t decode s = do
    desc ← or_panic (get t ctx.descriptor_id)
    append_if_needed desc ctx parents decode s

  abbrev pub text_in :
      ReaderMode → DescriptorTree R → X ⊎ Str → ParserState → Outcome (ReaderError X I) ParserState
  text_in streaming t decode s = text_streaming s.context_stack t decode s
  text_in (capturing builder depth id place) t decode s = do
    decoded ← from_result xml_parse decode
    builder' ← if is_empty decoded then ok builder else Capture.text builder decoded
    ok (record s { mode = capturing builder' depth id place })

  unfoldable pub handle_text :
      DescriptorTree R → X ⊎ Str → ParserState → Outcome (ReaderError X I) ParserState
  handle_text t decode s = if s.skip_depth == 0 then text_in s.mode t decode s else ok s

module _ {R X I : Type 0} ⦃rule : Rule R⦄ where
  -- One turn of the loop.
  unfoldable pub handle_event :
      DescriptorTree R → Event X → ParserState → Outcome (ReaderError X I) ParserState
  handle_event t (start tag) s = handle_start t tag s
  handle_event t close s = handle_end t s
  handle_event t (text decode) s = handle_text t decode s
  handle_event t (empty tag) s = handle_start t tag s >>= handle_end t
  handle_event t other s = ok s

  -- The result, and what has been sent by then. A handler that fails with an error has sent nothing.
  unfoldable pub event_loop : DescriptorTree R → Input X → ParserState → Verdict X I
  event_loop t [] s = (ok tt, (flush_diagnostics s.sink).sent)
  event_loop t (inl x ∷ rest) s = (err (xml_parse x), s.sink.sent)
  event_loop t (inr e ∷ rest) s = resume (handle_event t e s) (event_loop t rest) s.sink.sent

  unfoldable pub parse_file : DescriptorTree R → Input X → Verdict X I
  unfolding event_loop
  parse_file t input = event_loop t input init

  -- `read` is `quick_xml::Reader::from_str` and the events that it returns.
  unfoldable pub parse_slice : (Str → Input X) → DescriptorTree R → List ℕ → Verdict X I
  unfolding event_loop
  parse_slice read t bytes = elim (from_utf8 bytes) [
    | inl e ↦ (err (utf8 e), [])
    | inr s ↦ event_loop t (read s) init
  ]
