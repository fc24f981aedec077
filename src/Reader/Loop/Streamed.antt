-- ===== src/Reader/Loop/Streamed.antt =====
-- The closing tag of an element that is not captured (src/reader/parser.rs, `handle_end`).
use xml_oxidator.Prelude.{
  ◌≡◌, List, ◌++◌, Option, none, some, Stack, popped, modify_last, Outcome, panic, Returns,
}
use xml_oxidator.Errors.{ReaderError}
use xml_oxidator.Diagnostic.{Diagnostic}
use xml_oxidator.Tree.Descriptor.{DescriptorNode, DescriptorTree}
use xml_oxidator.View.Results.{RuleResults, no_results}
use xml_oxidator.View.Streaming.{StreamingViewOwned, popped_access}
use xml_oxidator.Rule.{NodeAccess, Rule}
use xml_oxidator.Reader.Context.{NodeContext}
use xml_oxidator.Reader.Sink.{Sink, evaluate_rules}
use xml_oxidator.Reader.Sink.Order.{reported, HasRoom}
use xml_oxidator.Reader.State.{ParserState, streaming}
use xml_oxidator.Reader.End.{summary_of, add_child}

module _ (X I : Type 0) {R : Type 0} ⦃rule : Rule R⦄ (t : DescriptorTree R)
    (desc : DescriptorNode R) (c : NodeContext) (parents : Stack NodeContext)
    (s : ParserState) where
  -- What the rules of the element see.
  abbrev owned : StreamingViewOwned R
  owned = record { ctx = c; parent_stack = parents; tree = t }

  abbrev pub closing_view : NodeAccess
  closing_view = popped_access owned desc

  -- The state behind an element whose rules have reported `ds`.
  pub record IsClosedBy (ds : List Diagnostic) (s' : ParserState) : Type 0 where
    pub streams : s'.mode ≡ streaming
    pub no_skip : s'.skip_depth ≡ 0
    pub appended : reported s'.sink ≡ reported s.sink ++ ds
    pub has_room : HasRoom s'.sink
    pub results : RuleResults
    pub evaluated :
        evaluate_rules desc.rules 0 closing_view s.sink no_results ≡ some (s'.sink, results)
    pub summarised :
        s'.context_stack
        ≡ modify_last
            (add_child
              (summary_of desc.summary_needs c.attrs c.text c.descriptor_id c.index results))
            parents
    pub left_descriptors : s'.descriptor_stack ≡ popped s.descriptor_stack
    pub left_counters : s'.sibling_counters ≡ popped s.sibling_counters

  -- A closing tag panics if the rules do, and else leaves such a state.
  abbrev pub ClosesBy : Option (List Diagnostic) → Outcome (ReaderError X I) ParserState → Type 0
  ClosesBy none m = m ≡ panic
  ClosesBy (some ds) m = Returns (IsClosedBy ds) m
