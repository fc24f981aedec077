-- ===== src/Reader/Loop/Subtree.antt =====
-- A captured element from its opening tag to its closing tag.
use xml_oxidator.Prelude.{
  ℕ, ◌<◌, ◌≡◌, refl, [], ◌∷◌, some, Stack, length, popped, modify_last, get_at-push_top,
  prefix-push, word, sub_usize, Returns, Returns-step, Option, none, Outcome, panic, panic-step,
  panic-here,
}
use xml_oxidator.Text.{Str}
use xml_oxidator.Errors.{ReaderError}
use xml_oxidator.Tree.Path.{NodeId}
use xml_oxidator.Tree.Needs.{contains, attrs_flag}
use xml_oxidator.Tree.Descriptor.{DescriptorNode, DescriptorTree, get}
use xml_oxidator.View.Results.{RuleResults, no_results}
use xml_oxidator.View.Subtree
use xml_oxidator.View.Subtree.{SubtreeNode}
use xml_oxidator.View.Captured.{SubtreeView, captured_access}
use xml_oxidator.Rule.{Rule}
use xml_oxidator.Reader.Context.{NodeContext, empty_attr_pool}
use xml_oxidator.Reader.Capture.{BuildNode, end_element, finalize, build_arena_node}
use xml_oxidator.Reader.Capture.Roundtrip.{at}
use xml_oxidator.Reader.Sink.{Sink, evaluate_rules}
use xml_oxidator.Reader.State.{ParserState, streaming}
use xml_oxidator.Reader.End.{summary_of, add_child, close_capture, end_capturing, handle_end}
use xml_oxidator.Reader.Consistent.Closing.{subtree_access-some, pop-taken_top}
use xml_oxidator.Reader.Loop.Captured.{during}

module _ (X I : Type 0) {R : Type 0} ⦃rule : Rule R⦄ (t : DescriptorTree R) (id : NodeId)
    (desc : DescriptorNode R) where
  -- What the rules of a captured element see.
  abbrev pub view_of : SubtreeNode → ℕ → Stack NodeContext → SubtreeView R
  view_of root index parents = record {
    root = root;
    descriptor_id = id;
    index = index;
    parent_stack = parents;
    tree = t;
  }

  -- What evaluating its rules comes to.
  abbrev pub evaluated : SubtreeNode → ℕ → Stack NodeContext → Sink → Option (Sink × RuleResults)
  evaluated root index parents sink =
      evaluate_rules desc.rules 0 (captured_access (view_of root index parents) desc) sink
        no_results

  -- The state behind a captured element whose rules have left a sink and results: the sink is that
  -- one, and the context of its parent has the element's summary.
  pub record IsEvaluated (root : SubtreeNode) (c : NodeContext) (parents : Stack NodeContext)
      (s : ParserState) (out : Sink × RuleResults) (s' : ParserState) : Type 0 where
    pub streams : s'.mode ≡ streaming
    pub no_skip : s'.skip_depth ≡ 0
    pub no_spare_attrs : s'.attr_pool ≡ empty_attr_pool
    pub reported : s'.sink ≡ out.0
    pub summarised :
        s'.context_stack
        ≡ modify_last
            (add_child (summary_of desc.summary_needs c.attrs (Subtree.text root) id c.index out.1))
            parents
    pub left_descriptors : s'.descriptor_stack ≡ popped s.descriptor_stack
    pub left_counters : s'.sibling_counters ≡ popped s.sibling_counters

  -- A closing tag panics if the rules do, and else leaves such a state.
  abbrev pub ClosesWith :
      SubtreeNode
      → NodeContext
      → Stack NodeContext
      → ParserState
      → Option (Sink × RuleResults)
      → Outcome (ReaderError X I) ParserState
      → Type 0
  ClosesWith root c parents s none m = m ≡ panic
  ClosesWith root c parents s (some out) m = Returns (IsEvaluated root c parents s out) m

  module _ (here : get t id ≡ some desc) (limit : ℕ) (path : Str) (bound : limit < word)
      (c : NodeContext) (parents : Stack NodeContext) (s : ParserState) where
    -- The closing tag of the captured element.
    pub close_capture-ClosesWith :
        (n : BuildNode) (usage : ℕ) (o : Option (Sink × RuleResults))
        → evaluated (build_arena_node n) c.index parents s.sink ≡ o
        → ClosesWith
            (build_arena_node n)
            c
            parents
            (record s { context_stack = c ∷ parents })
            o
            (handle_end t (
              during X I t id
                (length parents)
                (record s { context_stack = c ∷ parents })
                (at X I limit path bound (n ∷ []) usage)
                1))
    unfolding handle_end end_capturing close_capture end_element finalize sub_usize
    close_capture-ClosesWith n usage (some out) run =
        let (gone, rest) = pop-taken_top (contains desc.summary_needs attrs_flag) c parents in
        Returns-step _ _ here (
          Returns-step _ _ (get_at-push_top c parents) (
            Returns-step _ _ (prefix-push c parents) (
              Returns-step _ _
                (subtree_access-some (view_of (build_arena_node n) c.index parents) desc here)
                (Returns-step _ _ run (
                  Returns-step _ _ rest (record {
                    streams = refl;
                    no_skip = refl;
                    no_spare_attrs = refl;
                    reported = refl;
                    summarised = refl;
                    left_descriptors = refl;
                    left_counters = refl;
                  }))))))
    close_capture-ClosesWith n usage none run = panic-step _ here (
        panic-step _ (get_at-push_top c parents) (
          panic-step _ (prefix-push c parents) (
            panic-step _
              (subtree_access-some (view_of (build_arena_node n) c.index parents) desc here)
              (panic-here _ run))))
