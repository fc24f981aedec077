-- ===== src/Reader/End.antt =====
-- src/reader/parser.rs, `handle_end`. It returns no error; an index out of bounds, an `unwrap` or
-- an `expect` that fails is a panic, and so is a panic of a rule.
use xml_oxidator.Prelude.{
  ℕ, [], ◌∷◌, ◌++◌, Stack, popped, modify_last, modify_at, pop, get_at, prefix, ltb, ◌==◌,
  sub_usize, Outcome, ok, ◌>>=◌, or_panic, if◌then◌else◌,
}
use xml_oxidator.Text.{Str}
use xml_oxidator.Errors.{ReaderError}
use xml_oxidator.Tree.Path.{NodeId}
use xml_oxidator.Tree.Needs.{NodeNeeds, attrs_flag, text_flag, contains}
use xml_oxidator.Tree.Descriptor.{DescriptorTree, get}
use xml_oxidator.View.Results.{RuleResults, no_results}
use xml_oxidator.View.Subtree
use xml_oxidator.View.Summary.{Attrs, ChildSummary}
use xml_oxidator.View.Streaming.{owned_access}
use xml_oxidator.View.Captured.{subtree_access}
use xml_oxidator.Rule.{Rule}
use xml_oxidator.Reader.Context.{NodeContext, release}
use xml_oxidator.Reader.Capture.{CaptureBuilder, end_element, finalize}
use xml_oxidator.Reader.Siblings.{Counters}
use xml_oxidator.Reader.Sink.{evaluate_rules}
use xml_oxidator.Reader.State.{ReaderMode, streaming, capturing, ParserState}

-- What a parent is told of a closed child: attributes and text only as far as they are needed.
unfoldable pub summary_of : NodeNeeds → Attrs → Str → NodeId → ℕ → RuleResults → ChildSummary
summary_of needs attrs text id index results = record {
  attrs = if contains needs attrs_flag then attrs else [];
  text = if contains needs text_flag then text else [];
  descriptor_id = id;
  index = index;
  rule_results = results;
}

abbrev pub add_child : ChildSummary → NodeContext → NodeContext
add_child summary ctx = record ctx { children = ctx.children ++ summary ∷ [] }

-- if let Some(sib) = sibling_counters.pop() { sibling_pool.push(sib) }
abbrev pub recycle : Stack Counters → Stack Counters → Stack Counters
recycle [] pool = pool
recycle (sib ∷ rest) pool = sib ∷ pool

-- The descriptor stack and the counters of a closed element are popped.
abbrev pub leave : ParserState → ParserState
leave s = record s {
  descriptor_stack = popped s.descriptor_stack;
  sibling_counters = popped s.sibling_counters;
  sibling_pool = recycle s.sibling_counters s.sibling_pool;
}

module _ {R X I : Type 0} ⦃rule : Rule R⦄ where
  unfoldable pub close_context :
      Stack NodeContext → DescriptorTree R → ParserState → Outcome (ReaderError X I) ParserState
  close_context [] t s = ok s
  close_context (ctx ∷ parents) t s = do
    desc ← or_panic (get t ctx.descriptor_id)
    view ← or_panic (owned_access (record { ctx = ctx; parent_stack = parents; tree = t }))
    (sink, results) ← or_panic (evaluate_rules desc.rules 0 view s.sink no_results)
    let summary =
        summary_of desc.summary_needs ctx.attrs ctx.text ctx.descriptor_id ctx.index results
    ok (record s { context_stack = modify_last (add_child summary) parents; sink = sink })

  unfoldable pub end_streaming :
      DescriptorTree R → ParserState → Outcome (ReaderError X I) ParserState
  unfolding close_context
  end_streaming t s = close_context s.context_stack t (leave s)

  -- The captured element closes: the tree is made, its rules run, and its context goes back to the
  -- pool with the attributes taken out if the summary has them.
  unfoldable pub close_capture :
      CaptureBuilder
      → NodeId
      → ℕ
      → DescriptorTree R
      → ParserState
      → Outcome (ReaderError X I) ParserState
  close_capture builder id place t s = do
    builder' ← or_panic (end_element builder)
    root ← or_panic (finalize builder')
    desc ← or_panic (get t id)
    ctx ← or_panic (get_at s.context_stack place)
    parents ← or_panic (prefix s.context_stack place)
    view ← or_panic (
        subtree_access (record {
          root = root;
          descriptor_id = id;
          index = ctx.index;
          parent_stack = parents;
          tree = t;
        }))
    (sink, results) ← or_panic (evaluate_rules desc.rules 0 view s.sink no_results)
    let summary = summary_of desc.summary_needs ctx.attrs (Subtree.text root) id ctx.index results
    let taken =
        if contains desc.summary_needs attrs_flag
        then modify_at s.context_stack place (λ c. record c { attrs = [] })
        else s.context_stack
    (gone, rest) ← or_panic (pop taken)
    ok (record (leave s) {
      mode = streaming;
      context_stack = modify_last (add_child summary) rest;
      ctx_pool = release s.ctx_pool gone;
      sink = sink;
    })

  unfoldable pub end_capturing :
      CaptureBuilder
      → ℕ
      → NodeId
      → ℕ
      → DescriptorTree R
      → ParserState
      → Outcome (ReaderError X I) ParserState
  unfolding close_capture
  end_capturing builder depth id place t s =
      if sub_usize depth 1 == 0 then close_capture builder id place t s else (do
        builder' ← or_panic (end_element builder)
        ok (record s { mode = capturing builder' (sub_usize depth 1) id place }))

  abbrev pub end_in :
      ReaderMode → DescriptorTree R → ParserState → Outcome (ReaderError X I) ParserState
  end_in streaming t s = end_streaming t s
  end_in (capturing builder depth id place) t s = end_capturing builder depth id place t s

  unfoldable pub handle_end : DescriptorTree R → ParserState → Outcome (ReaderError X I) ParserState
  handle_end t s =
      if ltb 0 s.skip_depth
      then ok (record s { skip_depth = sub_usize s.skip_depth 1 })
      else end_in s.mode t s
