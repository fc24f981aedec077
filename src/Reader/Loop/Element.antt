-- ===== src/Reader/Loop/Element.antt =====
-- A captured element in the event loop, as a whole.
use xml_oxidator.Prelude.{
  ℕ, ◌+◌, ◌≤◌, ◌<◌, ◌≡◌, refl, ap, ◌∙◌, subst, inr, true, [], ◌∷◌, some, length, popped, word, ok,
  ◌>>=◌, from_result, Returns-get, Option, none, Outcome, panic, arith,
}
use xml_oxidator.Text.{Str}
use xml_oxidator.Text.Utf8.{from_utf8}
use xml_oxidator.Tree.Path.{NodeId, format_path}
use xml_oxidator.Tree.Needs.{is_capture}
use xml_oxidator.Tree.Descriptor.{DescriptorNode, DescriptorTree, get}
use xml_oxidator.View.Summary.{Attrs}
use xml_oxidator.Rule.{Rule}
use xml_oxidator.Reader.Context.{
  NodeContext, empty_attr_pool, acquire, acquire_attrs-empty, fresh, acquire-eq-fresh,
}
use xml_oxidator.Reader.Siblings.{sibling_index, hash_tag}
use xml_oxidator.Reader.Capture.{build_node, nil, new, start_element, element_size}
use xml_oxidator.Reader.Capture.Replay.{element, Contents, cost, costs, tree_of, built}
use xml_oxidator.Reader.Capture.Arena.{built-arena}
use xml_oxidator.Reader.Capture.Roundtrip.{at, start_element-fits, plays-fits}
use xml_oxidator.Reader.Events.{close, parse_attributes_into}
use xml_oxidator.Reader.State.{ParserState, streaming}
use xml_oxidator.Reader.Start.{
  descriptor_for, needs_attrs, attrs_for, open_context, start_declared, start_streaming,
  handle_start,
}
use xml_oxidator.View.Results.{RuleResults}
use xml_oxidator.Errors.{ReaderError}
use xml_oxidator.Reader.Sink.{Sink}
use xml_oxidator.Reader.End.{handle_end}
use xml_oxidator.Reader.Loop.{Input, Verdict, resume, handle_event, event_loop}
use xml_oxidator.Reader.Loop.Captured.{
  tag_of, events, AttrsDecode, ContentsDecode, element_counts, during, read_attributes-decode,
}
use xml_oxidator.Reader.Loop.Replayed.{all_replayed}
use xml_oxidator.Reader.Loop.Subtree.{IsEvaluated, evaluated, ClosesWith, close_capture-ClosesWith}

module _ (X I : Type 0) {R : Type 0} ⦃rule : Rule R⦄ (t : DescriptorTree R) (id : NodeId)
    (desc : DescriptorNode R) (name : Str) (a : Attrs) (s : ParserState) where
  abbrev pub index : ℕ
  index = (sibling_index s.sibling_counters (hash_tag name)).0

  -- The context of the element.
  abbrev pub context : NodeContext
  context = fresh id a index

  -- The stacks while the element is open.
  abbrev pub entered : ParserState
  entered = record s {
    context_stack = context ∷ s.context_stack;
    ctx_pool = (acquire s.ctx_pool id a index).1;
    descriptor_stack = some id ∷ s.descriptor_stack;
    sibling_counters = [] ∷ (sibling_index s.sibling_counters (hash_tag name)).1;
    sibling_pool = popped s.sibling_pool;
  }

  -- The element is declared at this place, as a captured one, and nothing is skipped or captured.
  pub record IsAtCapture : Type 0 where
    pub streams : s.mode ≡ streaming
    pub no_skip : s.skip_depth ≡ 0
    pub no_spare_attrs : s.attr_pool ≡ empty_attr_pool
    pub valid_name : from_utf8 name ≡ inr name
    pub valid_attrs : AttrsDecode a
    pub declared : descriptor_for t s.descriptor_stack name ≡ some (some id)
    pub described : get t id ≡ some desc
    pub captures : is_capture desc.needs ≡ true

  needs_attrs-capture : is_capture desc.needs ≡ true → needs_attrs desc ≡ true
  unfolding needs_attrs
  needs_attrs-capture h = ground arith

  handle_start-capture :
      IsAtCapture
      → handle_start {X = X} {I = I} t (tag_of name a) s ≡ (
          start_element (new t.capture_memory_limit (format_path desc.full_path)) name a >>= λ b.
          ok (during X I t id (length s.context_stack) entered b 1))
  unfolding handle_start start_streaming start_declared attrs_for open_context parse_attributes_into
  handle_start-capture h =
      rw (h.no_skip, h.streams)
        (rw (h.valid_name, from_result)
          (rw h.declared (
            rw h.described (
              rw (needs_attrs-capture h.captures) (
                rw (h.no_spare_attrs, acquire_attrs-empty)
                  (rw (read_attributes-decode {X = X} {I = I} a [] h.valid_attrs)
                    (rw h.captures (rw (acquire-eq-fresh s.ctx_pool id a index)))))))))

  -- What the run comes to behind the contents of the element.
  contents-built :
      (c : Contents)
      → ContentsDecode c
      → cost (element name a c) ≤ t.capture_memory_limit
      → t.capture_memory_limit < word
      → element_counts c + 1 < word
      → IsAtCapture
      → (rest : Input X)
      → (usage : ℕ) × (bound : t.capture_memory_limit < word) × (event_loop {I = I} t
            (events (element name a c) rest)
            s
          ≡ event_loop t (inr close ∷ rest) (
              during X I t id
                (length s.context_stack)
                entered
                (at X I t.capture_memory_limit
                  (format_path desc.full_path)
                  bound
                  (built (element name a c) ∷ [])
                  usage)
                1))
  unfolding event_loop handle_event events cost built
  contents-built c valid fits bound room h rest =
      let limit = t.capture_memory_limit in
      let path = format_path desc.full_path in
      let began = start_element-fits X I limit path bound name a [] 0 (omega arith) in
      let filled =
        plays-fits X I limit path bound c (build_node name a [] nil) [] (0 + element_size name a)
          (omega arith) in
      (
        0 + element_size name a + costs c,
        bound,
        rw (handle_start-capture h) (
            rw began (
              all_replayed X I t id (length s.context_stack) entered c valid
                (at X I limit path bound (build_node name a [] nil ∷ []) (0 + element_size name a))
                1 (omega arith) (omega arith) (inr close ∷ rest)
              ∙ rw filled)),
      )

  -- What the run comes to with a captured element that its rules panic on, or leave a sink and
  -- results of: a panic, or the run behind the element, from the state that they make.
  abbrev pub Continues : Contents → Input X → Option (Sink × RuleResults) → Type 0
  Continues c rest none = (event_loop {I = I} t (events (element name a c) rest) s).0 ≡ panic
  Continues c rest (some out) =
      (s' : ParserState) × (event_loop {I = I} t (events (element name a c) rest) s
        ≡ event_loop t rest s')
      × IsEvaluated X I t id desc (tree_of (element name a c)) context s.context_stack entered out
          s'

  resume-Continues :
      (c : Contents) (rest : Input X) (o : Option (Sink × RuleResults))
      (m : Outcome (ReaderError X I) ParserState)
      → event_loop {I = I} t (events (element name a c) rest) s
        ≡ resume m (event_loop t rest) s.sink.sent
      → ClosesWith X I t id desc (tree_of (element name a c)) context s.context_stack entered o m
      → Continues c rest o
  resume-Continues c rest none m ran h = ap (λ (v : Verdict X I). v.0) ran ∙ rw h
  resume-Continues c rest (some out) m ran h =
      let (s', ended, done) = Returns-get _ m h in (s', ran ∙ rw ended, done)

  -- From a streaming state that skips nothing: an element that is declared at this place as a captured
  -- one, with UTF-8 names and values, that is charged no more than the limit, which is below 2^64, and
  -- that has fewer than 2^64 - 1 elements below it. Its rules are evaluated once, in order, on the tree
  -- of the element, below the contexts of its ancestors. If they panic, so does the run. Else the run
  -- goes on behind the element, from a state with what they reported, and in which the element's
  -- summary, with their results, is the last of its parent's children.
  pub event_loop-IsEvaluated :
      (c : Contents)
      → ContentsDecode c
      → cost (element name a c) ≤ t.capture_memory_limit
      → t.capture_memory_limit < word
      → element_counts c + 1 < word
      → IsAtCapture
      → (rest : Input X)
      → Continues c rest (
          evaluated X I t id desc (tree_of (element name a c)) context.index s.context_stack s.sink)
  unfolding event_loop handle_event
  event_loop-IsEvaluated c valid fits bound room h rest =
      let e = element name a c in
      let (usage, bound', ran) = contents-built c valid fits bound room h rest in
      let last =
        during X I t id (length s.context_stack) entered
          (at X I t.capture_memory_limit (format_path desc.full_path) bound' (built e ∷ []) usage)
          1 in
      resume-Continues c rest _ (handle_end t last) ran (
        subst
          (λ root.
            ClosesWith X I t id desc root context s.context_stack entered
              (evaluated X I t id desc root context.index s.context_stack s.sink)
              (handle_end t last))
          (built-arena e)
          (close_capture-ClosesWith X I t id desc h.described t.capture_memory_limit
            (format_path desc.full_path) bound' context s.context_stack entered (built e) usage _
            refl))
