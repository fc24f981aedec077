-- ===== src/Reader/Start.antt =====
-- src/reader/parser.rs, `handle_start`. An index out of bounds is a panic.
use xml_oxidator.Prelude.{
  ℕ, ◌||◌, [], ◌∷◌, Option, none, some, Bool, Stack, length, popped, ltb, add_usize, Outcome, ok,
  ◌>>=◌, or_panic, from_result, if◌then◌else◌,
}
use xml_oxidator.Text.{Str, str_eq}
use xml_oxidator.Text.Utf8.{from_utf8}
use xml_oxidator.Errors.{ReaderError, utf8}
use xml_oxidator.Tree.Path.{NodeId, format_path}
use xml_oxidator.Tree.Needs.{attrs_flag, contains, is_capture}
use xml_oxidator.Tree.Descriptor.{DescriptorNode, DescriptorTree, root_id, get, child_of}
use xml_oxidator.View.Summary.{Attrs}
use xml_oxidator.Reader.Context.{AttrPool, acquire, acquire_attrs}
use xml_oxidator.Reader.Capture.{CaptureBuilder, new, start_element}
use xml_oxidator.Reader.Events.{BytesStart, parse_attributes_into}
use xml_oxidator.Reader.Siblings.{hash_tag, sibling_index}
use xml_oxidator.Reader.State.{ReaderMode, streaming, capturing, ParserState}

module _ {R : Type 0} where
  -- The descriptor of an opening tag: the root's outside all elements, else a child of the
  -- enclosing descriptor. The outer `none` is a panic.
  unfoldable pub descriptor_for :
      DescriptorTree R → Stack (Option NodeId) → Str → Option (Option NodeId)
  descriptor_for t [] name = elim (root_id t) [
    | none ↦ some none
    | some id ↦ elim (get t id) [
      | none ↦ none
      | some node ↦ some (if str_eq node.tag name then some id else none)
    ]
  ]
  descriptor_for t (some parent ∷ rest) name = child_of t parent name
  descriptor_for t (none ∷ rest) name = some none

  unfoldable pub needs_attrs : DescriptorNode R → Bool
  needs_attrs desc =
      (contains desc.needs attrs_flag || contains desc.summary_needs attrs_flag)
      || is_capture desc.needs

module _ {X I : Type 0} where
  unfoldable pub start_capturing :
      CaptureBuilder
      → ℕ
      → NodeId
      → ℕ
      → BytesStart X
      → ParserState
      → Outcome (ReaderError X I) ParserState
  start_capturing builder depth id index tag s = do
    name ← from_result utf8 (from_utf8 tag.name)
    attrs ← parse_attributes_into tag (acquire_attrs s.attr_pool).0
    builder' ← start_element builder name attrs
    ok (record s {
      mode = capturing builder' (add_usize depth 1) id index;
      attr_pool = (acquire_attrs s.attr_pool).1;
    })

module _ {R X I : Type 0} where
  unfoldable pub attrs_for :
      DescriptorNode R → BytesStart X → AttrPool → Outcome (ReaderError X I) (Attrs × AttrPool)
  unfolding needs_attrs
  attrs_for desc tag pool =
      if needs_attrs desc
      then (do
        attrs ← parse_attributes_into tag (acquire_attrs pool).0
        ok (attrs, (acquire_attrs pool).1))
      else ok ([], pool)

  -- The last part: the context is pushed, and a capturing node starts its capture.
  unfoldable pub open_context :
      DescriptorTree R
      → NodeId
      → DescriptorNode R
      → Str
      → Attrs
      → ℕ
      → ParserState
      → Outcome (ReaderError X I) ParserState
  open_context t id desc name attrs index s =
      let (ctx, ctx_pool) = acquire s.ctx_pool id attrs index in
      let opened = record s { context_stack = ctx ∷ s.context_stack; ctx_pool = ctx_pool } in
      if is_capture desc.needs
      then (do
        builder ← start_element (new t.capture_memory_limit (format_path desc.full_path)) name attrs
        ok (record opened { mode = capturing builder 1 id (length s.context_stack) }))
      else ok opened

  -- A declared element: its sibling index, its attributes, then the stacks.
  unfoldable pub start_declared :
      DescriptorTree R
      → NodeId
      → BytesStart X
      → Str
      → ParserState
      → Outcome (ReaderError X I) ParserState
  start_declared t id tag name s = do
    let (index, counters) = sibling_index s.sibling_counters (hash_tag name)
    desc ← or_panic (get t id)
    (attrs, attr_pool) ← attrs_for desc tag s.attr_pool
    open_context t id desc name attrs index (record s {
      descriptor_stack = some id ∷ s.descriptor_stack;
      sibling_counters = [] ∷ counters;
      sibling_pool = popped s.sibling_pool;
      attr_pool = attr_pool;
    })

  unfoldable pub start_streaming :
      DescriptorTree R → BytesStart X → ParserState → Outcome (ReaderError X I) ParserState
  start_streaming t tag s = do
    name ← from_result utf8 (from_utf8 tag.name)
    found ← or_panic (descriptor_for t s.descriptor_stack name)
    elim found [
      | none ↦ ok (record s { skip_depth = 1 })
      | some id ↦ start_declared t id tag name s
    ]

  abbrev pub start_in :
      ReaderMode
      → DescriptorTree R
      → BytesStart X
      → ParserState
      → Outcome (ReaderError X I) ParserState
  start_in streaming t tag s = start_streaming t tag s
  start_in (capturing builder depth id index) t tag s = start_capturing builder depth id index tag s

  unfoldable pub handle_start :
      DescriptorTree R → BytesStart X → ParserState → Outcome (ReaderError X I) ParserState
  handle_start t tag s =
      if ltb 0 s.skip_depth
      then ok (record s { skip_depth = add_usize s.skip_depth 1 })
      else start_in s.mode t tag s
