-- ===== src/Reader/Siblings/Opened.antt =====
-- What `handle_start`, `handle_end` and the text events do to the sibling counters
-- (src/reader/parser.rs).
use xml_oxidator.Prelude.{
  ◌≡◌, refl, ap, ◌⊎◌, inr, inl, [], ◌∷◌, none, some, Bool-cases, ltb, Stack, ok, or_panic,
  from_result, OnOk, OnOk-bind, OnOk-bind_eq, OnOk-mono, from_result-ok,
}
use xml_oxidator.Errors.{ReaderError, utf8}
use xml_oxidator.Text.{Str}
use xml_oxidator.Text.Utf8.{from_utf8}
use xml_oxidator.Tree.Path.{NodeId, format_path}
use xml_oxidator.Tree.Needs.{is_capture}
use xml_oxidator.Tree.Descriptor.{DescriptorNode, DescriptorTree, get}
use xml_oxidator.View.Summary.{Attrs}
use xml_oxidator.Reader.Events.{BytesStart, parse_attributes_into}
use xml_oxidator.Reader.Context.{NodeContext, acquire, acquire_attrs, acquire-eq-fresh}
use xml_oxidator.Reader.Capture.{new, start_element}
use xml_oxidator.Reader.Siblings.{Counters, hash_tag, sibling_index}
use xml_oxidator.Reader.State.{ParserState, ReaderMode, streaming, capturing}
use xml_oxidator.Reader.Start.{
  descriptor_for, attrs_for, open_context, start_declared, start_streaming, start_capturing,
  start_in, handle_start,
}

-- The counters are as they were.
abbrev pub Kept : Stack Counters → ParserState → Type 0
Kept counters s = s.sibling_counters ≡ counters

-- An element has been opened: it is counted among its siblings and has the index that was counted so
-- far, and no child of it has been counted.
pub record Opened (name : Str) (s s' : ParserState) : Type 0 where
  pub counters : s'.sibling_counters ≡ [] ∷ (sibling_index s.sibling_counters (hash_tag name)).1
  pub ctx : NodeContext
  pub pushed : s'.context_stack ≡ ctx ∷ s.context_stack
  pub index : ctx.index ≡ (sibling_index s.sibling_counters (hash_tag name)).0

-- An opening tag opens an element of its name, or keeps the counters.
abbrev pub Started : {X : Type 0} → BytesStart X → ParserState → ParserState → Type 0
Started tag s s' =
    Kept s.sibling_counters s' ⊎ ((name : Str) × (from_utf8 tag.name ≡ inr name) × Opened name s s')

module _ (X I : Type 0) {R : Type 0} (t : DescriptorTree R) (tag : BytesStart X)
    (s : ParserState) where
  open_context-Opened :
      (id : NodeId) (desc : DescriptorNode R) (name : Str) (a : Attrs) (s0 : ParserState)
      → s0.context_stack ≡ s.context_stack
      → Kept ([] ∷ (sibling_index s.sibling_counters (hash_tag name)).1) s0
      → OnOk {E = ReaderError X I}
          (Opened name s)
          (open_context t id desc name a (sibling_index s.sibling_counters (hash_tag name)).0 s0)
  unfolding open_context
  open_context-Opened id desc name a s0 e h =
      let index = (sibling_index s.sibling_counters (hash_tag name)).0 in
      let got = acquire s0.ctx_pool id a index in
      let indexed : got.0.index ≡ index =
        ap (λ (c : NodeContext). c.index) (acquire-eq-fresh s0.ctx_pool id a index) in
      let over = ap (λ (cs : Stack NodeContext). got.0 ∷ cs) e in
      elim (Bool-cases (is_capture desc.needs)) [
        | inl captured ↦ rw captured (
            OnOk-bind (Opened name s)
              (start_element {X = X} {I = I}
                (new t.capture_memory_limit (format_path desc.full_path)) name a)
              _ (λ b. record { counters = h; ctx = got.0; pushed = over; index = indexed }))
        | inr streamed ↦
            rw streamed (record { counters = h; ctx = got.0; pushed = over; index = indexed })
      ]

  start_in-Started :
      (mode : ReaderMode) → OnOk {E = ReaderError X I} (Started tag s) (start_in mode t tag s)
  unfolding start_streaming start_declared start_capturing
  start_in-Started streaming =
      OnOk-bind_eq (Started tag s) (from_result {E = ReaderError X I} utf8 (from_utf8 tag.name)) _
        λ name valid.
          OnOk-bind (Started tag s)
            (or_panic {E = ReaderError X I} (descriptor_for t s.descriptor_stack name)) _
            λ found.
              elim found
                as (λ f. OnOk {E = ReaderError X I} (Started tag s) (elim f [
                  | none ↦ ok (record s { skip_depth = 1 })
                  | some id ↦ start_declared t id tag name s
                ])) [
                  | none ↦ inl refl
                  | some id ↦
                      OnOk-bind (Started tag s) (or_panic {E = ReaderError X I} (get t id)) _
                        λ desc.
                          OnOk-bind (Started tag s) (attrs_for {I = I} desc tag s.attr_pool) _
                            λ read.
                              OnOk-mono (Opened name s) (Started tag s) _
                                (λ s' opened. inr (name, from_result-ok utf8 _ name valid, opened))
                                (open_context-Opened id desc name read.0 _ refl refl)
                ]
  start_in-Started (capturing b depth id place) =
      OnOk-bind (Started tag s) (from_result {E = ReaderError X I} utf8 (from_utf8 tag.name)) _
        λ name.
          OnOk-bind (Started tag s)
            (parse_attributes_into {I = I} tag (acquire_attrs s.attr_pool).0) _
            λ a. OnOk-bind (Started tag s) (start_element {X = X} {I = I} b name a) _ λ b'. inl refl

  pub handle_start-Started : OnOk {E = ReaderError X I} (Started tag s) (handle_start t tag s)
  unfolding handle_start
  handle_start-Started = elim (Bool-cases (ltb 0 s.skip_depth)) [
    | inl skipping ↦ rw skipping (inl refl)
    | inr reading ↦ rw reading (start_in-Started s.mode)
  ]
