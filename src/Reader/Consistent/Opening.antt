-- ===== src/Reader/Consistent/Opening.antt =====
-- The parts of `handle_start` that open an element: attributes, captures and contexts.
use xml_oxidator.Prelude.{
  ℕ, suc, ◌≤◌, ◌<◌, ◌≡◌, refl, List, [], ◌∷◌, ◌++◌, some, arith, Stack, length, ltb, word,
  add_usize, add_usize-eq-add, Safe, Safe-bind, ◌⊎◌, inl, inr, Bool-cases, ltb-false→le, subst,
}
use xml_oxidator.Text.{Str}
use xml_oxidator.Text.Utf8.{from_utf8}
use xml_oxidator.Errors.{ReaderError, utf8}
use xml_oxidator.Tree.Descriptor.{DescriptorTree, DescriptorNode}
use xml_oxidator.View.Summary.{Attrs}
use xml_oxidator.Reader.Events.{BytesStart, read_attributes, parse_attributes_into}
use xml_oxidator.Reader.Capture.{CaptureBuilder, start_element, check_limit, element_size, new}
use xml_oxidator.Tree.Path.{NodeId, format_path}
use xml_oxidator.Tree.Needs.{is_capture}
use xml_oxidator.Reader.Context.{
  NodeContext, empty_attr_pool, acquire_attrs-empty, acquire-descriptor_id,
}
use xml_oxidator.Reader.State.{capturing, streaming, ParserState, ReaderMode}
use xml_oxidator.Reader.Start.{start_capturing, open_context}
use xml_oxidator.Tree.Closed.{Fits}
use xml_oxidator.Reader.Consistent.{
  IsConsistent, AllFit, open_ids, CaptureFits, ModeFits, Safe-from_result,
}

abbrev pub Any : {A : Type 0} → A → Type 0
Any _ = Unit {0}

-- An element that is taken in is one more open node, and the limit holds.
abbrev pub Opened : CaptureBuilder → CaptureBuilder → Type 0
Opened b b' = (length b'.stack ≡ suc (length b.stack)) × (b'.memory_usage ≤ b'.memory_limit)

deepen :
    (n depth : ℕ) (b b' : CaptureBuilder) (id : NodeId) (place : ℕ) (cs : Stack NodeContext)
    → suc n < word
    → Opened b b'
    → CaptureFits n b depth id place cs
    → CaptureFits (suc n) b' (add_usize depth 1) id place cs
deepen n depth b b' id place [] room opened h = h
deepen n depth b b' id place (c ∷ parents) room opened h =
    rw (add_usize-eq-add depth 1 (omega arith))
      (h.0, h.1, omega arith, omega arith, omega arith, opened.1)

module _ (X I : Type 0) where
  read_attributes-Safe :
      (xs : List (X ⊎ (List ℕ × List ℕ))) (out : Attrs)
      → Safe {E = ReaderError X I} Any (read_attributes xs out)
  unfolding read_attributes
  read_attributes-Safe [] out = tt
  read_attributes-Safe (inl x ∷ rest) out = tt
  read_attributes-Safe (inr (k, v) ∷ rest) out =
      Safe-bind Any Any _ _ (Safe-from_result utf8 (from_utf8 k)) λ key _.
        Safe-bind Any Any _ _ (Safe-from_result utf8 (from_utf8 v))
          λ value _. read_attributes-Safe rest (out ++ (key, value) ∷ [])

  pub parse_attributes_into-Safe :
      (tag : BytesStart X) (out : Attrs)
      → Safe {E = ReaderError X I} Any (parse_attributes_into tag out)
  unfolding parse_attributes_into
  parse_attributes_into-Safe tag out = read_attributes-Safe tag.attributes out

  pub check_limit-Safe :
      (b : CaptureBuilder)
      → Safe {E = ReaderError X I} (λ _. b.memory_usage ≤ b.memory_limit) (check_limit b)
  unfolding check_limit
  check_limit-Safe b = elim (Bool-cases (ltb b.memory_limit b.memory_usage)) [
    | inl over ↦ rw over tt
    | inr within ↦ rw within (ltb-false→le _ _ within)
  ]

  start_element-Safe :
      (b : CaptureBuilder) (name : Str) (attrs : Attrs)
      → Safe {E = ReaderError X I} (Opened b) (start_element b name attrs)
  unfolding start_element
  start_element-Safe b name attrs =
      let charged = record b {
        memory_usage = add_usize b.memory_usage (element_size name attrs);
      } in
      Safe-bind (λ _. charged.memory_usage ≤ charged.memory_limit) (Opened b) (check_limit charged)
        _ (check_limit-Safe charged) λ _ within. (refl, within)

  module _ {R : Type 0} (t : DescriptorTree R) (n : ℕ) (room : suc n < word) where
    pub start_capturing-Safe :
        (b : CaptureBuilder) (depth : ℕ) (id : NodeId) (place : ℕ) (tag : BytesStart X)
        (s : ParserState)
        → IsConsistent t n s
        → s.mode ≡ capturing b depth id place
        → Safe {E = ReaderError X I}
            (IsConsistent t (suc n))
            (start_capturing b depth id place tag s)
    unfolding start_capturing
    start_capturing-Safe b depth id place tag s inv m =
        Safe-bind Any _ _ _ (Safe-from_result utf8 (from_utf8 tag.name)) λ name _.
          Safe-bind Any _ _ _ (parse_attributes_into-Safe tag _) λ attrs _.
            Safe-bind (Opened b) _ _ _ (start_element-Safe b name attrs) λ b' opened. record {
              in_step = inv.in_step;
              counted = inv.counted;
              fit = inv.fit;
              skips = omega (arith, inv.skips);
              mode_fits =
                  deepen n depth b b' id place s.context_stack room opened
                    (subst (λ (md : ReaderMode). ModeFits n md s.context_stack) m inv.mode_fits);
              no_spare_attrs = rw (inv.no_spare_attrs, acquire_attrs-empty);
            }

    -- What `open_context` finds: everything of the new element but its context.
    abbrev pub Entered : NodeId → ParserState → Type 0
    Entered id s =
        (s.descriptor_stack ≡ some id ∷ open_ids s.context_stack)
        × (length s.sibling_counters ≡ suc (length s.context_stack))
        × AllFit t s.context_stack
        × Fits t id
        × (s.skip_depth ≤ n)
        × (s.mode ≡ streaming)
        × (s.attr_pool ≡ empty_attr_pool)

    pub open_context-Safe :
        (id : NodeId) (desc : DescriptorNode R) (name : Str) (attrs : Attrs) (index : ℕ)
        (s : ParserState)
        → Entered id s
        → Safe {E = ReaderError X I}
            (IsConsistent t (suc n))
            (open_context t id desc name attrs index s)
    unfolding open_context
    open_context-Safe id desc name attrs index s h = elim (Bool-cases (is_capture desc.needs)) [
      | inl capture ↦ rw capture (
          Safe-bind (Opened (new t.capture_memory_limit (format_path desc.full_path))) _ _ _
            (start_element-Safe _ name attrs)
            λ b opened. record {
              in_step = rw acquire-descriptor_id h.0;
              counted = h.1;
              fit = (rw acquire-descriptor_id h.3, h.2);
              skips = omega (arith, h.4);
              mode_fits = (
                refl,
                acquire-descriptor_id s.ctx_pool id attrs index,
                opened.0,
                omega arith,
                omega arith,
                opened.1,
              );
              no_spare_attrs = h.6;
            })
      | inr plain ↦ rw plain (record {
        in_step = rw acquire-descriptor_id h.0;
        counted = h.1;
        fit = (rw acquire-descriptor_id h.3, h.2);
        skips = omega (arith, h.4);
        mode_fits = rw h.5 tt;
        no_spare_attrs = h.6;
      })
    ]
