-- ===== src/Reader/Consistent/Start.antt =====
-- `handle_start` keeps the invariant and does not panic.
use xml_oxidator.Prelude.{
  ℕ, suc, ◌≤◌, ◌<◌, ◌≡◌, refl, sym, ap, ◌∙◌, subst, [], ◌∷◌, Option, none, some, true, false, Bool,
  arith, Stack, ltb, word, add_usize, add_usize-eq-add, Safe, Safe-bind, inl, inr, Bool-cases,
  Option-cases, get_elem?-lt, if◌then◌else◌,
}
use xml_oxidator.Text.{Str, str_eq}
use xml_oxidator.Text.Utf8.{from_utf8}
use xml_oxidator.Errors.{ReaderError, utf8}
use xml_oxidator.Tree.Path.{NodeId}
use xml_oxidator.Tree.Descriptor.{DescriptorTree, DescriptorNode, get, root_id}
use xml_oxidator.View.Summary.{Attrs}
use xml_oxidator.Reader.Context.{NodeContext, AttrPool, empty_attr_pool, acquire_attrs-empty}
use xml_oxidator.Reader.Events.{BytesStart}
use xml_oxidator.Reader.Siblings.{hash_tag, length-sibling_index}
use xml_oxidator.Reader.State.{capturing, streaming, ParserState, ReaderMode}
use xml_oxidator.Reader.Start.{
  start_streaming, start_declared, attrs_for, needs_attrs, descriptor_for, start_in, handle_start,
}
use xml_oxidator.Tree.Closed.{IsClosed, Fits, FitsIfAny}
use xml_oxidator.Reader.Consistent.{
  IsConsistent, AllFit, open_ids, Safe-or_panic, Safe-from_result, skip-IsConsistent,
}
use xml_oxidator.Reader.Consistent.Opening.{
  Any, parse_attributes_into-Safe, start_capturing-Safe, open_context-Safe,
}

module _ {R : Type 0} (t : DescriptorTree R) where
  pub get-Fits : (id : NodeId) → Fits t id → (desc : DescriptorNode R) × (get t id ≡ some desc)
  unfolding get
  get-Fits id h = get_elem?-lt t.nodes id h

  pick-Fits : (id : NodeId) → Fits t id → (b : Bool) → FitsIfAny t (if b then some id else none)
  pick-Fits id h true = h
  pick-Fits id h false = tt

  -- The descriptor of an opening tag is found without a panic, and lies in the tree.
  descriptor_for-fits :
      IsClosed t
      → (cs : Stack NodeContext) (name : Str) → AllFit t cs
      → (found : Option NodeId) × (descriptor_for t (open_ids cs) name ≡ some found)
        × FitsIfAny t found
  unfolding descriptor_for root_id
  descriptor_for-fits closed (c ∷ cs) name h = closed.child_fits c.descriptor_id name h.0
  descriptor_for-fits closed [] name h = elim (Option-cases t.root) [
    | inl outside ↦ (none, ground arith, tt)
    | inr (id, top) ↦
        let fits : Fits t id = subst (FitsIfAny t) top closed.root_fits in
        let (desc, here) = get-Fits id fits in
        (if str_eq desc.tag name then some id else none, ground arith, pick-Fits id fits _)
  ]

module _ (X I : Type 0) {R : Type 0} (t : DescriptorTree R) where
  -- Attributes start from an empty vector.
  attrs_for-Safe :
      (desc : DescriptorNode R) (tag : BytesStart X) (pool : AttrPool)
      → pool ≡ empty_attr_pool
      → Safe {E = ReaderError X I}
          (λ (p : Attrs × AttrPool). p.1 ≡ empty_attr_pool)
          (attrs_for desc tag pool)
  unfolding attrs_for
  attrs_for-Safe desc tag pool h = elim (Bool-cases (needs_attrs desc)) [
    | inl needed ↦ rw needed (
        Safe-bind Any _ _ _ (parse_attributes_into-Safe X I tag _)
          λ attrs _. rw (h, acquire_attrs-empty))
    | inr spared ↦ rw spared h
  ]

  module _ (closed : IsClosed t) (n : ℕ) (room : suc n < word) where
    start_declared-Safe :
        (id : NodeId) (tag : BytesStart X) (name : Str) (s : ParserState)
        → Fits t id
        → s.mode ≡ streaming
        → IsConsistent t n s
        → Safe {E = ReaderError X I} (IsConsistent t (suc n)) (start_declared t id tag name s)
    unfolding start_declared
    start_declared-Safe id tag name s fits m inv =
        let (desc, here) = get-Fits t id fits in
        Safe-bind (λ d. Unit {0}) _ _ _ (Safe-or_panic _ _ here tt)
          λ desc _.
            Safe-bind (λ (p : Attrs × AttrPool). p.1 ≡ empty_attr_pool) _ _ _
              (attrs_for-Safe desc tag s.attr_pool inv.no_spare_attrs)
              λ p spare. open_context-Safe X I t n room id desc name p.0 _ _ (
                ap (λ (v : Stack (Option NodeId)). some id ∷ v) inv.in_step,
                ap suc (length-sibling_index s.sibling_counters (hash_tag name) ∙ inv.counted),
                inv.fit,
                fits,
                inv.skips,
                m,
                spare,
              )

    start_streaming-Safe :
        (tag : BytesStart X) (s : ParserState)
        → s.mode ≡ streaming
        → IsConsistent t n s
        → Safe {E = ReaderError X I} (IsConsistent t (suc n)) (start_streaming t tag s)
    unfolding start_streaming
    start_streaming-Safe tag s m inv =
        Safe-bind Any _ _ _ (Safe-from_result utf8 (from_utf8 tag.name)) λ name _.
          let (found, e, fits) = descriptor_for-fits t closed s.context_stack name inv.fit in
          Safe-bind (FitsIfAny t) _ _ _
            (Safe-or_panic _ _
              (subst (λ v. descriptor_for t v name ≡ some found) (sym inv.in_step) e) fits)
            (elim [
              | none ↦ λ _. skip-IsConsistent t n (suc n) 1 s (omega arith) (omega arith) inv
              | some id ↦ λ fits. start_declared-Safe id tag name s fits m inv
            ])

    start_in-Safe :
        (mode : ReaderMode) (tag : BytesStart X) (s : ParserState)
        → s.mode ≡ mode
        → IsConsistent t n s
        → Safe {E = ReaderError X I} (IsConsistent t (suc n)) (start_in mode t tag s)
    start_in-Safe streaming tag s m inv = start_streaming-Safe tag s m inv
    start_in-Safe (capturing b depth id place) tag s m inv =
        start_capturing-Safe X I t n room b depth id place tag s inv m

    pub handle_start-Safe :
        (tag : BytesStart X) (s : ParserState)
        → IsConsistent t n s
        → Safe {E = ReaderError X I} (IsConsistent t (suc n)) (handle_start t tag s)
    unfolding handle_start
    handle_start-Safe tag s inv =
        let deeper : add_usize s.skip_depth 1 ≤ suc n =
          omega (arith, add_usize-eq-add s.skip_depth 1, inv.skips) in
        elim (Bool-cases (ltb 0 s.skip_depth)) [
          | inl skipping ↦
              rw skipping (
                skip-IsConsistent t n (suc n) (add_usize s.skip_depth 1) s (omega arith) deeper inv)
          | inr active ↦ rw active (start_in-Safe s.mode tag s refl inv)
        ]
