-- ===== src/Reader/Consistent/Text.antt =====
-- Text events keep the invariant and do not panic.
use xml_oxidator.Prelude.{
  ℕ, ◌≤◌, ◌≡◌, refl, subst, [], ◌∷◌, arith, Stack, is_empty, length, ◌==◌, add_usize, ok, Safe,
  Safe-bind, ◌⊎◌, inl, inr, Bool-cases, if◌then◌else◌,
}
use xml_oxidator.Text.{Str}
use xml_oxidator.Errors.{ReaderError, xml_parse}
use xml_oxidator.Tree.Path.{NodeId}
use xml_oxidator.Tree.Descriptor.{DescriptorTree, DescriptorNode}
use xml_oxidator.Reader.Context.{NodeContext}
use xml_oxidator.Reader.Capture
use xml_oxidator.Reader.Capture.{BuildNode, CaptureBuilder, append_top, check_limit}
use xml_oxidator.Reader.State.{capturing, streaming, ParserState, ReaderMode}
use xml_oxidator.Reader.Loop.{needs_text, append_if_needed, text_streaming, text_in, handle_text}
use xml_oxidator.Reader.Consistent.{
  IsConsistent, AllFit, CaptureFits, ModeFits, open_ids, Safe-from_result, Safe-or_panic,
}
use xml_oxidator.Reader.Consistent.Opening.{check_limit-Safe}
use xml_oxidator.Reader.Consistent.Start.{get-Fits}

abbrev Any : {A : Type 0} → A → Type 0
Any _ = Unit {0}

length-append_top : (s : Str) (v : Stack BuildNode) → length (append_top s v) ≡ length v
length-append_top s [] = refl
length-append_top s (n ∷ v) = refl

-- Text opens no node, and is taken in only within the limit.
abbrev Kept : CaptureBuilder → CaptureBuilder → Type 0
Kept b b' = (length b'.stack ≡ length b.stack) × (b'.memory_usage ≤ b'.memory_limit)

CaptureFits-Kept :
    (n depth : ℕ) (b b' : CaptureBuilder) (id : NodeId) (place : ℕ) (cs : Stack NodeContext)
    → Kept b b'
    → CaptureFits n b depth id place cs
    → CaptureFits n b' depth id place cs
CaptureFits-Kept n depth b b' id place [] kept h = h
CaptureFits-Kept n depth b b' id place (c ∷ parents) kept h =
    (h.0, h.1, omega arith, h.3, h.4, kept.1)

within_limit :
    (n depth : ℕ) (b : CaptureBuilder) (id : NodeId) (place : ℕ) (cs : Stack NodeContext)
    → CaptureFits n b depth id place cs
    → b.memory_usage ≤ b.memory_limit
within_limit n depth b id place [] h = absurd h
within_limit n depth b id place (c ∷ parents) h = h.5

module _ (X I : Type 0) where
  text-Safe :
      (b : CaptureBuilder) (s : Str)
      → b.memory_usage ≤ b.memory_limit
      → Safe {E = ReaderError X I} (Kept b) (Capture.text b s)
  unfolding Capture.text
  text-Safe b s h = elim (Bool-cases (is_empty s)) [
    | inl nothing ↦ rw nothing (refl, h)
    | inr more ↦ rw more (
        Safe-bind (λ _. add_usize b.memory_usage (length s) ≤ b.memory_limit) (Kept b) _ _
          (check_limit-Safe X I (record b { memory_usage = add_usize b.memory_usage (length s) }))
          λ _ within. (length-append_top s b.stack, within))
  ]

  capture_decoded-Safe :
      (b : CaptureBuilder) (s : Str)
      → b.memory_usage ≤ b.memory_limit
      → Safe {E = ReaderError X I} (Kept b) (if is_empty s then ok b else Capture.text b s)
  capture_decoded-Safe b s h = elim (Bool-cases (is_empty s)) [
    | inl nothing ↦ rw nothing (refl, h)
    | inr more ↦ rw more (text-Safe b s h)
  ]

module _ (X I : Type 0) {R : Type 0} (t : DescriptorTree R) (n : ℕ) where
  append_if_needed-Safe :
      (desc : DescriptorNode R) (c : NodeContext) (parents : Stack NodeContext) (decode : X ⊎ Str)
      (s : ParserState)
      → s.context_stack ≡ c ∷ parents
      → s.mode ≡ streaming
      → IsConsistent t n s
      → Safe {E = ReaderError X I} (IsConsistent t n) (append_if_needed desc c parents decode s)
  unfolding append_if_needed
  append_if_needed-Safe desc c parents decode s e m inv =
      let fit : AllFit t (c ∷ parents) = subst (AllFit t) e inv.fit in
      elim (Bool-cases (needs_text desc)) [
        | inl needed ↦ rw needed (
            Safe-bind Any _ _ _ (Safe-from_result xml_parse decode) λ decoded _. record {
              in_step = subst (λ cs. s.descriptor_stack ≡ open_ids cs) e inv.in_step;
              counted =
                  subst (λ (cs : Stack NodeContext). length s.sibling_counters ≡ length cs) e
                    inv.counted;
              fit = fit;
              skips = inv.skips;
              mode_fits = rw m tt;
              no_spare_attrs = inv.no_spare_attrs;
            })
        | inr ignored ↦ rw ignored inv
      ]

  text_streaming-Safe :
      (cs : Stack NodeContext) (decode : X ⊎ Str) (s : ParserState)
      → s.context_stack ≡ cs
      → s.mode ≡ streaming
      → IsConsistent t n s
      → Safe {E = ReaderError X I} (IsConsistent t n) (text_streaming cs t decode s)
  unfolding text_streaming
  text_streaming-Safe [] decode s e m inv = inv
  text_streaming-Safe (c ∷ parents) decode s e m inv =
      let fit : AllFit t (c ∷ parents) = subst (AllFit t) e inv.fit in
      let (desc, here) = get-Fits t c.descriptor_id fit.0 in
      Safe-bind Any _ _ _ (Safe-or_panic _ _ here tt)
        λ desc _. append_if_needed-Safe desc c parents decode s e m inv

  text_in-Safe :
      (mode : ReaderMode) (decode : X ⊎ Str) (s : ParserState)
      → s.mode ≡ mode
      → IsConsistent t n s
      → Safe {E = ReaderError X I} (IsConsistent t n) (text_in mode t decode s)
  text_in-Safe streaming decode s m inv = text_streaming-Safe s.context_stack decode s refl m inv
  text_in-Safe (capturing b depth id place) decode s m inv =
      let fits : CaptureFits n b depth id place s.context_stack =
        subst (λ (md : ReaderMode). ModeFits n md s.context_stack) m inv.mode_fits in
      Safe-bind Any _ _ _ (Safe-from_result xml_parse decode) λ decoded _.
        Safe-bind (Kept b) _ _ _
          (capture_decoded-Safe X I b decoded
            (within_limit n depth b id place s.context_stack fits))
          λ b' kept. record {
            in_step = inv.in_step;
            counted = inv.counted;
            fit = inv.fit;
            skips = inv.skips;
            mode_fits = CaptureFits-Kept n depth b b' id place s.context_stack kept fits;
            no_spare_attrs = inv.no_spare_attrs;
          }

  pub handle_text-Safe :
      (decode : X ⊎ Str) (s : ParserState)
      → IsConsistent t n s
      → Safe {E = ReaderError X I} (IsConsistent t n) (handle_text t decode s)
  unfolding handle_text
  handle_text-Safe decode s inv = elim (Bool-cases (s.skip_depth == 0)) [
    | inl active ↦ rw active (text_in-Safe s.mode decode s refl inv)
    | inr skipping ↦ rw skipping inv
  ]
