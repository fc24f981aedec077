-- ===== src/Reader/Consistent/End.antt =====
-- `handle_end` keeps the invariant, and returns with neither an error nor a panic.
use xml_oxidator.Prelude.{
  ℕ, zero, suc, ◌≤◌, ◌<◌, ◌≡◌, refl, sym, ◌∙◌, subst, [], ◌∷◌, some, false, arith, Stack, ltb, ◌==◌,
  popped, get_at, get_at-push_top, prefix, prefix-push, word, sub_usize, sub_usize-eq-sub, Returns,
  Returns-step, inl, inr, Bool-cases, ltb→lt,
}
use xml_oxidator.Errors.{ReaderError}
use xml_oxidator.Tree.Path.{NodeId}
use xml_oxidator.Tree.Needs.{contains, attrs_flag}
use xml_oxidator.Tree.Descriptor.{DescriptorTree, DescriptorNode, get}
use xml_oxidator.View.Streaming.{StreamingViewOwned, popped_access}
use xml_oxidator.View.Captured.{SubtreeView, captured_access}
use xml_oxidator.View.Results.{RuleResults, no_results}
use xml_oxidator.View.Answers.{
  Answers, RulesBehave, get-AllBehave, popped_access-Answers, captured_access-Answers,
}
use xml_oxidator.Rule.{Rule, NodeAccess}
use xml_oxidator.Reader.Sink.{Sink, evaluate_rules}
use xml_oxidator.Reader.Sink.Total.{evaluate_rules-some}
use xml_oxidator.Reader.Context.{NodeContext}
use xml_oxidator.Reader.Capture.{CaptureBuilder, build_arena_node}
use xml_oxidator.Reader.State.{capturing, streaming, ParserState, ReaderMode}
use xml_oxidator.Reader.End.{
  leave, close_context, end_streaming, close_capture, end_capturing, end_in, handle_end,
}
use xml_oxidator.Tree.Closed.{Fits}
use xml_oxidator.Reader.Consistent.{IsConsistent, AllFit, CaptureFits, ModeFits, skip-IsConsistent}
use xml_oxidator.Reader.Consistent.Start.{get-Fits}
use xml_oxidator.Reader.Consistent.Closing.{
  owned_access-some, subtree_access-some, end_element-inner, end_element-outer, Left,
  close-IsConsistent, leave-Left, pop-taken,
}

module _ (X I : Type 0) {R : Type 0} ⦃rule : Rule R⦄ (t : DescriptorTree R) (behave : RulesBehave t)
    (n : ℕ) where
  evaluated :
      (id : NodeId) (desc : DescriptorNode R)
      → get t id ≡ some desc
      → (view : NodeAccess) → Answers view
      → (k : Sink)
      → (out : Sink × RuleResults) × (evaluate_rules desc.rules 0 view k no_results ≡ some out)
  evaluated id desc here view answers k =
      evaluate_rules-some view answers desc.rules 0 k no_results
        (get-AllBehave t id desc behave here)

  close_context-Returns :
      (cs : Stack NodeContext) (s : ParserState)
      → s.context_stack ≡ cs
      → AllFit t cs
      → Left t n (popped cs) s
      → s.mode ≡ streaming
      → Returns {E = ReaderError X I} (IsConsistent t n) (close_context cs t s)
  unfolding close_context
  close_context-Returns [] s e fit h m = record {
    in_step = rw e h.0;
    counted = rw e h.1;
    fit = rw e tt;
    skips = h.3;
    mode_fits = rw m tt;
    no_spare_attrs = h.4;
  }
  close_context-Returns (c ∷ parents) s e fit h m =
      let (desc, here) = get-Fits t c.descriptor_id fit.0 in
      let owned : StreamingViewOwned R = record { ctx = c; parent_stack = parents; tree = t } in
      let (out, run) =
        evaluated owned.ctx.descriptor_id desc here (popped_access owned desc)
          (popped_access-Answers owned desc) s.sink in
      Returns-step _ _ here (
        Returns-step _ _ (owned_access-some owned desc here)
          (Returns-step _ _ run (close-IsConsistent t n _ parents s s.mode s.ctx_pool _ h m)))

  end_streaming-Returns :
      (s : ParserState)
      → s.mode ≡ streaming
      → IsConsistent t n s
      → Returns {E = ReaderError X I} (IsConsistent t n) (end_streaming t s)
  unfolding end_streaming
  end_streaming-Returns s m inv =
      close_context-Returns s.context_stack (leave s) refl inv.fit (leave-Left t n s inv) m

  close_capture-Returns :
      (b : CaptureBuilder) (id : NodeId) (place : ℕ) (cs : Stack NodeContext) (s : ParserState)
      → s.context_stack ≡ cs
      → CaptureFits n b 1 id place cs
      → IsConsistent t n s
      → Returns {E = ReaderError X I} (IsConsistent t n) (close_capture b id place t s)
  unfolding close_capture
  close_capture-Returns b id place [] s e h inv = absurd h
  close_capture-Returns b id place (c ∷ parents) s e h inv =
      let (node, closed, final) = end_element-outer b h.2 in
      let fit : AllFit t (c ∷ parents) = subst (AllFit t) e inv.fit in
      let (desc, here) = get-Fits t id (subst (Fits t) h.1 fit.0) in
      let found : get_at s.context_stack place ≡ some c =
        subst (λ cs. get_at cs place ≡ some c) (sym e)
          (subst (λ k. get_at (c ∷ parents) k ≡ some c) h.0 (get_at-push_top c parents)) in
      let below : prefix s.context_stack place ≡ some parents =
        subst (λ cs. prefix cs place ≡ some parents) (sym e)
          (subst (λ k. prefix (c ∷ parents) k ≡ some parents) h.0 (prefix-push c parents)) in
      let left : Left t n parents (leave s) =
        subst (λ cs. Left t n (popped cs) (leave s)) e (leave-Left t n s inv) in
      let view : SubtreeView R = record {
        root = build_arena_node node;
        descriptor_id = id;
        index = c.index;
        parent_stack = parents;
        tree = t;
      } in
      let (gone, rest) =
        pop-taken (contains desc.summary_needs attrs_flag) c parents _ place (sym e) h.0 in
      let (out, run) =
        evaluated id desc here (captured_access view desc) (captured_access-Answers view desc)
          s.sink in
      Returns-step _ _ closed (
        Returns-step _ _ final (
          Returns-step _ _ here (
            Returns-step _ _ found (
              Returns-step _ _ below (
                Returns-step _ _ (subtree_access-some view desc here) (
                  Returns-step _ _ run (
                    Returns-step _ _ rest
                      (close-IsConsistent t n _ parents (leave s) streaming _ _ left refl))))))))

  end_capturing-Returns :
      (b : CaptureBuilder) (depth : ℕ) (id : NodeId) (place : ℕ) (cs : Stack NodeContext)
      (s : ParserState)
      → n < word
      → s.context_stack ≡ cs
      → CaptureFits n b depth id place cs
      → IsConsistent t n s
      → Returns {E = ReaderError X I} (IsConsistent t n) (end_capturing b depth id place t s)
  end_capturing-Returns b depth id place [] s room e h inv = absurd h
  end_capturing-Returns b zero id place (c ∷ parents) s room e h inv = absurd (omega (arith, h.3))
  end_capturing-Returns b (suc zero) id place (c ∷ parents) s room e h inv =
      unfold end_capturing in
      rw (sub_usize-eq-sub 1 1 (omega arith) (omega arith))
        (close_capture-Returns b id place (c ∷ parents) s e h inv)
  end_capturing-Returns b (suc (suc k)) id place (c ∷ parents) s room e h inv =
      let (w, closed, size) = end_element-inner b k h.2 in
      let less : sub_usize (suc (suc k)) 1 ≡ suc k =
        sub_usize-eq-sub (suc (suc k)) 1 (omega arith) (omega (arith, h.4)) ∙ omega arith in
      let more : (suc k == 0) ≡ false = ground arith in
      unfold end_capturing in
      rw (less, more)
        (Returns-step _ _ closed (record {
          in_step = inv.in_step;
          counted = inv.counted;
          fit = inv.fit;
          skips = inv.skips;
          mode_fits = rw e (h.0, h.1, size, omega arith, omega (arith, h.4), h.5);
          no_spare_attrs = inv.no_spare_attrs;
        }))

  end_in-Returns :
      (mode : ReaderMode) (s : ParserState)
      → n < word
      → s.mode ≡ mode
      → IsConsistent t n s
      → Returns {E = ReaderError X I} (IsConsistent t n) (end_in mode t s)
  end_in-Returns streaming s room m inv = end_streaming-Returns s m inv
  end_in-Returns (capturing b depth id place) s room m inv =
      end_capturing-Returns b depth id place s.context_stack s room refl
        (subst (λ (md : ReaderMode). ModeFits n md s.context_stack) m inv.mode_fits) inv

  -- Over a tree whose rules panic on no access that answers: from a state that is consistent after at
  -- most `n` opening tags, where `n` is below 2^64, a closing tag is handled without an error and
  -- without a panic, and the state after it is consistent.
  pub handle_end-Returns :
      (s : ParserState)
      → n < word
      → IsConsistent t n s
      → Returns {E = ReaderError X I} (IsConsistent t n) (handle_end t s)
  unfolding handle_end
  handle_end-Returns s room inv = elim (Bool-cases (ltb 0 s.skip_depth)) [
    | inl skipping ↦
        let shallower : sub_usize s.skip_depth 1 ≤ n = omega (
          arith,
          sub_usize-eq-sub s.skip_depth 1 (ltb→lt _ _ skipping) (omega (arith, inv.skips)),
          inv.skips,
        ) in
        rw skipping
          (skip-IsConsistent t n n (sub_usize s.skip_depth 1) s (omega arith) shallower inv)
    | inr active ↦ rw active (end_in-Returns s.mode s room refl inv)
  ]
