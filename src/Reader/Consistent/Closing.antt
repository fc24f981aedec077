-- ===== src/Reader/Consistent/Closing.antt =====
-- What closing an element does to the stacks, the capture and the context of its parent.
use xml_oxidator.Prelude.{
  ℕ, suc, ◌≤◌, ◌≡◌, refl, sym, ap, ◌∙◌, subst, [], ◌∷◌, some, true, false, Bool, arith, Stack,
  length, popped, pop, modify_last, modify_at, modify_at-push_top, length-popped, if◌then◌else◌,
}
use xml_oxidator.Tree.Descriptor.{DescriptorTree, DescriptorNode, get}
use xml_oxidator.View.Summary.{ChildSummary}
use xml_oxidator.View.Streaming.{StreamingViewOwned, popped_access, owned_access}
use xml_oxidator.View.Captured.{SubtreeView, captured_access, subtree_access}
use xml_oxidator.Reader.Context.{NodeContext, ContextPool, empty_attr_pool}
use xml_oxidator.Reader.Sink.{Sink}
use xml_oxidator.Reader.Capture.{
  BuildNode, build_node, CaptureBuilder, close_top, push_child, end_element, build_arena_node,
  finalize,
}
use xml_oxidator.Reader.State.{streaming, ParserState, ReaderMode}
use xml_oxidator.Reader.End.{leave, add_child}
use xml_oxidator.Reader.Consistent.{IsConsistent, AllFit, open_ids}

abbrev pub Any : {A : Type 0} → A → Type 0
Any _ = Unit {0}

-- A summary changes neither the identifiers nor the number of the open elements.
pub open_ids-add_child :
    (x : ChildSummary) (cs : Stack NodeContext)
    → open_ids (modify_last (add_child x) cs) ≡ open_ids cs
open_ids-add_child x [] = refl
open_ids-add_child x (c ∷ cs) = refl

pub length-add_child :
    (x : ChildSummary) (cs : Stack NodeContext) → length (modify_last (add_child x) cs) ≡ length cs
length-add_child x [] = refl
length-add_child x (c ∷ cs) = refl

pub AllFit-add_child :
    {R : Type 0} (t : DescriptorTree R) (x : ChildSummary) (cs : Stack NodeContext)
    → AllFit t cs
    → AllFit t (modify_last (add_child x) cs)
AllFit-add_child t x [] h = h
AllFit-add_child t x (c ∷ cs) h = h

module _ {R : Type 0} where
  pub owned_access-some :
      (v : StreamingViewOwned R) (desc : DescriptorNode R)
      → get v.tree v.ctx.descriptor_id ≡ some desc
      → owned_access v ≡ some (popped_access v desc)
  unfolding owned_access
  owned_access-some v desc h = ground arith

  pub subtree_access-some :
      (v : SubtreeView R) (desc : DescriptorNode R)
      → get v.tree v.descriptor_id ≡ some desc
      → subtree_access v ≡ some (captured_access v desc)
  unfolding subtree_access
  subtree_access-some v desc h = ground arith

-- Closing an inner element of a capture.
pub close_top-inner :
    (v : Stack BuildNode) (k : ℕ)
    → length v ≡ suc (suc k)
    → (w : Stack BuildNode) × (close_top v ≡ some w) × (length w ≡ suc k)
close_top-inner [] k h = absurd (omega arith)
close_top-inner (n ∷ []) k h = absurd (omega arith)
close_top-inner (n ∷ build_node t a x cs ∷ rest) k h =
    (build_node t a x (push_child cs n) ∷ rest, refl, omega arith)

pub end_element-inner :
    (b : CaptureBuilder) (k : ℕ)
    → length b.stack ≡ suc (suc k)
    → (w : Stack BuildNode) × (end_element b ≡ some (record b { stack = w })) × (length w ≡ suc k)
unfolding end_element
end_element-inner b k h =
    let (w, closed, size) = close_top-inner b.stack k h in (w, ground (arith, closed), size)

-- Closing the captured element itself: the tree can be made.
pub end_element-outer :
    (b : CaptureBuilder)
    → length b.stack ≡ 1
    → (n : BuildNode) × (end_element b ≡ some (record b { stack = n ∷ [] }))
      × (finalize (record b { stack = n ∷ [] }) ≡ some (build_arena_node n))
unfolding end_element finalize
end_element-outer b h = go b.stack refl h
  where
    go :
        (v : Stack BuildNode)
        → b.stack ≡ v
        → length v ≡ 1
        → (n : BuildNode) × (end_element b ≡ some (record b { stack = n ∷ [] }))
          × (finalize (record b { stack = n ∷ [] }) ≡ some (build_arena_node n))
    go [] e h = absurd (omega arith)
    go (n ∷ []) e h = (n, ground arith, refl)
    go (n ∷ m ∷ v) e h = absurd (omega arith)

module _ {R : Type 0} (t : DescriptorTree R) (n : ℕ) where
  -- What is known when the context of a closed element is popped.
  abbrev pub Left : Stack NodeContext → ParserState → Type 0
  Left parents s =
      (s.descriptor_stack ≡ open_ids parents)
      × (length s.sibling_counters ≡ length parents)
      × AllFit t parents
      × (s.skip_depth ≤ n)
      × (s.attr_pool ≡ empty_attr_pool)

  pub popped-open_ids : (cs : Stack NodeContext) → popped (open_ids cs) ≡ open_ids (popped cs)
  popped-open_ids [] = refl
  popped-open_ids (c ∷ cs) = refl

  pub popped-AllFit : (cs : Stack NodeContext) → AllFit t cs → AllFit t (popped cs)
  popped-AllFit [] h = h
  popped-AllFit (c ∷ cs) h = h.1

  pub close-IsConsistent :
      (x : ChildSummary) (parents : Stack NodeContext) (s : ParserState) (mode : ReaderMode)
      (pool : ContextPool) (sink : Sink)
      → Left parents s
      → mode ≡ streaming
      → IsConsistent t n (record s {
        context_stack = modify_last (add_child x) parents;
        mode = mode;
        ctx_pool = pool;
        sink = sink;
      })
  close-IsConsistent x parents s mode pool sink h m = record {
    in_step = h.0 ∙ sym (open_ids-add_child x parents);
    counted = h.1 ∙ sym (length-add_child x parents);
    fit = AllFit-add_child t x parents h.2;
    skips = h.3;
    mode_fits = rw m tt;
    no_spare_attrs = h.4;
  }

  pub leave-Left : (s : ParserState) → IsConsistent t n s → Left (popped s.context_stack) (leave s)
  leave-Left s inv = (
    ap popped inv.in_step ∙ popped-open_ids s.context_stack,
    omega (arith, length-popped s.sibling_counters, length-popped s.context_stack, inv.counted),
    popped-AllFit s.context_stack inv.fit,
    inv.skips,
    inv.no_spare_attrs,
  )

-- Taking the attributes out of the last context leaves its parents as they are.
abbrev pub taken : Bool → Stack NodeContext → ℕ → Stack NodeContext
taken b cs place = if b then modify_at cs place (λ c. record c { attrs = [] }) else cs

pub pop-taken_top :
    (b : Bool) (c : NodeContext) (parents : Stack NodeContext)
    → (gone : NodeContext) × (pop (taken b (c ∷ parents) (length parents)) ≡ some (gone, parents))
pop-taken_top true c parents =
    (record c { attrs = [] }, rw (modify_at-push_top c parents (λ c. record c { attrs = [] })))
pop-taken_top false c parents = (c, refl)

pub pop-taken :
    (b : Bool) (c : NodeContext) (parents cs : Stack NodeContext) (place : ℕ)
    → c ∷ parents ≡ cs
    → length parents ≡ place
    → (gone : NodeContext) × (pop (taken b cs place) ≡ some (gone, parents))
pop-taken b c parents cs place e p =
    subst (λ cs. (gone : NodeContext) × (pop (taken b cs place) ≡ some (gone, parents))) e
      (subst (λ k. (gone : NodeContext) × (pop (taken b (c ∷ parents) k) ≡ some (gone, parents))) p
        (pop-taken_top b c parents))
