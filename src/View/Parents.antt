-- ===== src/View/Parents.antt =====
-- The streaming views agree with one another, and their ancestors are their parents' data.
use xml_oxidator.Prelude.{
  ℕ, suc, ◌+◌, ◌<◌, ◌≡◌, refl, ap, sym, ◌∷◌, Option, none, some, arith, Stack, length,
  get_at-push_top, word,
}
use xml_oxidator.Text.{Str}
use xml_oxidator.View.Ancestors.{
  ancestor, present, of_ancestor, ancestor-push, ancestor-suc, ancestor-zero, ancestor_attr,
  ancestor_text, ancestor_children,
}
use xml_oxidator.Tree.Descriptor.{DescriptorTree, DescriptorNode, get}
use xml_oxidator.Reader.Context.{NodeContext}
use xml_oxidator.View.Streaming.{
  StreamingView, parent, ctx, streaming_access, owned_access, indexed_access, popped_access,
}
use xml_oxidator.Rule.{NodeAccess}
use xml_oxidator.View.Answers.{Agree, Alike}

-- Two views of the same descriptor.
described-Alike :
    {D : Type 0} (o : Option D) (f g : D → NodeAccess)
    → ((desc : D) → Agree (f desc) (g desc))
    → Alike
        (elim o [ none ↦ none | some desc ↦ some (f desc) ])
        (elim o [ none ↦ none | some desc ↦ some (g desc) ])
described-Alike none f g h = tt
described-Alike (some desc) f g h = h desc

module _ (c : NodeContext) (parents : Stack NodeContext) where
  module _ (level : ℕ) (fits : level + 1 < word) where
    ancestor_attr-push :
        (name : Str)
        → ancestor_attr (length parents) parents level name
          ≡ ancestor_attr (length parents) (c ∷ parents) level name
    unfolding ancestor_attr
    ancestor_attr-push name = ap (of_ancestor _) (sym (ancestor-push parents level c fits))

    ancestor_text-push :
        ancestor_text (length parents) parents level
        ≡ ancestor_text (length parents) (c ∷ parents) level
    unfolding ancestor_text
    ancestor_text-push = ap (of_ancestor _) (sym (ancestor-push parents level c fits))

    ancestor_children-push :
        ancestor_children (length parents) parents level
        ≡ ancestor_children (length parents) (c ∷ parents) level
    unfolding ancestor_children
    ancestor_children-push = ap (of_ancestor _) (sym (ancestor-push parents level c fits))

  popped_access-Agree :
      {R : Type 0} (t : DescriptorTree R) (desc : DescriptorNode R)
      → Agree (popped_access (record { ctx = c; parent_stack = parents; tree = t }) desc) (
          indexed_access
            (record { stack = c ∷ parents; index_in_stack = length parents; tree = t })
            c
            desc)
  popped_access-Agree t desc = record {
    tag = refl;
    attr = λ name. refl;
    for_each_attr = refl;
    text = refl;
    element_index = refl;
    path = refl;
    children_summaries = refl;
    subtree = refl;
    depth = refl;
    ancestor_attr = ancestor_attr-push;
    ancestor_text = ancestor_text-push;
    ancestor_children = ancestor_children-push;
  }

  -- The view of a context that is popped shows what the view of it on top of the stack shows: both
  -- panic, or both give the same results for every access, where the ancestors are asked for with a
  -- level below 2^64 - 1.
  pub owned_access-Alike :
      {R : Type 0} (t : DescriptorTree R)
      → Alike (owned_access (record { ctx = c; parent_stack = parents; tree = t })) (
          streaming_access
            (record { stack = c ∷ parents; index_in_stack = length parents; tree = t }))
  unfolding owned_access streaming_access
  owned_access-Alike t =
      rw (get_at-push_top c parents, streaming_access)
        (described-Alike (get t c.descriptor_id) _ _ (popped_access-Agree t))

module _ {R : Type 0} (v p : StreamingView R) (up : parent v ≡ some p) where
  parent-index : v.index_in_stack ≡ suc p.index_in_stack
  unfolding parent
  parent-index = ground arith

  parent-stack : v.stack ≡ p.stack
  unfolding parent
  parent-stack = ground arith

  -- If a view has a parent, level 0 of its ancestors is the context of that parent, and each further
  -- level below 2^64 - 1 is one level less of the parent's, panics included.
  pub ancestor-parent :
      (ancestor v.index_in_stack v.stack 0 ≡ present (ctx p))
      × ((level : ℕ)
          → level + 2 < word
          → ancestor v.index_in_stack v.stack (suc level) ≡ ancestor p.index_in_stack p.stack level)
  unfolding ctx
  ancestor-parent = (
    rw (parent-index, parent-stack) (ancestor-zero p.index_in_stack p.stack),
    λ level fits.
        rw (parent-index, parent-stack) (ancestor-suc p.stack level p.index_in_stack fits),
  )
