-- ===== src/View/Streaming.antt =====
-- src/view.rs, `StreamingView`, and src/reader/parser.rs, `StreamingViewOwned`: the two views of
-- an element in streaming mode. A view whose accesses would panic is `none`.
use xml_oxidator.Prelude.{ℕ, ◌-◌, Option, none, some, Stack, get_at, length, ◌==◌, if◌then◌else◌}
use xml_oxidator.View.Summary.{find_attr}
use xml_oxidator.Tree.Descriptor.{DescriptorNode, DescriptorTree, get}
use xml_oxidator.Reader.Context.{NodeContext}
use xml_oxidator.Rule.{NodeAccess}
use xml_oxidator.View.Ancestors.{ancestor_attr, ancestor_text, ancestor_children}

pub record StreamingView (R : Type 0) : Type 0 where
  pub stack : Stack NodeContext
  pub index_in_stack : ℕ
  pub tree : DescriptorTree R

pub record StreamingViewOwned (R : Type 0) : Type 0 where
  pub ctx : NodeContext
  pub parent_stack : Stack NodeContext
  pub tree : DescriptorTree R

module _ {R : Type 0} where
  unfoldable pub parent : StreamingView R → Option (StreamingView R)
  parent v =
      if v.index_in_stack == 0
      then none
      else some (record v { index_in_stack = v.index_in_stack - 1 })

  unfoldable pub ctx : StreamingView R → Option NodeContext
  ctx v = get_at v.stack v.index_in_stack

  -- The methods of `impl NodeAccess for StreamingView`, over the context and its descriptor.
  abbrev pub indexed_access : StreamingView R → NodeContext → DescriptorNode R → NodeAccess
  indexed_access v c desc = record {
    tag = desc.tag;
    attr = λ name. find_attr c.attrs name;
    for_each_attr = c.attrs;
    text = c.text;
    element_index = c.index;
    path = desc.full_path;
    children_summaries = c.children;
    subtree = none;
    depth = v.index_in_stack;
    ancestor_attr = ancestor_attr v.index_in_stack v.stack;
    ancestor_text = ancestor_text v.index_in_stack v.stack;
    ancestor_children = ancestor_children v.index_in_stack v.stack;
  }

  unfoldable pub streaming_access : StreamingView R → Option NodeAccess
  unfolding ctx get
  streaming_access v = elim (ctx v) [
    | none ↦ none
    | some c ↦ elim (get v.tree c.descriptor_id) [
      | none ↦ none
      | some desc ↦ some (indexed_access v c desc)
    ]
  ]

  -- The methods of `impl NodeAccess for StreamingViewOwned`.
  abbrev pub popped_access : StreamingViewOwned R → DescriptorNode R → NodeAccess
  popped_access v desc = record {
    tag = desc.tag;
    attr = λ name. find_attr v.ctx.attrs name;
    for_each_attr = v.ctx.attrs;
    text = v.ctx.text;
    element_index = v.ctx.index;
    path = desc.full_path;
    children_summaries = v.ctx.children;
    subtree = none;
    depth = length v.parent_stack;
    ancestor_attr = ancestor_attr (length v.parent_stack) v.parent_stack;
    ancestor_text = ancestor_text (length v.parent_stack) v.parent_stack;
    ancestor_children = ancestor_children (length v.parent_stack) v.parent_stack;
  }

  unfoldable pub owned_access : StreamingViewOwned R → Option NodeAccess
  unfolding get
  owned_access v = elim (get v.tree v.ctx.descriptor_id) [
    | none ↦ none
    | some desc ↦ some (popped_access v desc)
  ]
