-- ===== src/View/Captured.antt =====
-- src/view.rs, `SubtreeView`: the view of an element in capture mode.
use xml_oxidator.Prelude.{ℕ, [], Option, none, some, Stack, length}
use xml_oxidator.Tree.Path.{NodeId}
use xml_oxidator.Tree.Descriptor.{DescriptorNode, DescriptorTree, get}
use xml_oxidator.Reader.Context.{NodeContext}
use xml_oxidator.Rule.{NodeAccess}
use xml_oxidator.View.Subtree.{SubtreeNode, tag, attrs, text, attr}
use xml_oxidator.View.Ancestors.{ancestor_attr, ancestor_text, ancestor_children}

pub record SubtreeView (R : Type 0) : Type 0 where
  pub root : SubtreeNode
  pub descriptor_id : NodeId
  pub index : ℕ
  pub parent_stack : Stack NodeContext
  pub tree : DescriptorTree R

module _ {R : Type 0} where
  -- The methods of `impl NodeAccess for SubtreeView`.
  abbrev pub captured_access : SubtreeView R → DescriptorNode R → NodeAccess
  captured_access v desc = record {
    tag = tag v.root;
    attr = λ name. attr v.root name;
    for_each_attr = attrs v.root;
    text = text v.root;
    element_index = v.index;
    path = desc.full_path;
    children_summaries = [];
    subtree = some v.root;
    depth = length v.parent_stack;
    ancestor_attr = ancestor_attr (length v.parent_stack) v.parent_stack;
    ancestor_text = ancestor_text (length v.parent_stack) v.parent_stack;
    ancestor_children = ancestor_children (length v.parent_stack) v.parent_stack;
  }

  -- `none` if the path's descriptor is out of bounds.
  unfoldable pub subtree_access : SubtreeView R → Option NodeAccess
  unfolding get
  subtree_access v = elim (get v.tree v.descriptor_id) [
    | none ↦ none
    | some desc ↦ some (captured_access v desc)
  ]
