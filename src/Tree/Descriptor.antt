-- ===== src/Tree/Descriptor.antt =====
-- src/tree/descriptor.rs, `DescriptorNode` and `DescriptorTree`. Where an index out of bounds
-- panics, the result is `none`.
use xml_oxidator.Prelude.{ℕ, List, Option, none, some, get_elem?}
use xml_oxidator.Text.{Str}
use xml_oxidator.Text.Order.{cmp}
use xml_oxidator.Tree.Path.{PathSegment, NodeId}
use xml_oxidator.Tree.Needs.{NodeNeeds}
use xml_oxidator.Tree.Search.{binary_search_by}

pub record DescriptorNode (R : Type 0) : Type 0 where
  pub full_path : List PathSegment
  pub rules : List R
  pub children_sorted : List (PathSegment × NodeId)
  pub child_ids : List NodeId
  pub tag : PathSegment
  pub parent_id : Option NodeId
  pub needs : NodeNeeds
  pub summary_needs : NodeNeeds

pub record DescriptorTree (R : Type 0) : Type 0 where
  pub nodes : List (DescriptorNode R)
  pub root : Option NodeId
  pub capture_memory_limit : ℕ

-- children_sorted.binary_search_by(|(k, _)| k.cmp(tag)).ok().map(|i| children_sorted[i].1)
unfoldable pub search_child : List (PathSegment × NodeId) → Str → Option (Option NodeId)
search_child children name =
    elim (binary_search_by (λ (c : PathSegment × NodeId). cmp c.0 name) children) [
      | none ↦ some none
      | some i ↦ elim (get_elem? children i) [ none ↦ none | some c ↦ some (some c.1) ]
    ]

module _ {R : Type 0} where
  unfoldable pub root_id : DescriptorTree R → Option NodeId
  root_id t = t.root

  unfoldable pub get : DescriptorTree R → NodeId → Option (DescriptorNode R)
  get t id = get_elem? t.nodes id

  -- The root node; the outer `none` is the panic.
  unfoldable pub root_node : DescriptorTree R → Option (Option (DescriptorNode R))
  unfolding get
  root_node t = elim t.root [
    | none ↦ some none
    | some id ↦ elim (get t id) [ none ↦ none | some node ↦ some (some node) ]
  ]

  -- The outer `none` is the panic of an index out of bounds.
  unfoldable pub child_of : DescriptorTree R → NodeId → Str → Option (Option NodeId)
  unfolding get search_child
  child_of t parent name = elim (get t parent) [
    | none ↦ none
    | some node ↦ search_child node.children_sorted name
  ]
