-- ===== src/Tree/Build.antt =====
-- src/tree/builder.rs, `TreeBuilder::build`: the checks in their order, then the nodes.
pub mod Kids
pub mod Closed
pub mod Sorted
pub mod Lookup
pub mod Linked
pub mod Children
pub mod Members
pub mod Total
pub mod Distinct
pub mod Nested
pub mod Accepts
pub mod Found
pub mod Reports
use mathlib.Core.List.{foldl}
use mathlib.Core.Option
use Prim.Native.Nat.{Ordering}
use xml_oxidator.Prelude.{
  ℕ, zero, suc, ◌+◌, ◌≡◌, refl, not, ◌&&◌, ◌||◌, Bool, true, false, List, [], ◌∷◌, ◌++◌, map,
  Option, none, some, length, get_elem?, modify, is_empty, ltb, Outcome, ok, err, panic, ◌>>=◌,
  or_panic, if◌then◌else◌,
}
use xml_oxidator.Text.{Str, str_eq}
use xml_oxidator.Text.Order.{cmp}
use xml_oxidator.Errors.{
  BuilderError, no_root, incompatible_access_mode, duplicate_path, nested_capture,
}
use xml_oxidator.Tree.Path.{PathSegment, NodeId, as_u32, format_path}
use xml_oxidator.Tree.Needs.{
  NodeNeeds, attrs_flag, text_flag, children_flag, capture_flag, no_needs, all_needs, contains,
  is_capture, union,
}
use xml_oxidator.Tree.Descriptor.{DescriptorNode, DescriptorTree}
use xml_oxidator.Tree.Builder.{NodeDeclaration, TreeBuilder}
use xml_oxidator.Rule.{Rule}

-- Equality of `Vec<PathSegment>`.
unfoldable pub path_eq : List PathSegment → List PathSegment → Bool
path_eq [] [] = true
path_eq [] (t ∷ q) = false
path_eq (s ∷ p) [] = false
path_eq (s ∷ p) (t ∷ q) = str_eq s t && path_eq p q

unfoldable pub seen_before : List (List PathSegment) → List PathSegment → Bool
unfolding path_eq
seen_before [] p = false
seen_before (q ∷ seen) p = path_eq q p || seen_before seen p

module _ {R : Type 0} where
  -- The first path that an earlier declaration has. `seen` holds the keys of the `HashMap`.
  unfoldable pub find_duplicate :
      List (List PathSegment) → List (NodeDeclaration R) → Option (List PathSegment)
  unfolding seen_before
  find_duplicate seen [] = none
  find_duplicate seen (d ∷ ds) =
      if seen_before seen d.full_path
      then some d.full_path
      else find_duplicate (d.full_path ∷ seen) ds

  -- The walk over `parent_index`: the path of the nearest captured ancestor. The outer `none` is a
  -- panic. A parent stands before its children, so the index of a node is fuel enough.
  unfoldable pub captured_ancestor :
      ℕ → List (NodeDeclaration R) → Option ℕ → Option (Option (List PathSegment))
  captured_ancestor fuel ds none = some none
  captured_ancestor zero ds (some idx) = none
  captured_ancestor (suc fuel) ds (some idx) = elim (get_elem? ds idx) [
    | none ↦ none
    | some d ↦ elim d.is_capture [
      | true ↦ some (some d.full_path)
      | false ↦ captured_ancestor fuel ds d.parent_index
    ]
  ]

  -- The first captured declaration with a captured ancestor, from place `i` on: inner, outer.
  unfoldable pub find_nested :
      ℕ
      → List (NodeDeclaration R)
      → List (NodeDeclaration R)
      → Option (Option (List PathSegment × List PathSegment))
  unfolding captured_ancestor
  find_nested i all [] = some none
  find_nested i all (d ∷ ds) =
      let rest = find_nested (i + 1) all ds in
      if d.is_capture
      then elim (captured_ancestor i all d.parent_index) [
        | none ↦ none
        | some none ↦ rest
        | some (some outer) ↦ some (some (d.full_path, outer))
      ]
      else rest

module _ {R : Type 0} ⦃r : Rule R⦄ where
  -- The first rule that needs a capture which its node does not make.
  unfoldable pub incompatible_rule : Bool → List R → Option R
  incompatible_rule captures [] = none
  incompatible_rule captures (x ∷ xs) =
      if is_capture (r.needs x) && not captures then some x else incompatible_rule captures xs

  unfoldable pub find_incompatible : List (NodeDeclaration R) → Option (List PathSegment × R)
  unfolding incompatible_rule
  find_incompatible [] = none
  find_incompatible (d ∷ ds) = elim (incompatible_rule d.is_capture d.rules) [
    | none ↦ find_incompatible ds
    | some x ↦ some (d.full_path, x)
  ]

  -- The union of what the rules need, and the capture flag of a capturing node.
  unfoldable pub declared_needs : NodeDeclaration R → NodeNeeds
  declared_needs d =
      let needs = foldl (λ acc x. union acc (r.needs x)) no_needs d.rules in
      if d.is_capture then union needs capture_flag else needs

  unfoldable pub make_node : NodeDeclaration R → DescriptorNode R
  unfolding declared_needs
  make_node d = record {
    full_path = d.full_path;
    rules = d.rules;
    children_sorted = [];
    child_ids = [];
    tag = d.tag;
    parent_id = Option.map as_u32 d.parent_index;
    needs = declared_needs d;
    summary_needs = no_needs;
  }

-- for i in start..start + count { step(i) }
unfoldable pub for_range : {S : Type 0} → ℕ → ℕ → (ℕ → S → Option S) → S → Option S
for_range zero i step s = some s
for_range (suc count) i step s = elim (step i s) [
  | none ↦ none
  | some s' ↦ for_range count (i + 1) step s'
]

-- The stable sort by tag.
unfoldable pub insert_child :
    PathSegment × NodeId → List (PathSegment × NodeId) → List (PathSegment × NodeId)
insert_child c [] = c ∷ []
insert_child c (d ∷ ds) = elim (cmp c.0 d.0) [
  | Ordering.gt ↦ d ∷ insert_child c ds
  | _ ↦ c ∷ d ∷ ds
]

unfoldable pub sort_children : List (PathSegment × NodeId) → List (PathSegment × NodeId)
unfolding insert_child
sort_children [] = []
sort_children (c ∷ cs) = insert_child c (sort_children cs)

module _ {R : Type 0} where
  abbrev pub add_child_id : PathSegment → NodeId → DescriptorNode R → DescriptorNode R
  add_child_id tag id n = record n {
    child_ids = n.child_ids ++ id ∷ [];
    children_sorted = n.children_sorted ++ (tag, id) ∷ [];
  }

  unfoldable pub link_child : ℕ → List (DescriptorNode R) → Option (List (DescriptorNode R))
  link_child i nodes = elim (get_elem? nodes i) [
    | none ↦ none
    | some n ↦ elim n.parent_id [
      | none ↦ some nodes
      | some p ↦
          if ltb p (length nodes)
          then some (modify nodes p (add_child_id n.tag (as_u32 i)))
          else none
    ]
  ]

  unfoldable pub sort_node : DescriptorNode R → DescriptorNode R
  unfolding sort_children
  sort_node n = record n { children_sorted = sort_children n.children_sorted }

  -- A node with children keeps attributes and text for its descendants.
  unfoldable pub propagate : DescriptorNode R → DescriptorNode R
  propagate n =
      if not (is_empty n.child_ids)
      then record n { needs = union (union n.needs attrs_flag) text_flag }
      else n

  unfoldable pub summarise : ℕ → List (DescriptorNode R) → Option (List (DescriptorNode R))
  summarise i nodes = elim (get_elem? nodes i) [
    | none ↦ none
    | some n ↦ elim n.parent_id [
      | none ↦ some nodes
      | some p ↦ elim (get_elem? nodes p) [
        | none ↦ none
        | some parent ↦ some (
            if contains parent.needs children_flag
            then modify nodes i (λ m. record m { summary_needs = all_needs })
            else nodes)
      ]
    ]
  ]

  -- The passes over the nodes.
  unfoldable pub finish_nodes : List (DescriptorNode R) → Option (List (DescriptorNode R))
  unfolding for_range link_child sort_node propagate summarise
  finish_nodes nodes = elim (for_range (length nodes) 0 link_child nodes) [
    | none ↦ none
    | some linked ↦ for_range (length nodes) 0 summarise (map propagate (map sort_node linked))
  ]

module _ {R : Type 0} ⦃r : Rule R⦄ where
  unfoldable pub check_declarations : List (NodeDeclaration R) → Outcome BuilderError (Unit {0})
  unfolding find_duplicate find_incompatible find_nested
  check_declarations ds = if is_empty ds then err no_root else elim (find_duplicate [] ds) [
    | some path ↦ err (duplicate_path (format_path path))
    | none ↦ elim (find_incompatible ds) [
      | some (path, x) ↦ err (incompatible_access_mode (format_path path) (r.name x))
      | none ↦ elim (find_nested 0 ds ds) [
        | none ↦ panic
        | some (some (inner, outer)) ↦ err (nested_capture (format_path inner) (format_path outer))
        | some none ↦ ok tt
      ]
    ]
  ]

  unfoldable pub build : TreeBuilder R → Outcome BuilderError (DescriptorTree R)
  unfolding check_declarations make_node finish_nodes
  build b = do
    _ ← check_declarations b.declarations
    nodes ← or_panic (finish_nodes (map make_node b.declarations))
    ok (record { nodes = nodes; root = some 0; capture_memory_limit = b.capture_memory_limit })
