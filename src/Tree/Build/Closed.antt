-- ===== src/Tree/Build/Closed.antt =====
-- The lookups of a tree that `build` returns stay within the tree.
use mathlib.Core.Option.{some-injective}
use xml_oxidator.Prelude.{
  ℕ, zero, suc, ◌+◌, ◌≤◌, ◌<◌, ◌≡◌, refl, subst, not, List, [], ◌∷◌, map, Option, some, length,
  get_elem?, modify, length-modify, is_empty, inl, inr, Bool-cases, Option-cases, get_elem?-lt,
  lt→ltb, ◌∙◌, length-map, arith,
}
use xml_oxidator.Tree.Path.{PathSegment, NodeId, as_u32}
use xml_oxidator.Tree.Needs.{contains, children_flag, all_needs}
use xml_oxidator.Tree.Descriptor.{DescriptorNode, DescriptorTree, child_of}
use xml_oxidator.Tree.Closed.{Below, FitsIfAny, IsClosed}
use xml_oxidator.Tree.Build.{
  for_range, add_child_id, link_child, sort_node, propagate, summarise, finish_nodes,
}
use xml_oxidator.Tree.Build.Kids.{
  KidsFit, KidsFit-append, KidsFit-sort, search_child-fits, as_u32-le,
}

module _ {R : Type 0} where
  abbrev pub NodeFits : ℕ → DescriptorNode R → Type 0
  NodeFits m n = KidsFit m n.children_sorted × Below m n.parent_id

  abbrev pub NodesFit : ℕ → List (DescriptorNode R) → Type 0
  NodesFit m [] = Unit
  NodesFit m (n ∷ ns) = NodeFits m n × NodesFit m ns

  NodesFit-modify :
      (m : ℕ) (ns : List (DescriptorNode R)) (i : ℕ) (f : DescriptorNode R → DescriptorNode R)
      → ((n : DescriptorNode R) → NodeFits m n → NodeFits m (f n))
      → NodesFit m ns
      → NodesFit m (modify ns i f)
  NodesFit-modify m [] i f keep h = h
  NodesFit-modify m (n ∷ ns) zero f keep h = (keep n h.0, h.1)
  NodesFit-modify m (n ∷ ns) (suc i) f keep h = (h.0, NodesFit-modify m ns i f keep h.1)

  NodesFit-map :
      (m : ℕ) (ns : List (DescriptorNode R)) (f : DescriptorNode R → DescriptorNode R)
      → ((n : DescriptorNode R) → NodeFits m n → NodeFits m (f n))
      → NodesFit m ns
      → NodesFit m (map f ns)
  NodesFit-map m [] f keep h = h
  NodesFit-map m (n ∷ ns) f keep h = (keep n h.0, NodesFit-map m ns f keep h.1)

  NodesFit-get :
      (m : ℕ) (ns : List (DescriptorNode R)) (i : ℕ) {n : DescriptorNode R}
      → NodesFit m ns
      → get_elem? ns i ≡ some n
      → NodeFits m n
  NodesFit-get m [] i h e = cc
  NodesFit-get m (x ∷ ns) zero h e = subst (NodeFits m) (some-injective _ _ e) h.0
  NodesFit-get m (x ∷ ns) (suc i) h e = NodesFit-get m ns i h.1 e

  -- What the passes keep: the number of nodes, and links within it.
  abbrev pub Kept : ℕ → List (DescriptorNode R) → Type 0
  Kept m ns = (length ns ≡ m) × NodesFit m ns

  -- A pass ends without a panic and keeps that.
  abbrev pub Passes : ℕ → Option (List (DescriptorNode R)) → Type 0
  Passes m o = (ns : List (DescriptorNode R)) × (o ≡ some ns) × Kept m ns

  for_range-Passes :
      (m : ℕ) (step : ℕ → List (DescriptorNode R) → Option (List (DescriptorNode R)))
      → ((i : ℕ) (ns : List (DescriptorNode R)) → i < m → Kept m ns → Passes m (step i ns))
      → (count i : ℕ) (ns : List (DescriptorNode R)) → i + count ≤ m
      → Kept m ns
      → Passes m (for_range count i step ns)
  unfolding for_range
  for_range-Passes m step keep zero i ns h k = (ns, refl, k)
  for_range-Passes m step keep (suc count) i ns h k =
      let (ns', stepped, k') = keep i ns (omega arith) k in
      let (ns'', rest, k'') = for_range-Passes m step keep count (i + 1) ns' (omega arith) k' in
      (ns'', rw (stepped, for_range) rest, k'')

  add_child_id-fits :
      (m : ℕ) (tag : PathSegment) (id : NodeId)
      → id < m
      → (n : DescriptorNode R) → NodeFits m n
      → NodeFits m (add_child_id tag id n)
  add_child_id-fits m tag id h n fits =
      (KidsFit-append m n.children_sorted ((tag, id) ∷ []) fits.0 (h, tt), fits.1)

  link_child-Passes :
      (m i : ℕ) (ns : List (DescriptorNode R)) → i < m → Kept m ns → Passes m (link_child i ns)
  link_child-Passes m i ns h k =
      let (n, here) = get_elem?-lt ns i (omega (arith, k.0)) in
      elim (Option-cases n.parent_id) [
        | inl root ↦ (ns, unfold link_child in rw (here, link_child) (rw root), k)
        | inr (p, e) ↦
            let below : p < m = subst (Below m) e (NodesFit-get m ns i k.1 here).1 in
            (
              modify ns p (add_child_id n.tag (as_u32 i)),
              unfold link_child in
                  rw (here, link_child) (rw e (rw (lt→ltb p (length ns) (omega (arith, k.0))))),
              (
                length-modify ns p _ ∙ k.0,
                NodesFit-modify m ns p _
                    (add_child_id-fits m n.tag (as_u32 i) (omega (arith, as_u32-le i))) k.1,
              ),
            )
      ]

  summarise-Passes :
      (m i : ℕ) (ns : List (DescriptorNode R)) → i < m → Kept m ns → Passes m (summarise i ns)
  summarise-Passes m i ns h k =
      let (n, here) = get_elem?-lt ns i (omega (arith, k.0)) in
      elim (Option-cases n.parent_id) [
        | inl root ↦ (ns, unfold summarise in rw (here, summarise) (rw root), k)
        | inr (p, e) ↦
            let below : p < m = subst (Below m) e (NodesFit-get m ns i k.1 here).1 in
            let (parent, there) = get_elem?-lt ns p (omega (arith, k.0)) in
            elim (Bool-cases (contains parent.needs children_flag)) [
              | inl wanted ↦ (
                modify ns i (λ m. record m { summary_needs = all_needs }),
                unfold summarise in rw (here, summarise) (rw e (rw there (rw wanted))),
                (length-modify ns i _ ∙ k.0, NodesFit-modify m ns i _ (λ n fits. fits) k.1),
              )
              | inr spared ↦
                  (ns, unfold summarise in rw (here, summarise) (rw e (rw there (rw spared))), k)
            ]
      ]

  sort_node-fits : (m : ℕ) (n : DescriptorNode R) → NodeFits m n → NodeFits m (sort_node n)
  unfolding sort_node
  sort_node-fits m n h = (KidsFit-sort m n.children_sorted h.0, h.1)

  propagate-fits : (m : ℕ) (n : DescriptorNode R) → NodeFits m n → NodeFits m (propagate n)
  unfolding propagate
  propagate-fits m n h = elim (Bool-cases (not (is_empty n.child_ids))) [
    | inl parent ↦ rw parent h
    | inr leaf ↦ rw leaf h
  ]

  pub finish_nodes-Passes :
      (m : ℕ) (ns : List (DescriptorNode R)) → Kept m ns → Passes m (finish_nodes ns)
  unfolding finish_nodes
  finish_nodes-Passes m ns k =
      let (linked, first, k') =
        for_range-Passes m link_child (link_child-Passes m) (length ns) 0 ns (omega (arith, k.0))
          k in
      let sorted : Kept m (map propagate (map sort_node linked)) = (
        length-map (map sort_node linked) propagate ∙ length-map linked sort_node ∙ k'.0,
        NodesFit-map m _ propagate (propagate-fits m)
            (NodesFit-map m linked sort_node (sort_node-fits m) k'.1),
      ) in
      let (ns', second, k'') =
        for_range-Passes m summarise (summarise-Passes m) (length ns) 0 _ (omega (arith, k.0))
          sorted in
      (ns', rw (first, finish_nodes) second, k'')

-- A tree over such nodes is closed.
pub IsClosed-of_fit :
    {R : Type 0} (t : DescriptorTree R)
    → Kept (length t.nodes) t.nodes
    → FitsIfAny t t.root
    → IsClosed t
IsClosed-of_fit t k root = record {
  root_fits = root;
  child_fits = λ id name h.
      let (n, here) = get_elem?-lt t.nodes id h in
      let (found, e, fits) =
        search_child-fits (length t.nodes) n.children_sorted name
          (NodesFit-get (length t.nodes) t.nodes id k.1 here).0 in
      (found, unfold child_of in rw (here, child_of) e, fits);
}
