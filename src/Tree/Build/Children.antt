-- ===== src/Tree/Build/Children.antt =====
-- The passes of `build` after the linking, and the children that a node has in the end.
use mathlib.Core.Option.{some-injective}
use xml_oxidator.Prelude.{
  ℕ, zero, suc, ◌+◌, ◌≡◌, refl, sym, ◌∙◌, ap, subst, ◌⊎◌, inl, inr, not, List, [], ◌++◌, map, some,
  length, is_empty, get_elem?, modify, get_elem?-modify_inv, get_elem?-map_inv, Option-cases,
  Bool-cases, arith,
}
use xml_oxidator.Tree.Needs.{contains, children_flag, all_needs}
use xml_oxidator.Tree.Descriptor.{DescriptorNode}
use xml_oxidator.Tree.Build.{
  for_range, link_child, sort_children, sort_node, propagate, summarise, finish_nodes,
}
use xml_oxidator.Tree.Build.Kids.{Kids}
use xml_oxidator.Tree.Build.Linked.{kids, linked, for_range-step}

module _ {R : Type 0} where
  -- Each node of the later list has the children of the node in its place in the earlier one.
  abbrev KeepsKids : List (DescriptorNode R) → List (DescriptorNode R) → Type 0
  KeepsKids ns ns' =
      (p : ℕ) (n' : DescriptorNode R)
      → get_elem? ns' p ≡ some n'
      → (n : DescriptorNode R) × (get_elem? ns p ≡ some n)
        × (n.children_sorted ≡ n'.children_sorted)

  summarise-step :
      (i : ℕ) (ns ns1 : List (DescriptorNode R))
      → summarise i ns ≡ some ns1
      → (ns1 ≡ ns) ⊎ (ns1 ≡ modify ns i (λ m. record m { summary_needs = all_needs }))
  unfolding summarise
  summarise-step i ns ns1 e = elim (Option-cases (get_elem? ns i)) [
    | inl missing ↦ absurd (ground arith)
    | inr (n, here) ↦ elim (Option-cases n.parent_id) [
      | inl root ↦ inl (ground arith)
      | inr (q, under) ↦ elim (Option-cases (get_elem? ns q)) [
        | inl missing ↦ absurd (ground arith)
        | inr (parent, there) ↦ elim (Bool-cases (contains parent.needs children_flag)) [
          | inl wanted ↦ inr (ground arith)
          | inr spared ↦ inl (ground arith)
        ]
      ]
    ]
  ]

  summarise-KeepsKids :
      (i : ℕ) (ns ns1 : List (DescriptorNode R)) → summarise i ns ≡ some ns1 → KeepsKids ns ns1
  summarise-KeepsKids i ns ns1 e p n' here = elim (summarise-step i ns ns1 e) [
    | inl same ↦
        (n', subst (λ (l : List (DescriptorNode R)). get_elem? l p ≡ some n') same here, refl)
    | inr same ↦
        let there = subst (λ (l : List (DescriptorNode R)). get_elem? l p ≡ some n') same here in
        let (n, at_p, how) = get_elem?-modify_inv ns i _ p there in
        (
          n,
          at_p,
          elim how [
            | inl (_, written) ↦ ap (λ (z : DescriptorNode R). z.children_sorted) written
            | inr (_, kept) ↦ ap (λ (z : DescriptorNode R). z.children_sorted) kept
          ],
        )
  ]

  summarised :
      (count i : ℕ) (ns ns' : List (DescriptorNode R))
      → for_range count i summarise ns ≡ some ns'
      → KeepsKids ns ns'
  unfolding for_range
  summarised zero i ns ns' e p n' here = (
    n',
    subst (λ (l : List (DescriptorNode R)). get_elem? l p ≡ some n') (sym (some-injective _ _ e))
        here,
    refl,
  )
  summarised (suc count) i ns ns' e p n' here =
      let (ns1, went, more) = for_range-step count i summarise ns ns' e in
      let (n1, at_p, same) = summarised count (i + 1) ns1 ns' more p n' here in
      let (n, at_p', same') = summarise-KeepsKids i ns ns1 went p n1 at_p in
      (n, at_p', same' ∙ same)

  propagate-children_sorted :
      (n : DescriptorNode R) → (propagate n).children_sorted ≡ n.children_sorted
  unfolding propagate
  propagate-children_sorted n = elim (Bool-cases (not (is_empty n.child_ids))) [
    | inl parent ↦ rw parent
    | inr leaf ↦ rw leaf
  ]

  -- The passes over nodes without children leave each node with the nodes whose parent it is, sorted.
  pub finish_nodes-children_sorted :
      (ns ns' : List (DescriptorNode R))
      → ((p : ℕ) (n : DescriptorNode R) → get_elem? ns p ≡ some n → n.children_sorted ≡ [])
      → finish_nodes ns ≡ some ns'
      → (p : ℕ) (n' : DescriptorNode R) → get_elem? ns' p ≡ some n'
      → n'.children_sorted ≡ sort_children (kids p 0 ns)
  unfolding finish_nodes sort_node
  finish_nodes-children_sorted ns ns' blank e p n' here =
      elim (Option-cases (for_range (length ns) 0 link_child ns)) [
        | inl stuck ↦ absurd (ground arith)
        | inr (ls, first) ↦
            let second : for_range (length ns) 0 summarise (map propagate (map sort_node ls))
                ≡ some ns' =
              ground arith in
            let (n, at_p, same) = summarised (length ns) 0 _ ns' second p n' here in
            let (s, at_s, spread) = get_elem?-map_inv propagate (map sort_node ls) p at_p in
            let (l, at_l, sorted) = get_elem?-map_inv sort_node ls p at_s in
            let all : l.children_sorted ≡ kids p 0 ns =
              linked (λ q. kids q 0 ns) ns 0 ns ls
                (λ k m at_k.
                  (m, subst (λ j. get_elem? ns j ≡ some m) (omega arith) at_k, refl, refl))
                (λ q m at_q. ap (λ (c : Kids). c ++ kids q 0 ns) (blank q m at_q)) first p l at_l in
            sym same
            ∙ ap (λ (z : DescriptorNode R). z.children_sorted) (sym spread)
            ∙ propagate-children_sorted s
            ∙ ap (λ (z : DescriptorNode R). z.children_sorted) (sym sorted)
            ∙ ap sort_children all
      ]
