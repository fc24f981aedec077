-- ===== src/Tree/Build/Members.antt =====
-- The children of a node, as `build` links them: which they are, and that none is repeated.
use mathlib.Core.Option.{some-injective}
use xml_oxidator.Prelude.{
  ℕ, zero, suc, ◌+◌, ◌≡◌, ◌≢◌, ◌↔◌, refl, sym, ◌∙◌, ap, subst, inl, inr, true, List, [], ◌∷◌, some,
  get_elem?, Bool-cases, arith,
}
use xml_oxidator.Tree.Path.{PathSegment, NodeId, as_u32}
use xml_oxidator.Tree.Descriptor.{DescriptorNode}
use xml_oxidator.Tree.Build.Linked.{kids, is_parent}
use xml_oxidator.Tree.Build.Sorted.{IsIn, Lacks, IsUnrepeated}

module _ {R : Type 0} (p : ℕ) where
  -- The node with that place is a child of `p`, by its tag.
  abbrev pub IsChild : PathSegment × NodeId → ℕ → List (DescriptorNode R) → Type 0
  IsChild c i ns =
      (k : ℕ) × (m : DescriptorNode R) × (get_elem? ns k ≡ some m)
      × (is_parent p m.parent_id ≡ true)
      × (m.tag ≡ c.0)
      × (as_u32 (i + k) ≡ c.1)

  IsChild-later :
      (c : PathSegment × NodeId) (i : ℕ) (n : DescriptorNode R) (ns : List (DescriptorNode R))
      → IsChild c (i + 1) ns
      → IsChild c i (n ∷ ns)
  IsChild-later c i n ns (k, m, at_k, mine, tag, place) =
      (suc k, m, at_k, mine, tag, subst (λ j. as_u32 j ≡ c.1) (omega arith) place)

  IsIn-IsChild :
      (c : PathSegment × NodeId) (i : ℕ) (ns : List (DescriptorNode R))
      → IsIn c (kids p i ns)
      → IsChild c i ns
  IsIn-IsChild c i [] h = absurd h
  IsIn-IsChild c i (n ∷ ns) h = elim (Bool-cases (is_parent p n.parent_id)) [
    | inr foreign ↦ IsChild-later c i n ns (IsIn-IsChild c (i + 1) ns (rw foreign at h))
    | inl mine ↦
        let split : IsIn c ((n.tag, as_u32 i) ∷ kids p (i + 1) ns) = rw mine at h in
        elim split [
          | inl same ↦ (
            0,
            n,
            refl,
            mine,
            ap (λ (d : PathSegment × NodeId). d.0) same,
            ap as_u32 (omega arith) ∙ ap (λ (d : PathSegment × NodeId). d.1) same,
          )
          | inr later ↦ IsChild-later c i n ns (IsIn-IsChild c (i + 1) ns later)
        ]
  ]

  IsChild-IsIn :
      (c : PathSegment × NodeId) (i : ℕ) (ns : List (DescriptorNode R)) (k : ℕ)
      (m : DescriptorNode R)
      → get_elem? ns k ≡ some m
      → is_parent p m.parent_id ≡ true
      → m.tag ≡ c.0
      → as_u32 (i + k) ≡ c.1
      → IsIn c (kids p i ns)
  IsChild-IsIn c i [] k m at_k mine tag place = cc
  IsChild-IsIn c i (n ∷ ns) zero m at_k mine tag place =
      let same : n ≡ m = some-injective _ _ at_k in
      let own : is_parent p n.parent_id ≡ true =
        subst (λ (z : DescriptorNode R). is_parent p z.parent_id ≡ true) (sym same) mine in
      let name : n.tag ≡ c.0 = ap (λ (z : DescriptorNode R). z.tag) same ∙ tag in
      let id : as_u32 i ≡ c.1 = ap as_u32 (omega arith) ∙ place in rw own (inl (rw (name, id)))
  IsChild-IsIn c i (n ∷ ns) (suc k) m at_k mine tag place =
      let rest =
        IsChild-IsIn c (i + 1) ns k m at_k mine tag
          (subst (λ j. as_u32 j ≡ c.1) (omega arith) place) in
      elim (Bool-cases (is_parent p n.parent_id)) [
        | inl own ↦ rw own (inr rest)
        | inr foreign ↦ rw foreign rest
      ]

  -- The children of `p` are the nodes whose parent it is.
  pub IsIn-kids_iff :
      (c : PathSegment × NodeId) (i : ℕ) (ns : List (DescriptorNode R))
      → IsIn c (kids p i ns) ↔ IsChild c i ns
  IsIn-kids_iff c i ns = (
    IsIn-IsChild c i ns,
    λ (k, m, at_k, mine, tag, place). IsChild-IsIn c i ns k m at_k mine tag place,
  )

  Lacks-kids :
      (x : PathSegment) (i : ℕ) (ns : List (DescriptorNode R))
      → ((k : ℕ) (m : DescriptorNode R)
          → get_elem? ns k ≡ some m
          → is_parent p m.parent_id ≡ true
          → x ≢ m.tag)
      → Lacks x (kids p i ns)
  Lacks-kids x i [] h = tt
  Lacks-kids x i (n ∷ ns) h =
      let rest = Lacks-kids x (i + 1) ns (λ k. h (suc k)) in
      elim (Bool-cases (is_parent p n.parent_id)) [
        | inl own ↦ rw own (h 0 n refl own, rest)
        | inr foreign ↦ rw foreign rest
      ]

  -- No two nodes under `p` have one tag.
  abbrev pub IsApart : List (DescriptorNode R) → Type 0
  IsApart ns =
      (k l : ℕ) (m n : DescriptorNode R)
      → get_elem? ns k ≡ some m
      → get_elem? ns l ≡ some n
      → is_parent p m.parent_id ≡ true
      → is_parent p n.parent_id ≡ true
      → m.tag ≡ n.tag
      → k ≡ l

  -- Then none is repeated among its children.
  pub kids-IsUnrepeated :
      (i : ℕ) (ns : List (DescriptorNode R)) → IsApart ns → IsUnrepeated (kids p i ns)
  kids-IsUnrepeated i [] h = tt
  kids-IsUnrepeated i (n ∷ ns) h =
      let rest = kids-IsUnrepeated (i + 1) ns (λ k l m d at_k at_l mine own tag.
        omega (arith, h (suc k) (suc l) m d at_k at_l mine own tag)) in
      elim (Bool-cases (is_parent p n.parent_id)) [
        | inl own ↦ rw own (
          Lacks-kids n.tag (i + 1) ns
              (λ k m at_k mine tag. omega (arith, h 0 (suc k) n m refl at_k own mine tag)),
          rest,
        )
        | inr foreign ↦ rw foreign rest
      ]
