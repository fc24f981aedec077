-- ===== src/Tree/Build/Linked.antt =====
-- The linking pass of `build`: what it makes the children of a node.
use mathlib.Core.Option.{some-injective}
use xml_oxidator.Prelude.{
  ℕ, suc, ◌+◌, ◌≡◌, refl, sym, ◌∙◌, ap, subst, ◌⊎◌, inl, inr, Bool, true, false, List, [], ◌∷◌,
  ◌++◌, append_assoc, append-nil, Option, none, some, length, get_elem?, modify, length-modify,
  get_elem?-lt, get_elem?-bound, get_elem?-modify_inv, Option-cases, Bool-cases, ltb, ◌==◌, ==_refl,
  if◌then◌else◌, arith,
}
use xml_oxidator.Tree.Path.{PathSegment, as_u32}
use xml_oxidator.Tree.Descriptor.{DescriptorNode}
use xml_oxidator.Tree.Build.{for_range, add_child_id, link_child}
use xml_oxidator.Tree.Build.Kids.{Kids}

-- A pass over a range that comes to its end.
pub for_range-step :
    {S : Type 0} (count i : ℕ) (step : ℕ → S → Option S) (s s' : S)
    → for_range (suc count) i step s ≡ some s'
    → (s1 : S) × (step i s ≡ some s1) × (for_range count (i + 1) step s1 ≡ some s')
unfolding for_range
for_range-step count i step s s' e = elim (Option-cases (step i s)) [
  | inl stuck ↦ absurd (ground arith)
  | inr (s1, went) ↦ (s1, went, ground arith)
]

-- p is the parent.
abbrev pub is_parent : ℕ → Option ℕ → Bool
is_parent p none = false
is_parent p (some q) = p == q

module _ {R : Type 0} where
  -- The nodes from place `i` on whose parent is `p`, in their order.
  abbrev pub kids : ℕ → ℕ → List (DescriptorNode R) → Kids
  kids p i [] = []
  kids p i (n ∷ ns) =
      if is_parent p n.parent_id then (n.tag, as_u32 i) ∷ kids p (i + 1) ns else kids p (i + 1) ns

  link_child-step :
      (i : ℕ) (ns ns1 : List (DescriptorNode R)) (n : DescriptorNode R)
      → get_elem? ns i ≡ some n
      → link_child i ns ≡ some ns1
      → ((n.parent_id ≡ none) × (ns1 ≡ ns))
        ⊎ ((q : ℕ) × (n.parent_id ≡ some q) × (ns1 ≡ modify ns q (add_child_id n.tag (as_u32 i))))
  unfolding link_child
  link_child-step i ns ns1 n here e = elim (Option-cases n.parent_id) [
    | inl root ↦ inl (root, ground arith)
    | inr (q, under) ↦ elim (Bool-cases (ltb q (length ns))) [
      | inl inside ↦ inr (q, under, ground arith)
      | inr outside ↦ absurd (ground arith)
    ]
  ]

  -- The nodes from place `i` on have the tags and the parents of the given ones.
  abbrev pub Agrees : ℕ → List (DescriptorNode R) → List (DescriptorNode R) → Type 0
  Agrees i rest ns =
      (k : ℕ) (m : DescriptorNode R)
      → get_elem? rest k ≡ some m
      → (n : DescriptorNode R) × (get_elem? ns (i + k) ≡ some n)
        × (n.tag ≡ m.tag)
        × (n.parent_id ≡ m.parent_id)

  Agrees-modify :
      (i : ℕ) (rest ns : List (DescriptorNode R)) (q : ℕ) (tag : PathSegment) (id : ℕ)
      → Agrees i rest ns
      → Agrees i rest (modify ns q (add_child_id tag id))
  Agrees-modify i rest ns q tag id h k m e =
      let (n, here, same_tag, same_parent) = h k m e in
      let (y, there) = get_elem?-lt (modify ns q (add_child_id tag id)) (i + k) (
        omega (arith, length-modify ns q (add_child_id tag id), get_elem?-bound ns (i + k) here)) in
      let (x, at_place, how) = get_elem?-modify_inv ns q (add_child_id tag id) (i + k) there in
      let old : x ≡ n = some-injective _ _ (sym at_place ∙ here) in
      elim how [
        | inl (_, written) ↦ (
          y,
          there,
          ap (λ (z : DescriptorNode R). z.tag) (sym written)
              ∙ ap (λ (z : DescriptorNode R). z.tag) old
              ∙ same_tag,
          ap (λ (z : DescriptorNode R). z.parent_id) (sym written)
              ∙ ap (λ (z : DescriptorNode R). z.parent_id) old
              ∙ same_parent,
        )
        | inr (_, kept) ↦ (
          y,
          there,
          ap (λ (z : DescriptorNode R). z.tag) (sym kept ∙ old) ∙ same_tag,
          ap (λ (z : DescriptorNode R). z.parent_id) (sym kept ∙ old) ∙ same_parent,
        )
      ]

  Agrees-tail :
      (i : ℕ) (m : DescriptorNode R) (rest ns : List (DescriptorNode R))
      → Agrees i (m ∷ rest) ns
      → Agrees (i + 1) rest ns
  Agrees-tail i m rest ns h k d e =
      let (n, here, same_tag, same_parent) = h (suc k) d e in
      (n, subst (λ j. get_elem? ns j ≡ some n) (omega arith) here, same_tag, same_parent)

  -- What is linked already, and what is to come, are all the children of a node.
  abbrev pub Pending : (ℕ → Kids) → ℕ → List (DescriptorNode R) → List (DescriptorNode R) → Type 0
  Pending total i rest ns =
      (p : ℕ) (n : DescriptorNode R)
      → get_elem? ns p ≡ some n
      → n.children_sorted ++ kids p i rest ≡ total p

  Pending-modify :
      (total : ℕ → Kids) (i q : ℕ) (m : DescriptorNode R) (rest ns : List (DescriptorNode R))
      → m.parent_id ≡ some q
      → Pending total i (m ∷ rest) ns
      → Pending total (i + 1) rest (modify ns q (add_child_id m.tag (as_u32 i)))
  Pending-modify total i q m rest ns under h p y here =
      let (x, at_p, how) = get_elem?-modify_inv ns q (add_child_id m.tag (as_u32 i)) p here in
      let before = h p x at_p in
      elim how [
        | inl (own, written) ↦
            let mine : is_parent p m.parent_id ≡ true = rw (under, is_parent, own) (==_refl q) in
            ap (λ (z : DescriptorNode R). z.children_sorted ++ kids p (i + 1) rest) (sym written)
            ∙ append_assoc x.children_sorted ((m.tag, as_u32 i) ∷ []) (kids p (i + 1) rest)
            ∙ (rw mine at before)
        | inr (other, kept) ↦
            let foreign : is_parent p m.parent_id ≡ false = rw (under, is_parent) (ground arith) in
            ap (λ (z : DescriptorNode R). z.children_sorted ++ kids p (i + 1) rest) (sym kept)
            ∙ (rw foreign at before)
      ]

  Pending-root :
      (total : ℕ → Kids) (i : ℕ) (m : DescriptorNode R) (rest ns : List (DescriptorNode R))
      → m.parent_id ≡ none
      → Pending total i (m ∷ rest) ns
      → Pending total (i + 1) rest ns
  Pending-root total i m rest ns root h p x at_p =
      let foreign : is_parent p m.parent_id ≡ false = rw (root, is_parent) refl in
      rw foreign at (h p x at_p)

  -- Once all are linked, the children of a node are those whose parent it is.
  pub linked :
      (total : ℕ → Kids) (rest : List (DescriptorNode R)) (i : ℕ) (ns ns' : List (DescriptorNode R))
      → Agrees i rest ns
      → Pending total i rest ns
      → for_range (length rest) i link_child ns ≡ some ns'
      → (p : ℕ) (n : DescriptorNode R) → get_elem? ns' p ≡ some n
      → n.children_sorted ≡ total p
  unfolding for_range
  linked total [] i ns ns' agrees pending e p n here =
      let same : ns ≡ ns' = some-injective _ _ e in
      sym (append-nil n.children_sorted)
      ∙ pending p n
          (subst (λ (l : List (DescriptorNode R)). get_elem? l p ≡ some n) (sym same) here)
  linked total (m ∷ rest) i ns ns' agrees pending e p n here =
      let (ns1, went, more) = for_range-step (length rest) i link_child ns ns' e in
      let (d, at_i, same_tag, same_parent) = agrees 0 m refl in
      let at_place : get_elem? ns i ≡ some d =
        subst (λ j. get_elem? ns j ≡ some d) (omega arith) at_i in
      elim (link_child-step i ns ns1 d at_place went) [
        | inl (root, same) ↦
            linked total rest (i + 1) ns ns' (Agrees-tail i m rest ns agrees)
              (Pending-root total i m rest ns (sym same_parent ∙ root) pending) (rw same at more) p
              n here
        | inr (q, under, same) ↦
            let next : ns1 ≡ modify ns q (add_child_id m.tag (as_u32 i)) = rw same_tag at same in
            linked total rest (i + 1) _ ns'
              (Agrees-modify (i + 1) rest ns q m.tag (as_u32 i) (Agrees-tail i m rest ns agrees))
              (Pending-modify total i q m rest ns (sym same_parent ∙ under) pending)
              (rw next at more) p n here
      ]
