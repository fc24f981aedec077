-- ===== src/Tree/Build/Found.antt =====
-- Lookups in a tree that `build` returns find exactly the declared children.
use mathlib.Core.Option
use mathlib.Core.Option.{some-injective}
use xml_oxidator.Prelude.{
  ℕ, ◌^◌, ◌≤◌, ◌<◌, ◌≡◌, ◌↔◌, sym, ◌∙◌, ap, subst, true, List, [], map, Option, none, some, length,
  get_elem?, get_elem?-lt, get_elem?-bound, get_elem?-map, get_elem?-map_inv, Option-cases, inl,
  inr, ==_iff, ok, >>=-eq-ok, arith,
}
use xml_oxidator.Text.{Str}
use xml_oxidator.Tree.Path.{NodeId, as_u32}
use xml_oxidator.Tree.Descriptor.{DescriptorNode, DescriptorTree, get, search_child, child_of}
use xml_oxidator.Tree.Closed.{Below}
use xml_oxidator.Tree.Builder.{NodeDeclaration, TreeBuilder}
use xml_oxidator.Tree.Builder.Placed.{Shape, shape, IsUnder, IsPlaced, IsWellBuilt}
use xml_oxidator.Tree.Builder.Calls.{Reached, Reached-IsWellBuilt}
use xml_oxidator.Tree.Build.{make_node, finish_nodes, sort_children, check_declarations, build}
use xml_oxidator.Tree.Build.Kids.{Kids}
use xml_oxidator.Tree.Build.Closed.{finish_nodes-Passes}
use xml_oxidator.Tree.Build.Total.{parent-lt, make_node-Kept}
use xml_oxidator.Tree.Build.Distinct.{IsDistinct}
use xml_oxidator.Tree.Build.Accepts.{build-ok_iff}
use xml_oxidator.Tree.Build.Lookup.{search_child-sort_iff}
use xml_oxidator.Tree.Build.Linked.{kids, is_parent}
use xml_oxidator.Tree.Build.Children.{finish_nodes-children_sorted}
use xml_oxidator.Tree.Build.Members.{IsChild, IsIn-kids_iff, IsApart, kids-IsUnrepeated}
use xml_oxidator.Rule.{Rule}

as_u32-eq : (i : ℕ) → i < 2 ^ 32 → as_u32 i ≡ i
unfolding as_u32
as_u32-eq i h = omega arith

-- The parent that a node names is the one that its declaration names.
parent_of :
    (p i : ℕ) (o : Option ℕ)
    → i ≤ 2 ^ 32
    → Below i o
    → is_parent p (Option.map as_u32 o) ≡ true
    → o ≡ some p
parent_of p i none small below h = cc
parent_of p i (some q) small below h =
    let same : p ≡ as_u32 q = (==_iff p (as_u32 q)).0 h in
    ap some (sym (same ∙ as_u32-eq q (omega arith)))

-- Declarations under one parent with one tag have one path.
paths-agree :
    (cs : List Shape) (k l p : ℕ) (c d : Shape)
    → IsUnder cs k c.tag c.path (some p)
    → IsUnder cs l d.tag d.path (some p)
    → c.tag ≡ d.tag
    → c.path ≡ d.path
paths-agree cs k l p c d (_, a, at_a, path_c) (_, e, at_e, path_d) tags =
    let one : a ≡ e = some-injective _ _ (sym at_a ∙ at_e) in path_c ∙ rw (one, tags) (sym path_d)

module _ {R : Type 0} ⦃r : Rule R⦄ where
  abbrev Made : List (NodeDeclaration R) → ℕ → DescriptorNode R → Type 0
  Made ds k m =
      (d : NodeDeclaration R) × (get_elem? ds k ≡ some d)
      × (m.tag ≡ d.tag)
      × (m.parent_id ≡ Option.map as_u32 d.parent_index)
      × (m.children_sorted ≡ [])

  made :
      (ds : List (NodeDeclaration R)) (k : ℕ) (m : DescriptorNode R)
      → get_elem? (map make_node ds) k ≡ some m
      → Made ds k m
  unfolding make_node
  made ds k m e =
      let (d, at_k, same) = get_elem?-map_inv make_node ds k e in
      (
        d,
        at_k,
        ap (λ (z : DescriptorNode R). z.tag) (sym same),
        ap (λ (z : DescriptorNode R). z.parent_id) (sym same),
        ap (λ (z : DescriptorNode R). z.children_sorted) (sym same),
      )

  made-parent :
      (ds : List (NodeDeclaration R)) (placed : IsPlaced (map shape ds)) (p k : ℕ)
      (m : DescriptorNode R) (d : NodeDeclaration R)
      → length ds ≤ 2 ^ 32
      → get_elem? ds k ≡ some d
      → m.parent_id ≡ Option.map as_u32 d.parent_index
      → is_parent p m.parent_id ≡ true
      → d.parent_index ≡ some p
  made-parent ds placed p k m d small at_k from mine =
      parent_of p k d.parent_index (omega (arith, get_elem?-bound ds k at_k))
        (parent-lt ds placed k d at_k) (rw from at mine)

  made-IsApart :
      (ds : List (NodeDeclaration R)) (p : ℕ)
      → IsPlaced (map shape ds)
      → IsDistinct ds
      → length ds ≤ 2 ^ 32
      → IsApart p (map make_node ds)
  made-IsApart ds p placed distinct small k l m n at_k at_l mine own tags =
      let (d, here, tag_d, from_d, _) = made ds k m at_k in
      let (e, there, tag_e, from_e, _) = made ds l n at_l in
      let under_d =
        subst (IsUnder (map shape ds) k d.tag d.full_path)
          (made-parent ds placed p k m d small here from_d mine)
          (placed k (shape d) (get_elem?-map shape ds k here)) in
      let under_e =
        subst (IsUnder (map shape ds) l e.tag e.full_path)
          (made-parent ds placed p l n e small there from_e own)
          (placed l (shape e) (get_elem?-map shape ds l there)) in
      distinct k l d e here there (
        paths-agree (map shape ds) k l p (shape d) (shape e) under_d under_e
          (sym tag_d ∙ tags ∙ tag_e))

  build-nodes :
      (b : TreeBuilder R) (t : DescriptorTree R)
      → build b ≡ ok t
      → finish_nodes (map make_node b.declarations) ≡ some t.nodes
  unfolding build
  build-nodes b t e =
      let (_, rest, _) = >>=-eq-ok {A = Unit {0}} _ (check_declarations b.declarations) t e in
      elim (Option-cases (finish_nodes (map make_node b.declarations))) [
        | inl stuck ↦ absurd (ground arith)
        | inr (nodes, finished) ↦ finished ∙ ground arith
      ]

  -- The node at a place of the tree, and its children.
  node-children_sorted :
      (b : TreeBuilder R) (t : DescriptorTree R) (p : ℕ)
      → IsWellBuilt b
      → build b ≡ ok t
      → p < length b.declarations
      → (n : DescriptorNode R) × (get_elem? t.nodes p ≡ some n)
        × (n.children_sorted ≡ sort_children (kids p 0 (map make_node b.declarations)))
  node-children_sorted b t p h e inside =
      let start = make_node-Kept b.declarations h.placed in
      let (nodes, finished, kept) =
        finish_nodes-Passes (length b.declarations) (map make_node b.declarations) start in
      let same : nodes ≡ t.nodes = some-injective _ _ (sym finished ∙ build-nodes b t e) in
      let (n, here) = get_elem?-lt nodes p (omega (arith, kept.0)) in
      (
        n,
        subst (λ (l : List (DescriptorNode R)). get_elem? l p ≡ some n) same here,
        finish_nodes-children_sorted (map make_node b.declarations) nodes
            (λ q m at_q. let (_, _, _, _, blank) = made b.declarations q m at_q in blank) finished p
            n here,
      )

  -- The declaration at the place `id` is a child of the one at `p`, with the tag.
  abbrev pub IsDeclared : List (NodeDeclaration R) → ℕ → Str → NodeId → Type 0
  IsDeclared ds p name id =
      (d : NodeDeclaration R) × (get_elem? ds id ≡ some d)
      × (d.parent_index ≡ some p)
      × (d.tag ≡ name)

  IsChild-IsDeclared :
      (ds : List (NodeDeclaration R)) (p : ℕ) (name : Str) (id : NodeId)
      → IsPlaced (map shape ds)
      → length ds ≤ 2 ^ 32
      → IsChild p (name, id) 0 (map make_node ds)
      → IsDeclared ds p name id
  IsChild-IsDeclared ds p name id placed small (k, m, at_k, mine, tag, place) =
      let (d, here, tag_d, from, _) = made ds k m at_k in
      let number : k ≡ id =
        sym (as_u32-eq k (omega (arith, get_elem?-bound ds k here)))
        ∙ ap as_u32 (omega arith)
        ∙ place in
      (
        d,
        subst (λ j. get_elem? ds j ≡ some d) number here,
        made-parent ds placed p k m d small here from mine,
        sym tag_d ∙ tag,
      )

  IsDeclared-IsChild :
      (ds : List (NodeDeclaration R)) (p : ℕ) (name : Str) (id : NodeId)
      → p < length ds
      → length ds ≤ 2 ^ 32
      → IsDeclared ds p name id
      → IsChild p (name, id) 0 (map make_node ds)
  unfolding make_node
  IsDeclared-IsChild ds p name id inside small (d, here, under, tag) =
      let exact : p ≡ as_u32 p = sym (as_u32-eq p (omega arith)) in
      let mine : is_parent p (Option.map as_u32 d.parent_index) ≡ true =
        rw under ((==_iff p (as_u32 p)).1 exact) in
      (
        id,
        make_node d,
        get_elem?-map make_node ds id here,
        mine,
        tag,
        ap as_u32 (omega arith) ∙ as_u32-eq id (omega (arith, get_elem?-bound ds id here)),
      )

  -- In a tree that `build` returns, from a builder that calls have made, with at most 2^32
  -- declarations: a lookup by tag below a node returns a node exactly if that node is declared as a
  -- child of it with that tag.
  pub child_of-build_iff :
      (b : TreeBuilder R)
      → Reached b
      → (t : DescriptorTree R) → build b ≡ ok t
      → length b.declarations ≤ 2 ^ 32
      → (p : ℕ) → p < length b.declarations
      → (name : Str) (id : NodeId)
      → (child_of t p name ≡ some (some id)) ↔ IsDeclared b.declarations p name id
  unfolding child_of get
  child_of-build_iff b reached t e small p inside name id =
      let h = Reached-IsWellBuilt reached in
      let ds = b.declarations in
      let good = (build-ok_iff b reached).0 (t, e) in
      let (n, here, sorted) = node-children_sorted b t p h e inside in
      let search : child_of t p name
          ≡ search_child (sort_children (kids p 0 (map make_node ds))) name =
        rw (here, child_of) (ap (λ (c : Kids). search_child c name) sorted) in
      let (found, hit) = search_child-sort_iff (kids p 0 (map make_node ds)) name id (
        kids-IsUnrepeated p 0 (map make_node ds)
          (made-IsApart ds p h.placed good.distinct small)) in
      let (down, up) = IsIn-kids_iff p (name, id) 0 (map make_node ds) in
      (
        λ q. IsChild-IsDeclared ds p name id h.placed small (down (found (sym search ∙ q))),
        λ declared. search ∙ hit (up (IsDeclared-IsChild ds p name id inside small declared)),
      )
