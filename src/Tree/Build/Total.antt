-- ===== src/Tree/Build/Total.antt =====
-- `build` on a builder that calls have made: it does not panic, and its tree is closed.
use mathlib.Core.Option
use xml_oxidator.Prelude.{
  ℕ, zero, suc, ◌+◌, ◌≤◌, ◌≡◌, refl, sym, subst, List, [], ◌∷◌, map, Option, none, some, length,
  get_elem?, get_elem?-lt, get_elem?-map, get_elem?-map_inv, get_elem?-bound, length-map, is_empty,
  inl, inr, Bool-cases, Option-cases, ok, err, Returns-step, Returns-Safe, Safe, Safe-bind, arith,
}
use xml_oxidator.Errors.{BuilderError, nested_capture}
use xml_oxidator.Tree.Path.{PathSegment, as_u32, format_path}
use xml_oxidator.Tree.Descriptor.{DescriptorNode}
use xml_oxidator.Tree.Closed.{Below, IsClosed}
use xml_oxidator.Tree.Builder.{NodeDeclaration, TreeBuilder}
use xml_oxidator.Tree.Builder.Placed.{shape, IsPlaced, IsUnder, IsWellBuilt, current}
use xml_oxidator.Tree.Build.{
  captured_ancestor, find_nested, find_duplicate, find_incompatible, make_node, check_declarations,
  build,
}
use xml_oxidator.Tree.Build.Kids.{as_u32-le}
use xml_oxidator.Tree.Build.Closed.{NodeFits, NodesFit, Kept, finish_nodes-Passes, IsClosed-of_fit}
use xml_oxidator.Rule.{Rule}

module _ {R : Type 0} (all : List (NodeDeclaration R)) where
  -- The list that is left stands at place `i` of the whole.
  abbrev pub StandsAt : ℕ → List (NodeDeclaration R) → Type 0
  StandsAt i ds =
      (k : ℕ) (d : NodeDeclaration R) → get_elem? ds k ≡ some d → get_elem? all (i + k) ≡ some d

  pub StandsAt-start : StandsAt 0 all
  StandsAt-start k d e = subst (λ m. get_elem? all m ≡ some d) (omega arith) e

  pub StandsAt-head :
      (i : ℕ) (d : NodeDeclaration R) (ds : List (NodeDeclaration R))
      → StandsAt i (d ∷ ds)
      → get_elem? all i ≡ some d
  StandsAt-head i d ds h = subst (λ k. get_elem? all k ≡ some d) (omega arith) (h 0 d refl)

  pub StandsAt-tail :
      (i : ℕ) (d : NodeDeclaration R) (ds : List (NodeDeclaration R))
      → StandsAt i (d ∷ ds)
      → StandsAt (i + 1) ds
  StandsAt-tail i d ds h k e at_k =
      subst (λ m. get_elem? all m ≡ some e) (omega arith) (h (suc k) e at_k)

module _ {R : Type 0} (all : List (NodeDeclaration R)) (placed : IsPlaced (map shape all)) where
  -- A parent stands before its child, and is there.
  pub parent-lt :
      (i : ℕ) (d : NodeDeclaration R) → get_elem? all i ≡ some d → Below i d.parent_index
  parent-lt i d here =
      IsUnder-Below d.parent_index (placed i (shape d) (get_elem?-map shape all i here))
    where
      IsUnder-Below :
          (parent : Option ℕ) → IsUnder (map shape all) i d.tag d.full_path parent → Below i parent
      IsUnder-Below none h = tt
      IsUnder-Below (some p) h = h.0

  -- The walk ends: its fuel is the place of the declaration that it starts from.
  pub captured_ancestor-returns :
      (fuel : ℕ) (parent : Option ℕ)
      → Below fuel parent
      → fuel ≤ length all
      → (r : Option (List PathSegment)) × (captured_ancestor fuel all parent ≡ some r)
  unfolding captured_ancestor
  captured_ancestor-returns fuel none h l = (none, refl)
  captured_ancestor-returns zero (some p) h l = absurd (omega arith)
  captured_ancestor-returns (suc fuel) (some p) h l =
      let (d, here) = get_elem?-lt all p (omega arith) in
      elim (Bool-cases d.is_capture) [
        | inl captured ↦ (some d.full_path, rw (here, captured_ancestor) (rw captured))
        | inr streamed ↦
            let (r, walked) =
              captured_ancestor-returns fuel d.parent_index
                (lower p d.parent_index (parent-lt p d here) (omega arith)) (omega arith) in
            (r, rw (here, captured_ancestor) (rw streamed walked))
      ]
    where
      lower : (p : ℕ) (o : Option ℕ) → Below p o → p ≤ fuel → Below fuel o
      lower p none b k = tt
      lower p (some q) b k = omega arith

  pub find_nested-returns :
      (i : ℕ) (ds : List (NodeDeclaration R))
      → StandsAt all i ds
      → (r : Option (List PathSegment × List PathSegment)) × (find_nested i all ds ≡ some r)
  unfolding find_nested
  find_nested-returns i [] h = (none, refl)
  find_nested-returns i (d ∷ ds) h =
      let here = StandsAt-head all i d ds h in
      let (r, rest) = find_nested-returns (i + 1) ds (StandsAt-tail all i d ds h) in
      elim (Bool-cases d.is_capture) [
        | inr streamed ↦ (r, rw (streamed, find_nested) rest)
        | inl captured ↦
            let (found, walked) =
              captured_ancestor-returns i d.parent_index (parent-lt i d here)
                (omega (arith, get_elem?-bound all i here)) in
            elim (Option-cases found) [
              | inl alone ↦ (r, rw (captured, find_nested) (rw walked (rw alone rest)))
              | inr (outer, e) ↦
                  (some (d.full_path, outer), rw (captured, find_nested) (rw walked (rw e)))
            ]
      ]

  pub check_declarations-Safe :
      ⦃r : Rule R⦄ → Safe {E = BuilderError} (λ _. Unit) (check_declarations all)
  unfolding check_declarations
  check_declarations-Safe = elim (Bool-cases (is_empty all)) [
    | inl nothing ↦ rw (nothing, check_declarations) tt
    | inr some_there ↦ elim (Option-cases (find_duplicate [] all)) [
      | inr (path, e) ↦ rw (some_there, check_declarations) (rw e tt)
      | inl distinct ↦ elim (Option-cases (find_incompatible all)) [
        | inr (found, e) ↦ rw (some_there, check_declarations) (rw distinct (rw e tt))
        | inl compatible ↦
            let (found, e) = find_nested-returns 0 all (StandsAt-start all) in
            rw (some_there, check_declarations)
              (rw distinct (
                rw compatible (
                  rw e
                    (elim found
                      as (λ f.
                        Safe {E = BuilderError} (λ _. Unit)
                          (elim f [
                            | none ↦ ok tt
                            | some n ↦ err (nested_capture (format_path n.0) (format_path n.1))
                          ])) [ none ↦ tt | some nested ↦ tt ]))))
      ]
    ]
  ]

Below-as_u32 : (i m : ℕ) → i ≤ m → (o : Option ℕ) → Below i o → Below m (Option.map as_u32 o)
Below-as_u32 i m l none h = tt
Below-as_u32 i m l (some p) h = omega (arith, as_u32-le p)

module _ {R : Type 0} where
  NodesFit-of :
      (m : ℕ) (ns : List (DescriptorNode R))
      → ((i : ℕ) (n : DescriptorNode R) → get_elem? ns i ≡ some n → NodeFits m n)
      → NodesFit m ns
  NodesFit-of m [] h = tt
  NodesFit-of m (n ∷ ns) h = (h 0 n refl, NodesFit-of m ns (λ i. h (suc i)))

module _ {R : Type 0} ⦃r : Rule R⦄ where
  pub make_node-Kept :
      (ds : List (NodeDeclaration R))
      → IsPlaced (map shape ds)
      → Kept (length ds) (map make_node ds)
  unfolding make_node
  make_node-Kept ds placed = (
    length-map ds make_node,
    NodesFit-of (length ds) (map make_node ds) λ i n e.
        let (d, here, made) = get_elem?-map_inv make_node ds i e in
        subst (NodeFits (length ds)) made (
          tt,
          Below-as_u32 i (length ds) (omega (arith, get_elem?-bound ds i here)) d.parent_index
              (parent-lt ds placed i d here),
        ),
  )

  -- `build` on a well-built builder does not panic, and every lookup in the tree that it returns
  -- stays within the tree.
  pub build-Safe : (b : TreeBuilder R) → IsWellBuilt b → Safe IsClosed (build b)
  unfolding build
  build-Safe b h =
      Safe-bind (λ _. Unit) IsClosed _ _ (check_declarations-Safe b.declarations h.placed)
        λ _ _.
          let start = make_node-Kept b.declarations h.placed in
          let (nodes, finished, kept) =
            finish_nodes-Passes (length b.declarations) (map make_node b.declarations) start in
          let (idx, top, below) =
            current (length b.declarations) b.parent_stack h.opened h.some_open in
          Returns-Safe IsClosed _ (
            Returns-step IsClosed _ finished (
              IsClosed-of_fit _ (subst (λ m. Kept m nodes) (sym kept.0) kept)
                (omega (arith, kept.0))))
