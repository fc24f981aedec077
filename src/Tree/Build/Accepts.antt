-- ===== src/Tree/Build/Accepts.antt =====
-- What `build` accepts, and what each of its errors says.
use xml_oxidator.Prelude.{
  ◌<◌, ◌≡◌, ◌≢◌, ◌↔◌, refl, List, [], ◌∷◌, map, none, some, length, inl, inr, Option-cases, arith,
  ok, panic, >>=-eq-ok, Safe-ne-panic,
}
use xml_oxidator.Tree.Descriptor.{DescriptorTree}
use xml_oxidator.Tree.Builder.{NodeDeclaration, TreeBuilder}
use xml_oxidator.Tree.Builder.Placed.{shape, IsPlaced, IsWellBuilt, current}
use xml_oxidator.Tree.Closed.{IsClosed}
use xml_oxidator.Tree.Builder.Calls.{Reached, Reached-IsWellBuilt}
use xml_oxidator.Tree.Build.{
  find_duplicate, find_incompatible, find_nested, check_declarations, build, make_node,
  finish_nodes,
}
use xml_oxidator.Tree.Build.Total.{build-Safe}
use xml_oxidator.Tree.Build.Distinct.{
  IsDistinct, find_duplicate-none_iff, AllCompatible, find_incompatible-none_iff,
}
use xml_oxidator.Tree.Build.Nested.{IsFlat, find_nested-none_iff}
use xml_oxidator.Rule.{Rule}

module _ {R : Type 0} ⦃r : Rule R⦄ where
  -- What the checks ask of the declarations.
  pub record IsAcceptable (ds : List (NodeDeclaration R)) : Type 0 where
    pub distinct : IsDistinct ds
    pub compatible : AllCompatible ds
    pub flat : IsFlat ds

  check_declarations-none :
      (ds : List (NodeDeclaration R)) {u : Unit {0}}
      → check_declarations ds ≡ ok u
      → (find_duplicate [] ds ≡ none)
        × (find_incompatible ds ≡ none)
        × (find_nested 0 ds ds ≡ some none)
  unfolding check_declarations
  check_declarations-none ds h = ground arith

  none-check_declarations :
      (d : NodeDeclaration R) (ds : List (NodeDeclaration R))
      → find_duplicate [] (d ∷ ds) ≡ none
      → find_incompatible (d ∷ ds) ≡ none
      → find_nested 0 (d ∷ ds) (d ∷ ds) ≡ some none
      → check_declarations (d ∷ ds) ≡ ok tt
  unfolding check_declarations
  none-check_declarations d ds a b c = rw (a, check_declarations) (rw (b) (rw c refl))

  build-IsAcceptable :
      (b : TreeBuilder R)
      → IsWellBuilt b
      → (t : DescriptorTree R) → build b ≡ ok t
      → IsAcceptable b.declarations
  unfolding build
  build-IsAcceptable b h t e =
      let (u, _, passed) = >>=-eq-ok _ _ _ e in
      let (one, two, three) = check_declarations-none b.declarations passed in
      record {
        distinct = (find_duplicate-none_iff b.declarations).0 one;
        compatible = (find_incompatible-none_iff b.declarations).0 two;
        flat = (find_nested-none_iff b.declarations h.placed).0 three;
      }

  -- Acceptable declarations pass the checks.
  check_declarations-IsAcceptable :
      (ds : List (NodeDeclaration R))
      → IsPlaced (map shape ds)
      → 0 < length ds
      → IsAcceptable ds
      → check_declarations ds ≡ ok tt
  check_declarations-IsAcceptable [] placed some_there h = absurd (omega arith)
  check_declarations-IsAcceptable (d ∷ ds) placed some_there h =
      none-check_declarations d ds ((find_duplicate-none_iff (d ∷ ds)).1 h.distinct)
        ((find_incompatible-none_iff (d ∷ ds)).1 h.compatible)
        ((find_nested-none_iff (d ∷ ds) placed).1 h.flat)

  -- A build that passes its checks and does not panic returns a tree.
  build-passed :
      (b : TreeBuilder R)
      → check_declarations b.declarations ≡ ok tt
      → build b ≢ panic
      → (t : DescriptorTree R) × (build b ≡ ok t)
  unfolding build
  build-passed b passed total = elim (Option-cases (finish_nodes (map make_node b.declarations))) [
    | inl stuck ↦ absurd (total (rw (passed, build) (rw stuck)))
    | inr (nodes, finished) ↦ (
      record { nodes = nodes; root = some 0; capture_memory_limit = b.capture_memory_limit },
      rw (passed, build) (rw finished),
    )
  ]

  -- On a builder that calls have made, `build` returns a tree exactly when no two declarations
  -- share a path, every rule that needs a capture stands at a captured node, and no captured node
  -- has a captured ancestor.
  pub build-ok_iff :
      (b : TreeBuilder R)
      → Reached b
      → ((t : DescriptorTree R) × (build b ≡ ok t)) ↔ IsAcceptable b.declarations
  build-ok_iff b reached =
      let h = Reached-IsWellBuilt reached in
      let (idx, top, below) = current (length b.declarations) b.parent_stack h.opened h.some_open in
      (
        λ (t, e). build-IsAcceptable b h t e,
        λ good.
            build-passed b
              (check_declarations-IsAcceptable b.declarations h.placed (omega arith) good)
              (Safe-ne-panic IsClosed (build b) (build-Safe b h)),
      )
