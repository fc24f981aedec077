-- ===== src/Tree/Build/Nested.antt =====
-- The check of `build` on nested captures, against the chain of ancestors.
use mathlib.Core.Option.{some-injective}
use xml_oxidator.Prelude.{
  ℕ, zero, suc, ◌+◌, ◌≡◌, ◌↔◌, sym, ◌∙◌, ◌⊎◌, ap, subst, true, false, List, [], ◌∷◌, map, Option,
  none, some, get_elem?, inl, inr, Bool-cases, Option-cases, arith,
}
use xml_oxidator.Tree.Path.{PathSegment}
use xml_oxidator.Tree.Builder.{NodeDeclaration}
use xml_oxidator.Tree.Builder.Placed.{shape, IsPlaced}
use xml_oxidator.Tree.Build.{captured_ancestor, find_nested}
use xml_oxidator.Tree.Build.Total.{
  StandsAt, StandsAt-start, StandsAt-head, StandsAt-tail, find_nested-returns,
}

module _ {R : Type 0} (all : List (NodeDeclaration R)) where
  -- The declarations on the way up from a parent index.
  pub data Ancestor : Option ℕ → NodeDeclaration R → Type 0 where
    here : (p : ℕ) (d : NodeDeclaration R) → get_elem? all p ≡ some d → Ancestor (some p) d
    above :
        (p : ℕ) (d e : NodeDeclaration R)
        → get_elem? all p ≡ some d
        → Ancestor d.parent_index e
        → Ancestor (some p) e

  -- A step of the walk that comes to an end.
  captured_ancestor-step :
      (fuel p : ℕ) {r : Option (List PathSegment)}
      → captured_ancestor (suc fuel) all (some p) ≡ some r
      → (d : NodeDeclaration R) × (get_elem? all p ≡ some d)
        × (((d.is_capture ≡ true) × (r ≡ some d.full_path))
            ⊎ ((d.is_capture ≡ false) × (captured_ancestor fuel all d.parent_index ≡ some r)))
  unfolding captured_ancestor
  captured_ancestor-step fuel p h = elim (Option-cases (get_elem? all p)) [
    | inl missing ↦ absurd cc
    | inr (d, at_p) ↦ elim (Bool-cases d.is_capture) [
      | inl captured ↦ (d, at_p, inl (captured, ground arith))
      | inr streamed ↦ (d, at_p, inr (streamed, ground arith))
    ]
  ]

  -- The first captured one is an ancestor.
  captured_ancestor-Ancestor :
      (fuel : ℕ) (parent : Option ℕ) {path : List PathSegment}
      → captured_ancestor fuel all parent ≡ some (some path)
      → (e : NodeDeclaration R) × Ancestor parent e × (e.is_capture ≡ true) × (e.full_path ≡ path)
  unfolding captured_ancestor
  captured_ancestor-Ancestor fuel none h = cc
  captured_ancestor-Ancestor zero (some p) h = cc
  captured_ancestor-Ancestor (suc fuel) (some p) h =
      let (d, at_p, found) = captured_ancestor-step fuel p h in
      elim found [
        | inl (captured, e) ↦ (d, here p d at_p, captured, sym (some-injective _ _ e))
        | inr (streamed, walked) ↦
            let (e, up, captured, same) = captured_ancestor-Ancestor fuel d.parent_index walked in
            (e, above p d e at_p up, captured, same)
      ]

  -- If none is found, no ancestor is captured.
  captured_ancestor-none :
      (fuel : ℕ) (parent : Option ℕ)
      → captured_ancestor fuel all parent ≡ some none
      → (e : NodeDeclaration R) → Ancestor parent e
      → e.is_capture ≡ false
  unfolding captured_ancestor
  captured_ancestor-none zero _ h _ (here p d at_p) = cc
  captured_ancestor-none zero _ h _ (above p d e at_p up) = cc
  captured_ancestor-none (suc fuel) _ h _ (here p d at_p) =
      let (c, at_c, found) = captured_ancestor-step fuel p h in
      elim found [
        | inl (captured, e) ↦ absurd cc
        | inr (streamed, walked) ↦
            subst (λ (x : NodeDeclaration R). x.is_capture ≡ false)
              (some-injective _ _ (sym at_c ∙ at_p)) streamed
      ]
  captured_ancestor-none (suc fuel) _ h _ (above p d e at_p up) =
      let (c, at_c, found) = captured_ancestor-step fuel p h in
      elim found [
        | inl (captured, e) ↦ absurd cc
        | inr (streamed, walked) ↦
            let same : c ≡ d = some-injective _ _ (sym at_c ∙ at_p) in
            captured_ancestor-none fuel d.parent_index
              (subst
                (λ (x : NodeDeclaration R). captured_ancestor fuel all x.parent_index ≡ some none)
                same walked)
              e up
      ]

  -- No captured declaration has a captured ancestor.
  abbrev pub IsFlat : Type 0
  IsFlat =
      (i : ℕ) (d e : NodeDeclaration R)
      → get_elem? all i ≡ some d
      → d.is_capture ≡ true
      → Ancestor d.parent_index e
      → e.is_capture ≡ false

  -- What is found: a captured declaration and a captured ancestor of it, by their paths.
  abbrev pub IsNested : List PathSegment × List PathSegment → Type 0
  IsNested paths =
      (i : ℕ) × (d : NodeDeclaration R) × (e : NodeDeclaration R) × (get_elem? all i ≡ some d)
      × (d.is_capture ≡ true)
      × Ancestor d.parent_index e
      × (e.is_capture ≡ true)
      × (paths ≡ (d.full_path, e.full_path))

  -- A step of the check that comes to an end: the declaration is passed over, or it is the answer.
  find_nested-step :
      (i : ℕ) (d : NodeDeclaration R) (ds : List (NodeDeclaration R))
      {r : Option (List PathSegment × List PathSegment)}
      → find_nested i all (d ∷ ds) ≡ some r
      → ((find_nested (i + 1) all ds ≡ some r)
          × (d.is_capture ≡ true → captured_ancestor i all d.parent_index ≡ some none))
        ⊎ ((d.is_capture ≡ true)
            × (outer : List PathSegment) × (captured_ancestor i all d.parent_index
                ≡ some (some outer))
            × (r ≡ some (d.full_path, outer)))
  unfolding find_nested
  find_nested-step i d ds h = elim (Bool-cases d.is_capture) [
    | inr streamed ↦ inl (ground arith, λ captured. absurd cc)
    | inl captured ↦ elim (Option-cases (captured_ancestor i all d.parent_index)) [
      | inl stuck ↦ absurd cc
      | inr (walked, e) ↦ elim (Option-cases walked) [
        | inl alone ↦ inl (ground arith, λ _. e ∙ ap some alone)
        | inr (outer, same) ↦ inr (captured, outer, e ∙ ap some same, ground arith)
      ]
    ]
  ]

  pub find_nested-IsNested :
      (i : ℕ) (ds : List (NodeDeclaration R)) {found : List PathSegment × List PathSegment}
      → StandsAt all i ds
      → find_nested i all ds ≡ some (some found)
      → IsNested found
  unfolding find_nested
  find_nested-IsNested i [] stands h = cc
  find_nested-IsNested i (d ∷ ds) stands h = elim (find_nested-step i d ds h) [
    | inl (rest, _) ↦ find_nested-IsNested (i + 1) ds (StandsAt-tail all i d ds stands) rest
    | inr (captured, outer, walked, e) ↦
        let (anc, up, caught, same) = captured_ancestor-Ancestor i d.parent_index walked in
        (
          i,
          d,
          anc,
          StandsAt-head all i d ds stands,
          captured,
          up,
          caught,
          some-injective _ _ e ∙ ap (λ (p : List PathSegment). (d.full_path, p)) (sym same),
        )
  ]

  find_nested-none :
      (i : ℕ) (ds : List (NodeDeclaration R))
      → find_nested i all ds ≡ some none
      → (k : ℕ) (d e : NodeDeclaration R) → get_elem? ds k ≡ some d
      → d.is_capture ≡ true
      → Ancestor d.parent_index e
      → e.is_capture ≡ false
  find_nested-none i [] h k d e at_k captured up = cc
  find_nested-none i (c ∷ ds) h k d e at_k captured up = elim (find_nested-step i c ds h) [
    | inr (_, outer, _, impossible) ↦ absurd cc
    | inl (rest, walk) ↦
        elim k as (λ k. get_elem? (c ∷ ds) k ≡ some d → e.is_capture ≡ false) [
          | zero ↦ λ first.
              let same : d ≡ c = some-injective _ _ (sym first) in
              captured_ancestor-none i d.parent_index
                (subst
                  (λ (x : NodeDeclaration R). captured_ancestor i all x.parent_index ≡ some none)
                  (sym same)
                  (walk (subst (λ (x : NodeDeclaration R). x.is_capture ≡ true) same captured)))
                e up
          | suc j ↦ λ later. find_nested-none (i + 1) ds rest j d e later captured up
        ]
          at_k
  ]

  -- The check finds nothing exactly when no captured declaration has a captured ancestor.
  pub find_nested-none_iff : IsPlaced (map shape all) → (find_nested 0 all all ≡ some none) ↔ IsFlat
  find_nested-none_iff placed = (
    find_nested-none 0 all,
    λ flat.
        let (r, e) = find_nested-returns all placed 0 all (StandsAt-start all) in
        elim (Option-cases r) [
          | inl nothing ↦ e ∙ ap some nothing
          | inr (found, hit) ↦
              let (i, d, anc, at_i, captured, up, caught, _) =
                find_nested-IsNested 0 all (StandsAt-start all) (e ∙ ap some hit) in
              let streamed = flat i d anc at_i captured up in absurd cc
        ],
  )
