-- ===== src/Tree/Build/Reports.antt =====
-- What each error of `build` says about the declarations.
use mathlib.Core.Option.{some-injective}
use xml_oxidator.Prelude.{
  ℕ, zero, suc, ◌<◌, ◌≡◌, refl, ◌∙◌, ap, subst, not, ◌&&◌, Bool, true, false, List, [], ◌∷◌, map,
  none, some, get_elem?, inl, inr, ◌⊎◌, Bool-cases, Option-cases, arith, err, >>=-eq-err,
}
use xml_oxidator.Errors.{
  BuilderError, no_root, orphan_node, incompatible_access_mode, duplicate_path, nested_capture,
}
use xml_oxidator.Tree.Path.{PathSegment, format_path}
use xml_oxidator.Tree.Needs.{is_capture}
use xml_oxidator.Tree.Builder.{NodeDeclaration, TreeBuilder}
use xml_oxidator.Tree.Build.{
  path_eq, seen_before, find_duplicate, incompatible_rule, find_incompatible, find_nested,
  check_declarations, build, make_node, finish_nodes,
}
use xml_oxidator.Tree.Build.Total.{StandsAt-start}
use xml_oxidator.Tree.Build.Distinct.{path_eq_sound}
use xml_oxidator.Tree.Build.Nested.{IsNested, find_nested-IsNested}
use xml_oxidator.Rule.{Rule}

seen-get :
    (seen : List (List PathSegment)) (p : List PathSegment)
    → seen_before seen p ≡ true
    → (k : ℕ) × (get_elem? seen k ≡ some p)
unfolding seen_before
seen-get [] p h = cc
seen-get (q ∷ seen) p h = elim (Bool-cases (path_eq q p)) [
  | inl same ↦ (0, ap some (path_eq_sound q p same))
  | inr other ↦ let (k, at_k) = seen-get seen p (ground arith) in (suc k, at_k)
]

module _ {R : Type 0} where
  abbrev Holds : List (NodeDeclaration R) → List PathSegment → ℕ → Type 0
  Holds ds path i = (d : NodeDeclaration R) × (get_elem? ds i ≡ some d) × (d.full_path ≡ path)

  -- Two places with the path.
  abbrev pub IsRepeated : List (NodeDeclaration R) → List PathSegment → Type 0
  IsRepeated ds path = (i : ℕ) × (j : ℕ) × (i < j) × Holds ds path i × Holds ds path j

  -- The path that is found was seen, or it occurs twice.
  find_duplicate-some :
      (seen : List (List PathSegment)) (ds : List (NodeDeclaration R)) {path : List PathSegment}
      → find_duplicate seen ds ≡ some path
      → ((k : ℕ) × (j : ℕ) × (get_elem? seen k ≡ some path) × Holds ds path j) ⊎ IsRepeated ds path
  unfolding find_duplicate
  find_duplicate-some seen [] h = cc
  find_duplicate-some seen (c ∷ ds) {path} h = elim (Bool-cases (seen_before seen c.full_path)) [
    | inl old ↦
        let same : c.full_path ≡ path = ground arith in
        let (k, at_k) = seen-get seen c.full_path old in
        inl (k, 0, at_k ∙ ap some same, (c, refl, same))
    | inr new_path ↦
        elim (find_duplicate-some (c.full_path ∷ seen) ds {path = path} (ground arith)) [
          | inr (i, j, lt, first, second) ↦ inr (suc i, suc j, omega arith, first, second)
          | inl (k, j, at_k, hold) ↦
              elim k
                  as (λ (k : ℕ).
                    get_elem? (c.full_path ∷ seen) k ≡ some path
                    → ((k : ℕ) × (j : ℕ) × (get_elem? seen k ≡ some path) × Holds (c ∷ ds) path j)
                      ⊎ IsRepeated (c ∷ ds) path) [
                        | zero ↦ λ first.
                            inr (0, suc j, omega arith, (c, refl, some-injective _ _ first), hold)
                        | suc m ↦ λ later. inl (m, suc j, later, hold)
                      ]
                at_k
        ]
  ]

  find_duplicate-IsRepeated :
      (ds : List (NodeDeclaration R)) {path : List PathSegment}
      → find_duplicate [] ds ≡ some path
      → IsRepeated ds path
  find_duplicate-IsRepeated ds h = elim (find_duplicate-some [] ds h) [
    | inl (k, _, at_k, _) ↦ absurd cc
    | inr twice ↦ twice
  ]

module _ {R : Type 0} ⦃r : Rule R⦄ where
  -- The rule is one of the list, it needs a capture, and there is none.
  abbrev Misplaced : Bool → List R → R → Type 0
  Misplaced captures rules x =
      (captures ≡ false) × (k : ℕ) × (get_elem? rules k ≡ some x) × (is_capture (r.needs x) ≡ true)

  incompatible_rule-some :
      (captures : Bool) (rules : List R) {x : R}
      → incompatible_rule captures rules ≡ some x
      → Misplaced captures rules x
  unfolding incompatible_rule
  incompatible_rule-some captures [] h = cc
  incompatible_rule-some captures (y ∷ rules) {x} h =
      elim (Bool-cases (is_capture (r.needs y) && not captures)) [
        | inl bad ↦
            let same : y ≡ x = ground arith in
            (
              ground arith,
              0,
              ap some same,
              subst (λ z. is_capture (r.needs z) ≡ true) same (ground arith),
            )
        | inr fine ↦
            let (off, k, at_k, wants) = incompatible_rule-some captures rules (ground arith) in
            (off, suc k, at_k, wants)
      ]

  abbrev pub IsMisplaced : List (NodeDeclaration R) → List PathSegment × R → Type 0
  IsMisplaced ds found =
      (i : ℕ) × (d : NodeDeclaration R) × (get_elem? ds i ≡ some d)
      × (d.full_path ≡ found.0)
      × Misplaced d.is_capture d.rules found.1

  find_incompatible-IsMisplaced :
      (ds : List (NodeDeclaration R)) (found : List PathSegment × R)
      → find_incompatible ds ≡ some found
      → IsMisplaced ds found
  unfolding find_incompatible
  find_incompatible-IsMisplaced [] found h = cc
  find_incompatible-IsMisplaced (d ∷ ds) found h =
      elim (Option-cases (incompatible_rule d.is_capture d.rules)) [
        | inl fine ↦
            let (i, e, at_i, same, rest) = find_incompatible-IsMisplaced ds found (ground arith) in
            (suc i, e, at_i, same, rest)
        | inr (x, bad) ↦
            subst (IsMisplaced (d ∷ ds)) (ground arith)
              (0, d, refl, refl, incompatible_rule-some d.is_capture d.rules bad)
      ]

  -- What an error says.
  abbrev pub Reports : List (NodeDeclaration R) → BuilderError → Type 0
  Reports ds no_root = ds ≡ []
  Reports ds (orphan_node path parent) = ⊥
  Reports ds (duplicate_path s) =
      (path : List PathSegment) × (s ≡ format_path path) × IsRepeated ds path
  Reports ds (incompatible_access_mode s name) =
      (found : List PathSegment × R) × (s ≡ format_path found.0)
      × (name ≡ r.name found.1)
      × IsMisplaced ds found
  Reports ds (nested_capture inner outer) =
      (found : List PathSegment × List PathSegment) × (inner ≡ format_path found.0)
      × (outer ≡ format_path found.1)
      × IsNested ds found

  check_declarations-Reports :
      (ds : List (NodeDeclaration R)) {e : BuilderError}
      → check_declarations ds ≡ err e
      → Reports ds e
  unfolding check_declarations
  check_declarations-Reports [] {e} h = let same : no_root ≡ e = cc in subst (Reports []) same refl
  check_declarations-Reports (d ∷ ds) {e} h = elim (Option-cases (find_duplicate [] (d ∷ ds))) [
    | inr (path, twice) ↦
        let named : duplicate_path (format_path path) ≡ e = ground arith in
        subst (Reports (d ∷ ds)) named (path, refl, find_duplicate-IsRepeated (d ∷ ds) twice)
    | inl distinct ↦ elim (Option-cases (find_incompatible (d ∷ ds))) [
      | inr (found, bad) ↦
          let named : incompatible_access_mode (format_path found.0) (r.name found.1) ≡ e =
            ground arith in
          subst (Reports (d ∷ ds)) named
            (found, refl, refl, find_incompatible-IsMisplaced (d ∷ ds) found bad)
      | inl compatible ↦ elim (Option-cases (find_nested 0 (d ∷ ds) (d ∷ ds))) [
        | inl stuck ↦ absurd (ground arith)
        | inr (none, flat) ↦ absurd (ground arith)
        | inr (some found, nested) ↦
            let named : nested_capture (format_path found.0) (format_path found.1) ≡ e =
              ground arith in
            subst (Reports (d ∷ ds)) named (
              found,
              refl,
              refl,
              find_nested-IsNested (d ∷ ds) 0 (d ∷ ds) (StandsAt-start (d ∷ ds)) nested,
            )
      ]
    ]
  ]

  -- An error of `build` is true of the declarations: the path it names occurs twice; the rule it
  -- names stands at the node it names, needs a capture and has none; or the inner node it names is
  -- captured below the outer one, which is captured. `OrphanNode` is never returned, and `NoRoot`
  -- only when nothing is declared.
  pub build-Reports :
      (b : TreeBuilder R) (e : BuilderError) → build b ≡ err e → Reports b.declarations e
  unfolding build
  build-Reports b e h = elim (>>=-eq-err _ (check_declarations b.declarations) e h) [
    | inr bad ↦ check_declarations-Reports b.declarations bad
    | inl (_, after_checks, _) ↦ elim (Option-cases (finish_nodes (map make_node b.declarations))) [
      | inl stuck ↦ absurd (ground arith)
      | inr (nodes, finished) ↦ absurd (ground arith)
    ]
  ]
