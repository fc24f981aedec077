-- ===== src/Tree/Build/Distinct.antt =====
-- The checks of `build` on paths and on rules, against what they mean.
use mathlib.Core.Option.{some-injective}
use xml_oxidator.Prelude.{
  ℕ, zero, suc, ◌≡◌, ◌≢◌, ◌↔◌, refl, ap, sym, ◌∙◌, Bool, true, false, List, [], ◌∷◌, none, some,
  get_elem?, inl, inr, Bool-cases, arith, subst,
}
use xml_oxidator.Text.{str_eq_sound, str_eq_refl}
use xml_oxidator.Tree.Path.{PathSegment}
use xml_oxidator.Tree.Needs.{is_capture}
use xml_oxidator.Tree.Builder.{NodeDeclaration}
use xml_oxidator.Tree.Build.{
  path_eq, seen_before, find_duplicate, incompatible_rule, find_incompatible,
}
use xml_oxidator.Rule.{Rule}

pub path_eq_sound : (p q : List PathSegment) → path_eq p q ≡ true → p ≡ q
unfolding path_eq
path_eq_sound [] [] h = refl
path_eq_sound [] (t ∷ q) h = cc
path_eq_sound (s ∷ p) [] h = cc
path_eq_sound (s ∷ p) (t ∷ q) h = ground (arith, str_eq_sound s t, path_eq_sound p q)

path_eq_refl : (p : List PathSegment) → path_eq p p ≡ true
unfolding path_eq
path_eq_refl [] = refl
path_eq_refl (s ∷ p) = rw (str_eq_refl s, path_eq_refl p)

seen-tail :
    (q : List PathSegment) (seen : List (List PathSegment)) (p : List PathSegment)
    → seen_before (q ∷ seen) p ≡ false
    → (path_eq q p ≡ false) × (seen_before seen p ≡ false)
unfolding seen_before
seen-tail q seen p h = ground arith

module _ {R : Type 0} where
  -- Two declarations with one path are one declaration.
  abbrev pub IsDistinct : List (NodeDeclaration R) → Type 0
  IsDistinct ds =
      (i j : ℕ) (d e : NodeDeclaration R)
      → get_elem? ds i ≡ some d
      → get_elem? ds j ≡ some e
      → d.full_path ≡ e.full_path
      → i ≡ j

  -- No declaration has a path that was seen.
  abbrev IsFresh : List (List PathSegment) → List (NodeDeclaration R) → Type 0
  IsFresh seen ds =
      (i : ℕ) (d : NodeDeclaration R)
      → get_elem? ds i ≡ some d
      → seen_before seen d.full_path ≡ false

  -- What it means that the check passes the first declaration.
  find_duplicate-step :
      (seen : List (List PathSegment)) (c : NodeDeclaration R) (ds : List (NodeDeclaration R))
      → find_duplicate seen (c ∷ ds) ≡ none
      → (seen_before seen c.full_path ≡ false) × (find_duplicate (c.full_path ∷ seen) ds ≡ none)
  unfolding find_duplicate
  find_duplicate-step seen c ds h = ground arith

  find_duplicate-IsFresh :
      (seen : List (List PathSegment)) (ds : List (NodeDeclaration R))
      → find_duplicate seen ds ≡ none
      → IsFresh seen ds
  find_duplicate-IsFresh seen [] h i d e = cc
  find_duplicate-IsFresh seen (c ∷ ds) h zero d e =
      subst (λ (x : NodeDeclaration R). seen_before seen x.full_path ≡ false) (some-injective _ _ e)
        (find_duplicate-step seen c ds h).0
  find_duplicate-IsFresh seen (c ∷ ds) h (suc i) d e =
      (seen-tail c.full_path seen d.full_path (
        find_duplicate-IsFresh (c.full_path ∷ seen) ds (find_duplicate-step seen c ds h).1 i d e)).1

  -- A later declaration has another path than the first one.
  later-ne :
      (seen : List (List PathSegment)) (c : NodeDeclaration R) (ds : List (NodeDeclaration R))
      → find_duplicate seen (c ∷ ds) ≡ none
      → (i : ℕ) (d e : NodeDeclaration R) → some c ≡ some d
      → get_elem? ds i ≡ some e
      → d.full_path ≢ e.full_path
  later-ne seen c ds h i d e first at_i same =
      let apart =
        (seen-tail c.full_path seen e.full_path (
          find_duplicate-IsFresh (c.full_path ∷ seen) ds (find_duplicate-step seen c ds h).1 i e
            at_i)).0 in
      let equal : c.full_path ≡ e.full_path =
        ap (λ (x : NodeDeclaration R). x.full_path) (some-injective _ _ first) ∙ same in
      let hit : path_eq c.full_path e.full_path ≡ true =
        subst (λ p. path_eq c.full_path p ≡ true) equal (path_eq_refl c.full_path) in
      absurd cc

  find_duplicate-IsDistinct :
      (seen : List (List PathSegment)) (ds : List (NodeDeclaration R))
      → find_duplicate seen ds ≡ none
      → IsDistinct ds
  find_duplicate-IsDistinct seen [] h i j d e at_i at_j same = cc
  find_duplicate-IsDistinct seen (c ∷ ds) h zero zero d e at_i at_j same = refl
  find_duplicate-IsDistinct seen (c ∷ ds) h zero (suc j) d e at_i at_j same =
      absurd (later-ne seen c ds h j d e at_i at_j same)
  find_duplicate-IsDistinct seen (c ∷ ds) h (suc i) zero d e at_i at_j same =
      absurd (later-ne seen c ds h i e d at_j at_i (sym same))
  find_duplicate-IsDistinct seen (c ∷ ds) h (suc i) (suc j) d e at_i at_j same = ap suc (
      find_duplicate-IsDistinct (c.full_path ∷ seen) ds (find_duplicate-step seen c ds h).1 i j d e
        at_i at_j same)

  IsDistinct-find_duplicate :
      (seen : List (List PathSegment)) (ds : List (NodeDeclaration R))
      → IsFresh seen ds
      → IsDistinct ds
      → find_duplicate seen ds ≡ none
  unfolding find_duplicate seen_before
  IsDistinct-find_duplicate seen [] fresh h = refl
  IsDistinct-find_duplicate seen (c ∷ ds) fresh h =
      rw (fresh 0 c refl, find_duplicate)
        (IsDistinct-find_duplicate (c.full_path ∷ seen) ds
          (λ i d at_i. elim (Bool-cases (path_eq c.full_path d.full_path)) [
            | inl same ↦ absurd (omega (arith, h 0 (suc i) c d refl at_i (path_eq_sound _ _ same)))
            | inr other ↦ rw (other, seen_before) (fresh (suc i) d at_i)
          ])
          λ i j d e at_i at_j same. omega (arith, h (suc i) (suc j) d e at_i at_j same))

  -- The check finds nothing exactly when the paths are distinct.
  pub find_duplicate-none_iff :
      (ds : List (NodeDeclaration R)) → (find_duplicate [] ds ≡ none) ↔ IsDistinct ds
  unfolding seen_before
  find_duplicate-none_iff ds =
      (find_duplicate-IsDistinct [] ds, IsDistinct-find_duplicate [] ds (λ i d e. refl))

module _ {R : Type 0} ⦃r : Rule R⦄ where
  -- A rule that needs a capture stands at a node that makes one.
  abbrev pub IsCompatible : Bool → List R → Type 0
  IsCompatible captures rules =
      (k : ℕ) (x : R) → get_elem? rules k ≡ some x → is_capture (r.needs x) ≡ true → captures ≡ true

  incompatible_rule-none :
      (captures : Bool) (rules : List R)
      → incompatible_rule captures rules ≡ none
      → IsCompatible captures rules
  unfolding incompatible_rule
  incompatible_rule-none captures [] h k x e wants = cc
  incompatible_rule-none captures (y ∷ rules) h zero x e wants =
      let same = some-injective _ _ e in ground arith
  incompatible_rule-none captures (y ∷ rules) h (suc k) x e wants =
      incompatible_rule-none captures rules (ground arith) k x e wants

  none-incompatible_rule :
      (captures : Bool) (rules : List R)
      → IsCompatible captures rules
      → incompatible_rule captures rules ≡ none
  unfolding incompatible_rule
  none-incompatible_rule captures [] h = refl
  none-incompatible_rule captures (y ∷ rules) h =
      let rest = none-incompatible_rule captures rules (λ k. h (suc k)) in
      ground (arith, h 0 y refl)

  abbrev pub AllCompatible : List (NodeDeclaration R) → Type 0
  AllCompatible ds =
      (i : ℕ) (d : NodeDeclaration R) → get_elem? ds i ≡ some d → IsCompatible d.is_capture d.rules

  find_incompatible-step :
      (d : NodeDeclaration R) (ds : List (NodeDeclaration R))
      → find_incompatible (d ∷ ds) ≡ none
      → (incompatible_rule d.is_capture d.rules ≡ none) × (find_incompatible ds ≡ none)
  unfolding find_incompatible
  find_incompatible-step d ds h = ground arith

  find_incompatible-none :
      (ds : List (NodeDeclaration R)) → find_incompatible ds ≡ none → AllCompatible ds
  find_incompatible-none [] h i d e = cc
  find_incompatible-none (c ∷ ds) h zero d e =
      subst (λ (x : NodeDeclaration R). IsCompatible x.is_capture x.rules) (some-injective _ _ e)
        (incompatible_rule-none c.is_capture c.rules (find_incompatible-step c ds h).0)
  find_incompatible-none (c ∷ ds) h (suc i) d e =
      find_incompatible-none ds (find_incompatible-step c ds h).1 i d e

  none-find_incompatible :
      (ds : List (NodeDeclaration R)) → AllCompatible ds → find_incompatible ds ≡ none
  unfolding find_incompatible
  none-find_incompatible [] h = refl
  none-find_incompatible (c ∷ ds) h =
      rw (none-incompatible_rule c.is_capture c.rules (h 0 c refl), find_incompatible)
        (none-find_incompatible ds (λ i. h (suc i)))

  -- The check finds nothing exactly when every rule has the capture that it needs.
  pub find_incompatible-none_iff :
      (ds : List (NodeDeclaration R)) → (find_incompatible ds ≡ none) ↔ AllCompatible ds
  find_incompatible-none_iff ds = (find_incompatible-none ds, none-find_incompatible ds)
