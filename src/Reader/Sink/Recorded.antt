-- ===== src/Reader/Sink/Recorded.antt =====
-- What evaluating the rules of an element records (src/reader/parser.rs, src/view.rs).
use mathlib.Core.Option.{some-injective}
use xml_oxidator.Prelude.{
  ℕ, zero, suc, ◌+◌, ◌≤◌, ◌<◌, ◌≡◌, refl, sym, ◌∙◌, ap, ◌||◌, Bool, false, List, [], ◌∷◌, some,
  length, get_elem?, get_elem?-bound, is_empty, arith, ◌%◌, ◌↔◌, true, inl, inr, ◌⊎◌, ◌&&◌, ◌==◌,
  ==_iff,
}
use xml_oxidator.Diagnostic.{Diagnostic}
use xml_oxidator.View.Results.{RuleResults, no_results, set, get, get-set, get-set_wrapped}
use xml_oxidator.Rule.{NodeAccess, Rule}
use xml_oxidator.Reader.Sink.{Sink, evaluate_rules}
use xml_oxidator.Reader.Sink.Order.{evaluate_rules-cons}

is_empty-nil : (ds : List Diagnostic) → is_empty ds ≡ true → ds ≡ []
is_empty-nil [] e = refl
is_empty-nil (d ∷ ds) e = cc

-- A result that is read after a write was there before or has been written.
set-only :
    (r : RuleResults) (i j : ℕ) (passed : Bool)
    → j < 64
    → get (set r i passed) j ≡ true
    → (get r j ≡ true) ⊎ ((passed ≡ true) × (i % 64 ≡ j))
set-only r i j passed h is =
    let written : (get r j || (passed && i % 64 == j)) ≡ true =
      sym (get-set_wrapped r i j passed h) ∙ is in
    ground arith

module _ {R : Type 0} ⦃rule : Rule R⦄ (view : NodeAccess) where
  -- The results before place `i` are left as they were.
  evaluate_rules-before :
      (rules : List R) (i : ℕ) (k : Sink) (results : RuleResults) (out : Sink × RuleResults) (j : ℕ)
      → j < i
      → i + length rules ≤ 64
      → evaluate_rules rules i view k results ≡ some out
      → get out.1 j ≡ get results j
  unfolding evaluate_rules
  evaluate_rules-before [] i k results out j h l e =
      ap (λ (z : Sink × RuleResults). get z.1 j) (sym (some-injective _ _ e))
  evaluate_rules-before (r ∷ rest) i k results out j h l e =
      let (ds, _, e') = evaluate_rules-cons r rest i view k results out e in
      evaluate_rules-before rest (i + 1) _ _ out j (omega arith) (omega arith) e'
      ∙ get-set results i j (is_empty ds) (omega arith) (omega arith)
      ∙ ground arith

  evaluate_rules-at :
      (rules : List R) (i : ℕ) (k : Sink) (results : RuleResults) (out : Sink × RuleResults)
      → i + length rules ≤ 64
      → evaluate_rules rules i view k results ≡ some out
      → (j place : ℕ) (r : R) → get_elem? rules j ≡ some r
      → place ≡ i + j
      → (ds : List Diagnostic) × (rule.evaluate r view ≡ some ds)
        × (get out.1 place ≡ (get results place || is_empty ds))
  evaluate_rules-at [] i k results out l run j place r e p = cc
  evaluate_rules-at (q ∷ rest) i k results out l run zero place r e p =
      let (ds, told, run') = evaluate_rules-cons q rest i view k results out run in
      let same = ap (λ (z : R). rule.evaluate z view) (some-injective _ _ e) in
      (
        ds,
        sym same ∙ told,
        evaluate_rules-before rest (i + 1) _ _ out place (omega arith) (omega arith) run'
            ∙ get-set results i place (is_empty ds) (omega arith) (omega arith)
            ∙ ground arith,
      )
  evaluate_rules-at (q ∷ rest) i k results out l run (suc j) place r e p =
      let (before, _, run') = evaluate_rules-cons q rest i view k results out run in
      let bound = get_elem?-bound rest j e in
      let (ds, told, recorded) =
        evaluate_rules-at rest (i + 1) _ _ out (omega arith) run' j place r e (omega arith) in
      let kept = get-set results i place (is_empty before) (omega arith) (omega arith) in
      (ds, told, recorded ∙ ground arith)

  -- Of up to 64 rules each has its own result, if the evaluation does not panic: it passed exactly
  -- when it reported nothing.
  pub evaluate_rules-get :
      (rules : List R) (k : Sink) (out : Sink × RuleResults)
      → length rules ≤ 64
      → evaluate_rules rules 0 view k no_results ≡ some out
      → (j : ℕ) (r : R) → get_elem? rules j ≡ some r
      → (ds : List Diagnostic) × (rule.evaluate r view ≡ some ds) × (get out.1 j ≡ is_empty ds)
  evaluate_rules-get rules k out l run j r e =
      let blank : get no_results j ≡ false = unfold get in ground arith in
      let (ds, told, recorded) =
        evaluate_rules-at rules 0 k no_results out (omega arith) run j j r e (omega arith) in
      (ds, told, recorded ∙ rw blank)

  -- Rule number `m` of those from `i` on reported nothing and is recorded at place `j`.
  abbrev PassedAt : List R → ℕ → ℕ → Type 0
  PassedAt rules i j =
      (m : ℕ) × (r : R) × (get_elem? rules m ≡ some r)
      × ((i + m) % 64 ≡ j)
      × (rule.evaluate r view ≡ some [])

  evaluate_rules-kept :
      (rules : List R) (i : ℕ) (k : Sink) (results : RuleResults) (out : Sink × RuleResults) (j : ℕ)
      → j < 64
      → evaluate_rules rules i view k results ≡ some out
      → (get results j ≡ true) ⊎ PassedAt rules i j
      → get out.1 j ≡ true
  unfolding evaluate_rules
  evaluate_rules-kept [] i k results out j h e (inl was) =
      ap (λ (z : Sink × RuleResults). get z.1 j) (sym (some-injective _ _ e)) ∙ was
  evaluate_rules-kept [] i k results out j h e (inr (m, r, there, place, passed)) = cc
  evaluate_rules-kept (q ∷ rest) i k results out j h e (inl was) =
      let (ds, _, e') = evaluate_rules-cons q rest i view k results out e in
      let written = get-set_wrapped results i j (is_empty ds) h in
      evaluate_rules-kept rest (i + 1) _ _ out j h e' (inl (ground arith))
  evaluate_rules-kept (q ∷ rest) i k results out j h e (inr (zero, r, there, place, passed)) =
      let (ds, told, e') = evaluate_rules-cons q rest i view k results out e in
      let same = ap (λ (z : R). rule.evaluate z view) (some-injective _ _ there) in
      let nothing : ds ≡ [] = some-injective _ _ (sym told ∙ same ∙ passed) in
      let here : (i % 64 == j) ≡ true = (==_iff _ _).1 (omega arith) in
      let written = get-set_wrapped results i j (is_empty ds) h in
      let now : get (set results i (is_empty ds)) j ≡ true =
        written ∙ rw (nothing, here) (ground arith) in
      evaluate_rules-kept rest (i + 1) _ _ out j h e' (inl now)
  evaluate_rules-kept (q ∷ rest) i k results out j h e (inr (suc m, r, there, place, passed)) =
      let (ds, _, e') = evaluate_rules-cons q rest i view k results out e in
      evaluate_rules-kept rest (i + 1) _ _ out j h e' (inr (m, r, there, omega arith, passed))

  later : (q : R) (rest : List R) (i j : ℕ) → PassedAt rest (i + 1) j → PassedAt (q ∷ rest) i j
  later q rest i j (m, r, there, place, passed) = (suc m, r, there, omega arith, passed)

  evaluate_rules-only :
      (rules : List R) (i : ℕ) (k : Sink) (results : RuleResults) (out : Sink × RuleResults) (j : ℕ)
      → j < 64
      → evaluate_rules rules i view k results ≡ some out
      → get out.1 j ≡ true
      → (get results j ≡ true) ⊎ PassedAt rules i j
  unfolding evaluate_rules
  evaluate_rules-only [] i k results out j h e is =
      inl (ap (λ (z : Sink × RuleResults). get z.1 j) (some-injective _ _ e) ∙ is)
  evaluate_rules-only (q ∷ rest) i k results out j h e is =
      let (ds, told, e') = evaluate_rules-cons q rest i view k results out e in
      elim (evaluate_rules-only rest (i + 1) _ _ out j h e' is) [
        | inr found ↦ inr (later q rest i j found)
        | inl now ↦ elim (set-only results i j (is_empty ds) h now) [
          | inl was ↦ inl was
          | inr (passed, place) ↦
              inr (zero, q, refl, omega arith, told ∙ ap some (is_empty-nil ds passed))
        ]
      ]

  -- Any number of rules, evaluated without a panic: place `j` of the results, below 64, says that a
  -- rule has passed exactly when one of the rules whose numbers are `j` modulo 64 reported nothing.
  pub evaluate_rules-get_iff :
      (rules : List R) (k : Sink) (out : Sink × RuleResults) (j : ℕ)
      → j < 64
      → evaluate_rules rules 0 view k no_results ≡ some out
      → (get out.1 j ≡ true) ↔ (
          (m : ℕ) × (r : R) × (get_elem? rules m ≡ some r)
          × (m % 64 ≡ j)
          × (rule.evaluate r view ≡ some []))
  evaluate_rules-get_iff rules k out j h e = (
    λ is. elim (evaluate_rules-only rules 0 k no_results out j h e is) [
      | inl was ↦ unfold get in absurd (ground arith)
      | inr (m, r, there, place, passed) ↦ (m, r, there, omega arith, passed)
    ],
    λ (m, r, there, place, passed).
        evaluate_rules-kept rules 0 k no_results out j h e (inr (m, r, there, omega arith, passed)),
  )
