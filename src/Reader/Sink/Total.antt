-- ===== src/Reader/Sink/Total.antt =====
-- Rules that panic on no access that answers are evaluated without a panic
-- (src/reader/parser.rs).
use xml_oxidator.Prelude.{ℕ, ◌+◌, ◌≡◌, refl, List, [], ◌∷◌, some, is_empty}
use xml_oxidator.Rule.{NodeAccess, Rule}
use xml_oxidator.View.Answers.{Answers, AllBehave}
use xml_oxidator.View.Results.{RuleResults, set}
use xml_oxidator.Reader.Sink.{Sink, buffer_all, evaluate_rules}

module _ {R : Type 0} ⦃rule : Rule R⦄ (view : NodeAccess) (answers : Answers view) where
  pub evaluate_rules-some :
      (rules : List R) (i : ℕ) (k : Sink) (results : RuleResults)
      → AllBehave rules
      → (out : Sink × RuleResults) × (evaluate_rules rules i view k results ≡ some out)
  unfolding evaluate_rules
  evaluate_rules-some [] i k results h = ((k, results), refl)
  evaluate_rules-some (r ∷ rest) i k results h =
      let (ds, told) = h.0 view answers in
      let (out, run) =
        evaluate_rules-some rest (i + 1) (buffer_all ds k) (set results i (is_empty ds)) h.1 in
      (out, rw (told, evaluate_rules) run)
