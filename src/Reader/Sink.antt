-- ===== src/Reader/Sink.antt =====
-- src/reader/parser.rs, the diagnostics buffer and the evaluation of an element's rules. `sent` is
-- what has been sent on the channel, in order; the result of a send is ignored.
pub mod Order
pub mod Recorded
pub mod Total
use xml_oxidator.Prelude.{
  ℕ, ◌+◌, List, [], ◌∷◌, ◌++◌, Option, none, some, is_empty, length, leb, if◌then◌else◌,
}
use xml_oxidator.Diagnostic.{Diagnostic}
use xml_oxidator.View.Results.{RuleResults, set}
use xml_oxidator.Rule.{NodeAccess, Rule}

pub record Sink : Type 0 where
  pub diag_buffer : List Diagnostic
  pub sent : List Diagnostic

abbrev pub diag_buffer_default : ℕ
diag_buffer_default = 256

unfoldable pub flush_diagnostics : Sink → Sink
flush_diagnostics k = record { diag_buffer = []; sent = k.sent ++ k.diag_buffer }

unfoldable pub buffer_diagnostic : Diagnostic → Sink → Sink
unfolding flush_diagnostics
buffer_diagnostic d k =
    let k' = record k { diag_buffer = k.diag_buffer ++ d ∷ [] } in
    if leb diag_buffer_default (length k'.diag_buffer) then flush_diagnostics k' else k'

-- for diag in diags { buffer_diagnostic(..., diag) }
unfoldable pub buffer_all : List Diagnostic → Sink → Sink
unfolding buffer_diagnostic
buffer_all [] k = k
buffer_all (d ∷ ds) k = buffer_all ds (buffer_diagnostic d k)

-- The loop over `descriptor.rules.iter().enumerate()`, from rule number `i` on; `none` if a rule
-- panics.
module _ {R : Type 0} ⦃rule : Rule R⦄ where
  unfoldable pub evaluate_rules :
      List R → ℕ → NodeAccess → Sink → RuleResults → Option (Sink × RuleResults)
  unfolding buffer_all set
  evaluate_rules [] i view k results = some (k, results)
  evaluate_rules (r ∷ rest) i view k results = elim (rule.evaluate r view) [
    | none ↦ none
    | some diags ↦
        evaluate_rules rest (i + 1) view (buffer_all diags k) (set results i (is_empty diags))
  ]
