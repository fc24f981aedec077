-- ===== src/Reader/Sink/Order.antt =====
-- What evaluating the rules of an element reports and records.
use xml_oxidator.Prelude.{
  ℕ, ◌+◌, ◌<◌, ◌≡◌, refl, sym, ◌∙◌, List, [], ◌∷◌, ◌++◌, append_assoc, append-nil, Option, none,
  some, length, is_empty, leb, inl, inr, Bool-cases, arith,
}
use xml_oxidator.Diagnostic.{Diagnostic}
use xml_oxidator.View.Results.{RuleResults, set}
use xml_oxidator.Rule.{NodeAccess, Rule}
use xml_oxidator.Reader.Sink.{
  Sink, diag_buffer_default, flush_diagnostics, buffer_diagnostic, buffer_all, evaluate_rules,
}

-- All that has been reported: what was sent, then what is buffered.
abbrev pub reported : Sink → List Diagnostic
reported k = k.sent ++ k.diag_buffer

-- The buffer is sent before it is full.
abbrev pub HasRoom : Sink → Type 0
HasRoom k = length k.diag_buffer < diag_buffer_default

buffer_diagnostic-reported :
    (d : Diagnostic) (k : Sink) → reported (buffer_diagnostic d k) ≡ reported k ++ d ∷ []
unfolding buffer_diagnostic flush_diagnostics
buffer_diagnostic-reported d k =
    elim (Bool-cases (leb diag_buffer_default (length (k.diag_buffer ++ d ∷ [])))) [
      | inl full ↦ rw full (append-nil _ ∙ sym (append_assoc k.sent k.diag_buffer (d ∷ [])))
      | inr room ↦ rw room (sym (append_assoc k.sent k.diag_buffer (d ∷ [])))
    ]

buffer_diagnostic-HasRoom : (d : Diagnostic) (k : Sink) → HasRoom (buffer_diagnostic d k)
unfolding buffer_diagnostic flush_diagnostics
buffer_diagnostic-HasRoom d k =
    elim (Bool-cases (leb diag_buffer_default (length (k.diag_buffer ++ d ∷ [])))) [
      | inl full ↦ rw full (omega arith)
      | inr room ↦ rw room (ground arith)
    ]

buffer_all-reported :
    (ds : List Diagnostic) (k : Sink) → reported (buffer_all ds k) ≡ reported k ++ ds
unfolding buffer_all
buffer_all-reported [] k = sym (append-nil _)
buffer_all-reported (d ∷ ds) k =
    buffer_all-reported ds (buffer_diagnostic d k)
    ∙ rw (buffer_diagnostic-reported d k) (append_assoc (reported k) (d ∷ []) ds)

buffer_all-HasRoom : (ds : List Diagnostic) (k : Sink) → HasRoom k → HasRoom (buffer_all ds k)
unfolding buffer_all
buffer_all-HasRoom [] k h = h
buffer_all-HasRoom (d ∷ ds) k h =
    buffer_all-HasRoom ds (buffer_diagnostic d k) (buffer_diagnostic-HasRoom d k)

-- Reports, and those of the rules after; `none` if a rule panics.
abbrev pub followed : Option (List Diagnostic) → Option (List Diagnostic) → Option (List Diagnostic)
followed none more = none
followed (some ds) none = none
followed (some ds) (some more) = some (ds ++ more)

-- Evaluating rules from a sink comes to a panic where their reports do, and else to a sink with room
-- to which exactly the reports have been added.
abbrev pub Matches : Sink → Option (List Diagnostic) → Option (Sink × RuleResults) → Type 0
Matches k none none = Unit
Matches k (some ds) (some out) = (reported out.0 ≡ reported k ++ ds) × HasRoom out.0
Matches k none (some out) = ⊥
Matches k (some ds) none = ⊥

Matches-followed :
    (k next : Sink) (ds : List Diagnostic) (more : Option (List Diagnostic))
    (out : Option (Sink × RuleResults))
    → reported next ≡ reported k ++ ds
    → Matches next more out
    → Matches k (followed (some ds) more) out
Matches-followed k next ds none none e h = h
Matches-followed k next ds none (some out) e h = h
Matches-followed k next ds (some more) none e h = h
Matches-followed k next ds (some more) (some out) e h =
    (h.0 ∙ rw e (append_assoc (reported k) ds more), h.1)

Matches-chain :
    (k : Sink) (o more : Option (List Diagnostic))
    (f : List Diagnostic → Option (Sink × RuleResults))
    → ((ds : List Diagnostic) → Matches k (followed (some ds) more) (f ds))
    → Matches k (followed o more) (elim o [ none ↦ none | some ds ↦ f ds ])
Matches-chain k none more f h = tt
Matches-chain k (some ds) more f h = h ds

module _ {A B : Type 0} where
  -- A chain of two computations that gave a value.
  some-chain :
      (o : Option A) (f : A → Option B) (out : B)
      → elim o [ none ↦ none | some a ↦ f a ] ≡ some out
      → (a : A) × (o ≡ some a) × (f a ≡ some out)
  some-chain none f out e = cc
  some-chain (some a) f out e = (a, refl, e)

module _ {R : Type 0} ⦃rule : Rule R⦄ where
  -- What the rules report of an element, rule by rule.
  abbrev pub reports : List R → NodeAccess → Option (List Diagnostic)
  reports [] view = some []
  reports (r ∷ rest) view = followed (rule.evaluate r view) (reports rest view)

  -- Evaluating rules with a buffer that is not full: it panics exactly if one of the rules does. Else
  -- what has been sent and buffered grows by exactly what the rules report, in their order, and the
  -- buffer is not full afterwards.
  pub evaluate_rules-reported :
      (rules : List R) (i : ℕ) (view : NodeAccess) (k : Sink) (results : RuleResults)
      → HasRoom k
      → Matches k (reports rules view) (evaluate_rules rules i view k results)
  unfolding evaluate_rules
  evaluate_rules-reported [] i view k results h = (sym (append-nil _), h)
  evaluate_rules-reported (r ∷ rest) i view k results h =
      Matches-chain k (rule.evaluate r view) (reports rest view) _ λ ds.
        Matches-followed k (buffer_all ds k) ds (reports rest view) _ (buffer_all-reported ds k) (
          evaluate_rules-reported rest (i + 1) view (buffer_all ds k) (set results i (is_empty ds))
            (buffer_all-HasRoom ds k h))

  -- The first of some rules, in an evaluation that does not panic.
  pub evaluate_rules-cons :
      (r : R) (rest : List R) (i : ℕ) (view : NodeAccess) (k : Sink) (results : RuleResults)
      (out : Sink × RuleResults)
      → evaluate_rules (r ∷ rest) i view k results ≡ some out
      → (ds : List Diagnostic) × (rule.evaluate r view ≡ some ds)
        × (evaluate_rules rest (i + 1) view (buffer_all ds k) (set results i (is_empty ds))
            ≡ some out)
  unfolding evaluate_rules
  evaluate_rules-cons r rest i view k results out e = some-chain (rule.evaluate r view) _ out e
