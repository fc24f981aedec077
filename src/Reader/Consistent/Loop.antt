-- ===== src/Reader/Consistent/Loop.antt =====
-- Every event keeps the invariant, so that the loop of `parse_file` and `parse_slice` never panics.
use xml_oxidator.Prelude.{
  ℕ, suc, ◌+◌, ◌<◌, ◌≢◌, List, [], ◌∷◌, arith, length, word, Outcome, ok, err, panic, Safe,
  Safe-bind, Returns-Safe, inl, inr,
}
use xml_oxidator.Errors.{ReaderError}
use xml_oxidator.Diagnostic.{Diagnostic}
use xml_oxidator.Tree.Descriptor.{DescriptorTree}
use xml_oxidator.Rule.{Rule}
use xml_oxidator.Reader.Events.{Event, start, close, text, empty, other}
use xml_oxidator.Reader.State.{ParserState, init}
use xml_oxidator.Reader.End.{handle_end}
use xml_oxidator.Reader.Loop.{Input, handle_event, event_loop, resume, Verdict, parse_file}
use xml_oxidator.View.Answers.{RulesBehave}
use xml_oxidator.Tree.Closed.{IsClosed}
use xml_oxidator.Reader.Consistent.{IsConsistent, skip-IsConsistent, init-IsConsistent}
use xml_oxidator.Reader.Consistent.Start.{handle_start-Safe}
use xml_oxidator.Reader.Consistent.Text.{handle_text-Safe}
use xml_oxidator.Reader.Consistent.End.{handle_end-Returns}

Safe-mono :
    {E A : Type 0} (P Q : A → Type 0) (m : Outcome E A)
    → ((a : A) → P a → Q a)
    → Safe P m
    → Safe Q m
Safe-mono P Q (ok a) f h = f a h
Safe-mono P Q (err e) f h = tt
Safe-mono P Q panic f h = h

module _ (X I : Type 0) {R : Type 0} ⦃rule : Rule R⦄ (t : DescriptorTree R) (closed : IsClosed t)
    (behave : RulesBehave t) where
  more : (n : ℕ) (s : ParserState) → IsConsistent t n s → IsConsistent t (suc n) s
  more n s inv =
      skip-IsConsistent t n (suc n) s.skip_depth s (omega arith) (omega (arith, inv.skips)) inv

  handle_end-Safe :
      (n : ℕ) (s : ParserState)
      → n < word
      → IsConsistent t n s
      → Safe {E = ReaderError X I} (IsConsistent t n) (handle_end t s)
  handle_end-Safe n s room inv =
      Returns-Safe (IsConsistent t n) (handle_end {I = I} t s)
        (handle_end-Returns X I t behave n s room inv)

  -- Over a tree whose lookups stay within it and whose rules panic on no access that answers: from a
  -- state that is consistent after at most `n` opening tags, where `n + 1` is below 2^64, an event
  -- either leaves a state that is consistent after `n + 1` or is refused with an error: it never
  -- panics.
  pub handle_event-Safe :
      (n : ℕ) (e : Event X) (s : ParserState)
      → suc n < word
      → IsConsistent t n s
      → Safe {E = ReaderError X I} (IsConsistent t (suc n)) (handle_event t e s)
  unfolding handle_event
  handle_event-Safe n (start tag) s room inv = handle_start-Safe X I t closed n room tag s inv
  handle_event-Safe n close s room inv =
      Safe-mono (IsConsistent t n) _ _ (more n) (handle_end-Safe n s (omega arith) inv)
  handle_event-Safe n (text decode) s room inv =
      Safe-mono (IsConsistent t n) _ _ (more n) (handle_text-Safe X I t n decode s inv)
  handle_event-Safe n (empty tag) s room inv =
      Safe-bind _ _ _ _ (handle_start-Safe X I t closed n room tag s inv)
        λ s' inv'. handle_end-Safe (suc n) s' room inv'
  handle_event-Safe n other s room inv = more n s inv

  resume-ne-panic :
      (P : ParserState → Type 0) (m : Outcome (ReaderError X I) ParserState)
      (k : ParserState → Verdict X I) (sent : List Diagnostic)
      → Safe P m
      → ((s : ParserState) → P s → (k s).0 ≢ panic)
      → (resume m k sent).0 ≢ panic
  resume-ne-panic P (ok s) k sent h f = f s h
  resume-ne-panic P (err e) k sent h f = λ q. cc
  resume-ne-panic P panic k sent h f = absurd h

  -- From a consistent state, no input makes the loop panic.
  pub event_loop-ne-panic :
      (n : ℕ) (input : Input X) (s : ParserState)
      → n + length input < word
      → IsConsistent t n s
      → (event_loop {I = I} t input s).0 ≢ panic
  unfolding event_loop
  event_loop-ne-panic n [] s room inv = λ q. cc
  event_loop-ne-panic n (inl x ∷ rest) s room inv = λ q. cc
  event_loop-ne-panic n (inr e ∷ rest) s room inv =
      resume-ne-panic (IsConsistent t (suc n)) (handle_event t e s) (event_loop t rest) s.sink.sent
        (handle_event-Safe n e s (omega arith) inv)
        λ s' inv'. event_loop-ne-panic (suc n) rest s' (omega arith) inv'

  -- `parse_file` returns or fails with an error, whatever events the reader gives.
  pub parse_file-ne-panic :
      (input : Input X) → length input < word → (parse_file {I = I} t input).0 ≢ panic
  unfolding parse_file
  parse_file-ne-panic input room =
      event_loop-ne-panic 0 input init (omega arith) (init-IsConsistent t)
