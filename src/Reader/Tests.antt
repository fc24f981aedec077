-- ===== src/Reader/Tests.antt =====
-- A run of the parser, and its theorems at concrete inputs.
use xml_oxidator.Prelude.{
  ℕ, ◌%◌, ◌≡◌, ◌≢◌, ◌↔◌, true, List, get_elem?, refl, add_usize, inr, [], ◌∷◌, ◌++◌, some, none,
  is_empty, ok, err, panic, Safe, Returns, arith, subst,
}
use xml_oxidator.Text.{Str, str, str_eq}
use xml_oxidator.Text.Utf8.{from_utf8}
use xml_oxidator.Reader.Start.{descriptor_for}
use xml_oxidator.Errors.{ReaderError, BuilderError, capture_overflow}
use xml_oxidator.Rule.{NodeAccess, DynRule, dyn_rule}
use xml_oxidator.Samples.{has_text, finished, finished-Reached, sample_tree, build-finished}
use xml_oxidator.Tree.Descriptor.{root_id, get}
use xml_oxidator.Tree.Closed.{IsClosed}
use xml_oxidator.Tree.Build.Total.{build-Safe}
use xml_oxidator.Tree.Builder.Calls.{Reached-IsWellBuilt}
use xml_oxidator.View.Results.{RuleResults, no_results, set}
use xml_oxidator.View.Results
use xml_oxidator.Reader.Context.{acquire, fresh, release, empty_pool, acquire-eq-fresh}
use xml_oxidator.Reader.Events.{BytesStart, start, close, text, empty}
use xml_oxidator.Reader.State.{ParserState, init}
use xml_oxidator.Reader.End.{handle_end}
use xml_oxidator.Reader.Loop.{Input, handle_event, event_loop, parse_file}
use xml_oxidator.Reader.Loop.Empty.{event_loop-empty}
use xml_oxidator.Reader.Loop.Skip.{done, flat_text, element, undeclared_element-skipped}
use xml_oxidator.Diagnostic.{Diagnostic, error}
use xml_oxidator.View.Answers.{RulesBehave}
use xml_oxidator.Reader.Sink.{Sink, evaluate_rules, buffer_all, buffer_diagnostic}
use xml_oxidator.Reader.Sink.Order.{Matches, reports, evaluate_rules-reported}
use xml_oxidator.Reader.Sink.Recorded.{evaluate_rules-get, evaluate_rules-get_iff}
use xml_oxidator.Reader.Capture.{element_size, attrs_size, CaptureBuilder, new, finalize}
use xml_oxidator.Reader.Capture.Replay.{
  Element, element, nothing, chunk, child, cost, tree_of, play,
}
use xml_oxidator.Reader.Capture.Roundtrip.{play-finalize}
use xml_oxidator.Reader.Capture.Overflow.{play-new-overflow}
use xml_oxidator.Reader.Consistent.{IsConsistent, init-IsConsistent}
use xml_oxidator.Reader.Consistent.Loop.{handle_event-Safe}
use xml_oxidator.Reader.Consistent.End.{handle_end-Returns}
use xml_oxidator.Reader.Consistent.Built.{parse_file-build}

abbrev open_tag : Str → BytesStart Str
open_tag name = record { name = name; attributes = [] }

-- <r><i>x</i><x>y</x><i/></r>
abbrev document : Input Str
document =
    inr (start (open_tag (str "r")))
    ∷ inr (start (open_tag (str "i")))
    ∷ inr (text (inr (str "x")))
    ∷ inr close
    ∷ inr (start (open_tag (str "x")))
    ∷ inr (text (inr (str "y")))
    ∷ inr close
    ∷ inr (empty (open_tag (str "i")))
    ∷ inr close
    ∷ []

sample-behaves : RulesBehave sample_tree
sample-behaves = (tt, (((λ node answers. (_, refl)), tt), tt))

parse_file-build_example : (parse_file {I = Str} sample_tree document).0 ≢ panic
parse_file-build_example =
    parse_file-build Str Str finished finished-Reached sample_tree build-finished sample-behaves
      document (omega arith)

sample-closed : IsClosed sample_tree
sample-closed =
    subst (Safe {E = BuilderError} IsClosed) build-finished
      (build-Safe finished (Reached-IsWellBuilt finished-Reached))

handle_event-Safe_example :
    Safe {E = ReaderError Str Str}
      (IsConsistent sample_tree 1)
      (handle_event sample_tree (start (open_tag (str "r"))) init)
handle_event-Safe_example =
    handle_event-Safe Str Str sample_tree sample-closed sample-behaves 0
      (start (open_tag (str "r"))) init (omega arith) (init-IsConsistent sample_tree)

-- The root is open, and an item in it.
abbrev inside : ParserState
inside = record init {
  context_stack = fresh 1 [] 0 ∷ fresh 0 [] 0 ∷ [];
  descriptor_stack = some 1 ∷ some 0 ∷ [];
  sibling_counters = [] ∷ [] ∷ [];
}

inside-IsConsistent : IsConsistent sample_tree 2 inside
inside-IsConsistent = record {
  in_step = refl;
  counted = refl;
  fit = (omega arith, (omega arith, tt));
  skips = omega arith;
  mode_fits = tt;
  no_spare_attrs = refl;
}

handle_end-Returns_example :
    Returns {E = ReaderError Str Str} (IsConsistent sample_tree 2) (handle_end sample_tree inside)
handle_end-Returns_example =
    handle_end-Returns Str Str sample_tree sample-behaves 2 inside (omega arith) inside-IsConsistent

utf8-x : from_utf8 (str "x") ≡ inr (str "x")
unfolding from_utf8
utf8-x = refl

undeclared-x : descriptor_for sample_tree [] (str "x") ≡ some none
unfolding descriptor_for str_eq root_id get
undeclared-x = refl

undeclared_element-skipped_example :
    event_loop {I = Str} sample_tree
      (inr (start (open_tag (str "x"))) ∷ (inr (text (inr (str "y"))) ∷ []) ++ inr close ∷ document)
      init
    ≡ event_loop sample_tree document init
undeclared_element-skipped_example =
    undeclared_element-skipped Str Str sample_tree (open_tag (str "x")) (str "x")
      (inr (text (inr (str "y"))) ∷ []) document init refl refl utf8-x undeclared-x
      (flat_text (inr (str "y")) [] done) (omega arith)

abbrev item : Element
item =
    element (str "i") ((str "k", str "v") ∷ [])
      (chunk (str "x") (child (element (str "b") [] nothing) (chunk (str "y") nothing)))

cost-item : cost item ≡ 262
unfolding cost element_size attrs_size add_usize
cost-item = refl

play-finalize_example :
    (b : CaptureBuilder) × (play {X = Str} {I = Str} item (new 1000 (str "r/i")) ≡ ok b)
    × (finalize b ≡ some (tree_of item))
    × (b.memory_usage ≡ cost item)
play-finalize_example =
    play-finalize Str Str 1000 (str "r/i") (omega arith) item (omega (arith, cost-item))

play-new-overflow_example :
    play {X = Str} {I = Str} item (new 200 (str "r/i")) ≡ err (capture_overflow (str "r/i") 200)
play-new-overflow_example =
    play-new-overflow Str Str 200 (str "r/i") (omega arith) item (omega (arith, cost-item))
      (omega (arith, cost-item))

abbrev view : NodeAccess
view = record {
  tag = str "i";
  attr = λ name. none;
  for_each_attr = [];
  text = [];
  element_index = 0;
  path = str "r" ∷ str "i" ∷ [];
  children_summaries = [];
  subtree = none;
  depth = 1;
  ancestor_attr = λ level name. none;
  ancestor_text = λ level. none;
  ancestor_children = λ level. none;
}

abbrev quiet : Sink
quiet = record { diag_buffer = []; sent = [] }

evaluate_rules-reported_example :
    Matches quiet
      (reports (has_text ∷ []) view)
      (evaluate_rules (has_text ∷ []) 0 view quiet no_results)
evaluate_rules-reported_example =
    evaluate_rules-reported (has_text ∷ []) 0 view quiet no_results (omega arith)

-- What the rule reports of the view, and that it has not passed.
abbrev no_text : Diagnostic
no_text = record {
  rule_name = str "has-text";
  message = str "no text";
  element_path = str "r" ∷ str "i" ∷ [];
  element_index = 0;
  severity = error;
}

abbrev told : Sink × RuleResults
told = (record { diag_buffer = no_text ∷ []; sent = [] }, no_results)

evaluate_rules_runs : evaluate_rules (has_text ∷ []) 0 view quiet no_results ≡ some told
unfolding evaluate_rules buffer_all buffer_diagnostic set
evaluate_rules_runs = refl

evaluate_rules-get_example :
    (ds : List Diagnostic) × (dyn_rule.evaluate has_text view ≡ some ds)
    × (Results.get told.1 0 ≡ is_empty ds)
evaluate_rules-get_example =
    evaluate_rules-get view (has_text ∷ []) quiet told (omega arith) evaluate_rules_runs 0 has_text
      refl

evaluate_rules-get_iff_example : (Results.get told.1 3 ≡ true) ↔ (
    (m : ℕ) × (r : DynRule) × (get_elem? (has_text ∷ []) m ≡ some r)
    × (m % 64 ≡ 3)
    × (dyn_rule.evaluate r view ≡ some []))
evaluate_rules-get_iff_example =
    evaluate_rules-get_iff view (has_text ∷ []) quiet told 3 (omega arith) evaluate_rules_runs

acquire-eq-fresh_example :
    (acquire (release empty_pool (fresh 3 ((str "k", str "v") ∷ []) 1)) 1 [] 0).0 ≡ fresh 1 [] 0
acquire-eq-fresh_example =
    acquire-eq-fresh (release empty_pool (fresh 3 ((str "k", str "v") ∷ []) 1)) 1 [] 0

event_loop-empty_example :
    event_loop {I = Str} sample_tree (inr (empty (open_tag (str "i"))) ∷ document) inside
    ≡ event_loop sample_tree (inr (start (open_tag (str "i"))) ∷ inr close ∷ document) inside
event_loop-empty_example = event_loop-empty Str Str sample_tree (open_tag (str "i")) document inside
