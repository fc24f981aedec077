-- ===== src/Reader/Loop/Tests.antt =====
-- The theorems on captured elements at concrete elements.
use xml_oxidator.Prelude.{◌+◌, ◌≤◌, ◌<◌, ◌≡◌, add_usize, refl, [], ◌∷◌, some, inr, arith, word}
use xml_oxidator.Text.{Str, str}
use xml_oxidator.Text.Utf8.{from_utf8}
use xml_oxidator.Rule.{DynRule, dyn_rule}
use xml_oxidator.Samples.{has_text, sample_tree}
use xml_oxidator.Tree.Needs.{is_capture}
use xml_oxidator.Tree.Search.{binary_search_by}
use xml_oxidator.Text.Order.{cmp}
use xml_oxidator.Tree.Descriptor.{DescriptorNode, get, child_of, search_child}
use xml_oxidator.Reader.Context.{fresh}
use xml_oxidator.Reader.Siblings.{sibling_index, sibling_counter_get_or_insert, hash_tag}
use xml_oxidator.Reader.Events.{close}
use xml_oxidator.Reader.State.{ParserState, init}
use xml_oxidator.Reader.Start.{descriptor_for}
use xml_oxidator.Reader.Capture.{build_node, nil, CaptureBuilder, new, element_size, attrs_size}
use xml_oxidator.Reader.Capture.Replay.{
  Element, element, Contents, nothing, chunk, child, cost, tree_of, play,
}
use xml_oxidator.Reader.Loop.{Input, event_loop}
use xml_oxidator.Reader.Loop.Captured.{
  Decodes, ContentsDecode, element_count, element_counts, events, during, carry,
}
use xml_oxidator.Reader.Loop.Replayed.{event_loop-events}
use xml_oxidator.Reader.Loop.Subtree.{evaluated}
use xml_oxidator.Reader.Loop.Element.{IsAtCapture, Continues, event_loop-IsEvaluated}

-- <i k="v">x<b/>y</i>
abbrev item_contents : Contents
item_contents = chunk (str "x") (child (element (str "b") [] nothing) (chunk (str "y") nothing))

abbrev item : Element
item = element (str "i") ((str "k", str "v") ∷ []) item_contents

item-Decodes : Decodes item
unfolding Decodes from_utf8
item-Decodes = (refl, (refl, refl, tt), ((refl, tt, tt), tt))

-- The root is open.
abbrev inside : ParserState
inside = record init {
  context_stack = fresh 0 [] 0 ∷ [];
  descriptor_stack = some 0 ∷ [];
  sibling_counters = [] ∷ [];
}

abbrev rest : Input Str
rest = inr close ∷ []

abbrev capture : CaptureBuilder
capture = record (new 1000 (str "r/i")) { stack = build_node (str "i") [] [] nil ∷ [] }

event_loop-events_example :
    event_loop {I = Str} sample_tree
      (events item rest)
      (during Str Str sample_tree 1 1 inside capture 1)
    ≡ carry
        (play item capture)
        (λ b'. event_loop sample_tree rest (during Str Str sample_tree 1 1 inside b' 1))
        []
event_loop-events_example =
    event_loop-events Str Str sample_tree 1 1 inside item item-Decodes capture 1 (omega arith)
      (unfold element_count in omega arith) rest

abbrev item_node : DescriptorNode DynRule
item_node = record {
  full_path = str "r" ∷ str "i" ∷ [];
  rules = has_text ∷ [];
  children_sorted = [];
  child_ids = [];
  tag = str "i";
  parent_id = some 0;
  needs = 0x0a;
  summary_needs = 0;
}

at_item : IsAtCapture Str Str sample_tree 1 item_node (str "i") ((str "k", str "v") ∷ []) inside
unfolding from_utf8 descriptor_for child_of search_child binary_search_by cmp get is_capture
at_item = record {
  streams = refl;
  no_skip = refl;
  no_spare_attrs = refl;
  valid_name = refl;
  valid_attrs = (refl, refl, tt);
  declared = refl;
  described = refl;
  captures = refl;
}

contents-Decode : ContentsDecode item_contents
unfolding Decodes from_utf8
contents-Decode = ((refl, tt, tt), tt)

item_fits : cost item ≤ sample_tree.capture_memory_limit
unfolding cost element_size attrs_size add_usize
item_fits = omega arith

few : element_counts item_contents + 1 < word
unfolding element_count
few = omega arith

event_loop-IsEvaluated_example :
    Continues Str Str sample_tree 1 item_node
      (str "i")
      ((str "k", str "v") ∷ [])
      inside
      item_contents
      rest
      (evaluated Str Str sample_tree 1 item_node (tree_of item) 0 inside.context_stack inside.sink)
unfolding sibling_index sibling_counter_get_or_insert hash_tag
event_loop-IsEvaluated_example =
    event_loop-IsEvaluated Str Str sample_tree 1 item_node (str "i") ((str "k", str "v") ∷ [])
      inside item_contents contents-Decode item_fits (omega arith) few at_item rest

-- An item that is open in streaming mode, without text.
abbrev item_open : ParserState
item_open = record init {
  context_stack = fresh 1 [] 0 ∷ fresh 0 [] 0 ∷ [];
  descriptor_stack = some 1 ∷ some 0 ∷ [];
  sibling_counters = [] ∷ [] ∷ [];
}
