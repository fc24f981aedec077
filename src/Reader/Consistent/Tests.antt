-- ===== src/Reader/Consistent/Tests.antt =====
-- A rule that asks for the last level of `usize`, and the panic of the run.
use xml_oxidator.Prelude.{◌≡◌, refl, [], ◌∷◌, none, some, panic, inr, add_usize, mul_u64}
use xml_oxidator.Text.{Str, str, str_eq}
use xml_oxidator.Text.Utf8.{from_utf8}
use xml_oxidator.Rule.{DynRule, dyn_rule}
use xml_oxidator.Samples.{limit}
use xml_oxidator.Tree.Needs.{contains, is_capture}
use xml_oxidator.Tree.Descriptor.{DescriptorTree, get, root_id}
use xml_oxidator.View.Ancestors.{ancestor, ancestor_text}
use xml_oxidator.View.Streaming.{owned_access}
use xml_oxidator.Reader.Context.{acquire}
use xml_oxidator.Reader.Events.{start, close}
use xml_oxidator.Reader.Siblings.{hash_tag, sibling_index}
use xml_oxidator.Reader.Sink.{evaluate_rules}
use xml_oxidator.Reader.Start.{
  descriptor_for, needs_attrs, attrs_for, open_context, start_declared, start_streaming,
  handle_start,
}
use xml_oxidator.Reader.End.{close_context, end_streaming, handle_end}
use xml_oxidator.Reader.Loop.{handle_event, event_loop, parse_file}

abbrev asks_beyond : DynRule
asks_beyond = record {
  name = str "asks-beyond";
  evaluate =
      λ node. elim (node.ancestor_text 0xffffffffffffffff) [ none ↦ none | some found ↦ some [] ];
  needs = 0;
}

abbrev root_tree : DescriptorTree DynRule
root_tree = record {
  nodes =
      record {
        full_path = str "r" ∷ [];
        rules = asks_beyond ∷ [];
        children_sorted = [];
        child_ids = [];
        tag = str "r";
        parent_id = none;
        needs = 0;
        summary_needs = 0;
      }
      ∷ [];
  root = some 0;
  capture_memory_limit = limit;
}

beyond_panics :
    (parse_file {X = Str} {I = Str} root_tree
      (inr (start (record { name = str "r"; attributes = [] })) ∷ inr close ∷ [])).0
    ≡ panic
unfolding parse_file event_loop handle_event handle_start start_streaming start_declared attrs_for
    open_context needs_attrs from_utf8 descriptor_for root_id get str_eq hash_tag mul_u64
    sibling_index contains is_capture acquire handle_end end_streaming close_context owned_access
    evaluate_rules ancestor ancestor_text add_usize
beyond_panics = refl
