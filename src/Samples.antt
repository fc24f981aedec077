-- ===== src/Samples.antt =====
-- Sample declarations, a sample tree and sample input, for the tests of the other modules.
use xml_oxidator.Prelude.{
  ℕ, ◌*◌, ◌≡◌, refl, Bool, true, false, List, [], ◌∷◌, none, some, ok, is_empty, if◌then◌else◌,
}
use xml_oxidator.Text.{str, str_eq}
use xml_oxidator.Tree.Path.{as_u32}
use xml_oxidator.Tree.Needs.{is_capture, contains, union}
use xml_oxidator.Diagnostic.{error}
use xml_oxidator.Rule.{DynRule, dyn_rule}
use xml_oxidator.Tree.Descriptor.{DescriptorTree}
use xml_oxidator.Tree.Builder.{NodeDeclaration, TreeBuilder, new}
use xml_oxidator.Tree.Builder.Calls.{
  set_capture, add_rule, open_node, close_node, Reached, started, after_call, call,
}
use xml_oxidator.Tree.Build.{build}

-- A rule that reports an element without text.
abbrev pub has_text : DynRule
has_text = record {
  name = str "has-text";
  evaluate = λ node. some (
      if is_empty node.text
      then record {
        rule_name = str "has-text";
        message = str "no text";
        element_path = node.path;
        element_index = node.element_index;
        severity = error;
      }
        ∷ []
      else []);
  needs = 0x0a;
}

abbrev pub limit : ℕ
limit = 64 * 1024 * 1024

abbrev pub root_declaration : NodeDeclaration DynRule
root_declaration = record {
  tag = str "r";
  full_path = str "r" ∷ [];
  is_capture = false;
  rules = [];
  parent_index = none;
}

abbrev pub item_declaration : Bool → List DynRule → NodeDeclaration DynRule
item_declaration captured rules = record {
  tag = str "i";
  full_path = str "r" ∷ str "i" ∷ [];
  is_capture = captured;
  rules = rules;
  parent_index = some 0;
}

-- The builder while the item is declared, and after it.
abbrev pub on_item : Bool → List DynRule → TreeBuilder DynRule
on_item captured rules = record {
  declarations = root_declaration ∷ item_declaration captured rules ∷ [];
  parent_stack = 1 ∷ 0 ∷ [];
  capture_memory_limit = limit;
}

abbrev pub finished : TreeBuilder DynRule
finished = record {
  declarations = root_declaration ∷ item_declaration true (has_text ∷ []) ∷ [];
  parent_stack = 0 ∷ [];
  capture_memory_limit = limit;
}

-- new("r").node("i").capture_subtree().rule(has_text).done()
pub finished-Reached : Reached finished
unfolding call new
finished-Reached =
    after_call (on_item true (has_text ∷ [])) close_node finished
      (after_call (on_item true []) (add_rule has_text) (on_item true (has_text ∷ []))
        (after_call (on_item false []) set_capture (on_item true [])
          (after_call (new (str "r")) (open_node (str "i")) (on_item false []) (started (str "r"))
            refl)
          refl)
        refl)
      refl

abbrev pub sample_tree : DescriptorTree DynRule
sample_tree = record {
  nodes =
      record {
        full_path = str "r" ∷ [];
        rules = [];
        children_sorted = (str "i", 1) ∷ [];
        child_ids = 1 ∷ [];
        tag = str "r";
        parent_id = none;
        needs = 3;
        summary_needs = 0;
      }
      ∷ record {
        full_path = str "r" ∷ str "i" ∷ [];
        rules = has_text ∷ [];
        children_sorted = [];
        child_ids = [];
        tag = str "i";
        parent_id = some 0;
        needs = 0x0a;
        summary_needs = 0;
      }
      ∷ [];
  root = some 0;
  capture_memory_limit = limit;
}

pub build-finished : build finished ≡ ok sample_tree
unfolding build str_eq is_capture as_u32 contains union
build-finished = refl
