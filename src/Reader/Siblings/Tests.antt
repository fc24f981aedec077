-- ===== src/Reader/Siblings/Tests.antt =====
-- The index of an element at concrete tags: <r><i/><i/>...
use xml_oxidator.Prelude.{ℕ, ◌≡◌, refl, [], ◌∷◌, some, none, mul_u64}
use xml_oxidator.Text.{Str, str}
use xml_oxidator.Rule.{DynRule, dyn_rule}
use xml_oxidator.Samples.{limit}
use xml_oxidator.Tree.Descriptor.{DescriptorTree}
use xml_oxidator.Reader.Context.{NodeContext, fresh}
use xml_oxidator.Reader.Events.{BytesStart}
use xml_oxidator.Reader.Siblings.{hash_tag}
use xml_oxidator.Reader.Siblings.Trace.{Trace}
use xml_oxidator.Reader.State.{ParserState, init}

-- Two different tags with the same hash.
abbrev one_tag : Str
one_tag = str "gMPflVXtwGDXbIhP73TX"

abbrev another_tag : Str
another_tag = str "LtHf1prlU1bCeYZEdqWf"

hashes_collide : hash_tag one_tag ≡ hash_tag another_tag
unfolding hash_tag mul_u64
hashes_collide = refl

-- r and i are declared, with neither rules nor captures.
abbrev plain_tree : DescriptorTree DynRule
plain_tree = record {
  nodes =
      record {
        full_path = str "r" ∷ [];
        rules = [];
        children_sorted = (str "i", 1) ∷ [];
        child_ids = 1 ∷ [];
        tag = str "r";
        parent_id = none;
        needs = 0;
        summary_needs = 0;
      }
      ∷ record {
        full_path = str "r" ∷ str "i" ∷ [];
        rules = [];
        children_sorted = [];
        child_ids = [];
        tag = str "i";
        parent_id = some 0;
        needs = 0;
        summary_needs = 0;
      }
      ∷ [];
  root = some 0;
  capture_memory_limit = limit;
}

abbrev tag : Str → BytesStart Str
tag name = record { name = name; attributes = [] }

abbrev hash_i : ℕ
hash_i = 0xaf63e44c8601fa24

abbrev root_open : ParserState
root_open = record init {
  context_stack = fresh 0 [] 0 ∷ [];
  descriptor_stack = some 0 ∷ [];
  sibling_counters = [] ∷ [];
}

abbrev first_open : ParserState
first_open = record init {
  context_stack = fresh 1 [] 0 ∷ fresh 0 [] 0 ∷ [];
  descriptor_stack = some 1 ∷ some 0 ∷ [];
  sibling_counters = [] ∷ ((hash_i, 1) ∷ []) ∷ [];
}

-- The root, after its first child.
abbrev root_context : NodeContext
root_context = record (fresh 0 [] 0) {
  children = record { attrs = []; text = []; descriptor_id = 1; index = 0; rule_results = 0 } ∷ [];
}

abbrev first_closed : ParserState
first_closed = record init {
  context_stack = root_context ∷ [];
  descriptor_stack = some 0 ∷ [];
  sibling_counters = ((hash_i, 1) ∷ []) ∷ [];
  sibling_pool = [] ∷ [];
}

abbrev second_open : ParserState
second_open = record init {
  context_stack = fresh 1 [] 1 ∷ root_context ∷ [];
  descriptor_stack = some 1 ∷ some 0 ∷ [];
  sibling_counters = [] ∷ ((hash_i, 2) ∷ []) ∷ [];
}
