-- ===== src/Macros/Tests.antt =====
-- An expansion of the macro, and its theorems at concrete items.
use xml_oxidator.Prelude.{◌≡◌, refl, some, Safe}
use xml_oxidator.Text.{str}
use xml_oxidator.Rule.{DynRule, dyn_rule}
use xml_oxidator.Samples.{has_text, finished}
use xml_oxidator.Tree.Closed.{IsClosed}
use xml_oxidator.Tree.Builder.{new}
use xml_oxidator.Tree.Builder.Placed.{new-IsWellBuilt}
use xml_oxidator.Macros.{
  no_mode, capture_mode, rule_item, child_item, Items, nil, cons, expand_items, build_tree,
}
use xml_oxidator.Macros.Expands.{Restores, expand_items-Restores, build_tree-Safe}

-- "r" { "i" capture { has_text } }
abbrev items : Items DynRule
items = cons (child_item (str "i") capture_mode (cons (rule_item has_text) nil)) nil

expand_items_runs : expand_items items (new (str "r")) ≡ some finished
unfolding expand_items new
expand_items_runs = refl

expand_items-Restores_example :
    Restores (new {R = DynRule} (str "r")) (expand_items items (new (str "r")))
expand_items-Restores_example =
    expand_items-Restores items (new (str "r")) (new-IsWellBuilt (str "r"))

build_tree-Safe_example : Safe IsClosed (build_tree (str "r") no_mode items)
build_tree-Safe_example = build_tree-Safe (str "r") no_mode items
