-- ===== src/View/Summary.antt =====
-- src/view.rs, `ChildSummary`: what a parent keeps of a closed child.
use xml_oxidator.Prelude.{ℕ, List, [], ◌∷◌, Option, none, some, if◌then◌else◌}
use xml_oxidator.Text.{Str, str_eq}
use xml_oxidator.Tree.Path.{NodeId}
use xml_oxidator.View.Results.{RuleResults}

abbrev pub Attrs : Type 0
Attrs = List (Str × Str)

-- attrs.iter().find(|(k, _)| k == name).map(|(_, v)| v)
unfoldable pub find_attr : Attrs → Str → Option Str
find_attr [] name = none
find_attr ((k, v) ∷ rest) name = if str_eq k name then some v else find_attr rest name

pub record ChildSummary : Type 0 where
  pub attrs : Attrs
  pub text : Str
  pub descriptor_id : NodeId
  pub index : ℕ
  pub rule_results : RuleResults
