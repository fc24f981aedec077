-- ===== src/Rule.antt =====
-- src/rule.rs: the read access that a rule has to an element, and rules.
use xml_oxidator.Prelude.{ℕ, List, Option}
use xml_oxidator.Text.{Str}
use xml_oxidator.Diagnostic.{Diagnostic}
use xml_oxidator.Tree.Path.{PathSegment}
use xml_oxidator.Tree.Needs.{NodeNeeds, all_needs}
use xml_oxidator.View.Summary.{ChildSummary}
use xml_oxidator.View.Subtree.{SubtreeNode}

-- The trait `NodeAccess`. `for_each_attr` is the list of the pairs that the callback is called
-- with, in their order. The outer `none` of an access to an ancestor is a panic of the access.
pub record NodeAccess : Type 0 where
  pub tag : Str
  pub attr : Str → Option Str
  pub for_each_attr : List (Str × Str)
  pub text : Str
  pub element_index : ℕ
  pub path : List PathSegment
  pub children_summaries : List ChildSummary
  pub subtree : Option SubtreeNode
  pub depth : ℕ
  pub ancestor_attr : ℕ → Str → Option (Option Str)
  pub ancestor_text : ℕ → Option (Option Str)
  pub ancestor_children : ℕ → Option (Option (List ChildSummary))

-- The trait `Rule`. A rule that panics evaluates to `none`.
pub record Rule (R : Type 0) : Type 0 where
  pub name : R → Str
  pub evaluate : R → NodeAccess → Option (List Diagnostic)
  pub needs : R → NodeNeeds

-- The default of `Rule::needs`.
unfoldable pub default_needs : NodeNeeds
default_needs = all_needs

-- `Box<dyn Rule>` carries its methods.
pub record DynRule : Type 0 where
  pub name : Str
  pub evaluate : NodeAccess → Option (List Diagnostic)
  pub needs : NodeNeeds

instance abbrev pub dyn_rule : Rule DynRule
dyn_rule = record { name = λ r. r.name; evaluate = λ r node. r.evaluate node; needs = λ r. r.needs }
