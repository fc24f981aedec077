-- ===== src/View/Answers.antt =====
-- src/rule.rs: what two accesses to an element have in common, and which accesses answer. A level
-- of an ancestor is one whose successor is a `usize`.
use xml_oxidator.Prelude.{
  ℕ, zero, suc, ◌+◌, ◌<◌, ◌≡◌, subst, Option, none, some, Stack, length, word, List, [], ◌∷◌,
  get_elem?,
}
use mathlib.Core.Option.{some-injective}
use xml_oxidator.Text.{Str}
use xml_oxidator.Diagnostic.{Diagnostic}
use xml_oxidator.Rule.{NodeAccess, Rule}
use xml_oxidator.View.Summary.{ChildSummary}
use xml_oxidator.View.Ancestors.{
  ancestor_within, of_ancestor-some, ancestor_attr, ancestor_text, ancestor_children,
}
use xml_oxidator.Tree.Descriptor.{DescriptorNode, DescriptorTree, get}
use xml_oxidator.Tree.Path.{NodeId}
use xml_oxidator.Reader.Context.{NodeContext}
use xml_oxidator.View.Streaming.{StreamingViewOwned, popped_access}
use xml_oxidator.View.Captured.{SubtreeView, captured_access}

-- Two accesses show the same element.
pub record Agree (a b : NodeAccess) : Type 0 where
  pub tag : a.tag ≡ b.tag
  pub attr : (name : Str) → a.attr name ≡ b.attr name
  pub for_each_attr : a.for_each_attr ≡ b.for_each_attr
  pub text : a.text ≡ b.text
  pub element_index : a.element_index ≡ b.element_index
  pub path : a.path ≡ b.path
  pub children_summaries : a.children_summaries ≡ b.children_summaries
  pub subtree : a.subtree ≡ b.subtree
  pub depth : a.depth ≡ b.depth
  pub ancestor_attr :
      (level : ℕ)
      → level + 1 < word
      → (name : Str) → a.ancestor_attr level name ≡ b.ancestor_attr level name
  pub ancestor_text : (level : ℕ) → level + 1 < word → a.ancestor_text level ≡ b.ancestor_text level
  pub ancestor_children :
      (level : ℕ) → level + 1 < word → a.ancestor_children level ≡ b.ancestor_children level

-- Both panic, or both show the same element.
abbrev pub Alike : Option NodeAccess → Option NodeAccess → Type 0
Alike none none = Unit
Alike (some a) (some b) = Agree a b
Alike none (some b) = ⊥
Alike (some a) none = ⊥

-- The access to an ancestor panics at no level but the last one of `usize`.
pub record Answers (a : NodeAccess) : Type 0 where
  pub attr :
      (level : ℕ)
      → level + 1 < word
      → (name : Str) → (x : Option Str) × (a.ancestor_attr level name ≡ some x)
  pub text : (level : ℕ) → level + 1 < word → (x : Option Str) × (a.ancestor_text level ≡ some x)
  pub children :
      (level : ℕ)
      → level + 1 < word
      → (x : Option (List ChildSummary)) × (a.ancestor_children level ≡ some x)

module _ (parents : Stack NodeContext) (level : ℕ) (fits : level + 1 < word) where
  ancestor_attr-some :
      (name : Str) → (x : Option Str) × (ancestor_attr (length parents) parents level name ≡ some x)
  unfolding ancestor_attr
  ancestor_attr-some name = of_ancestor-some _ _ _ (ancestor_within parents level fits)

  ancestor_text-some : (x : Option Str) × (ancestor_text (length parents) parents level ≡ some x)
  unfolding ancestor_text
  ancestor_text-some = of_ancestor-some _ _ _ (ancestor_within parents level fits)

  ancestor_children-some :
      (x : Option (List ChildSummary)) × (ancestor_children (length parents) parents level ≡ some x)
  unfolding ancestor_children
  ancestor_children-some = of_ancestor-some _ _ _ (ancestor_within parents level fits)

module _ {R : Type 0} where
  pub popped_access-Answers :
      (v : StreamingViewOwned R) (desc : DescriptorNode R) → Answers (popped_access v desc)
  popped_access-Answers v desc = record {
    attr = ancestor_attr-some v.parent_stack;
    text = ancestor_text-some v.parent_stack;
    children = ancestor_children-some v.parent_stack;
  }

  pub captured_access-Answers :
      (v : SubtreeView R) (desc : DescriptorNode R) → Answers (captured_access v desc)
  captured_access-Answers v desc = record {
    attr = ancestor_attr-some v.parent_stack;
    text = ancestor_text-some v.parent_stack;
    children = ancestor_children-some v.parent_stack;
  }

module _ {R : Type 0} ⦃rule : Rule R⦄ where
  -- A rule panics on no access that answers.
  abbrev pub Behaves : R → Type 0
  Behaves r =
      (node : NodeAccess) → Answers node → (ds : List Diagnostic) × (rule.evaluate r node ≡ some ds)

  abbrev pub AllBehave : List R → Type 0
  AllBehave [] = Unit
  AllBehave (r ∷ rest) = Behaves r × AllBehave rest

  abbrev pub NodesBehave : List (DescriptorNode R) → Type 0
  NodesBehave [] = Unit
  NodesBehave (desc ∷ rest) = AllBehave desc.rules × NodesBehave rest

  -- The rules of a tree do.
  abbrev pub RulesBehave : DescriptorTree R → Type 0
  RulesBehave t = NodesBehave t.nodes

  nodes_behave :
      (nodes : List (DescriptorNode R)) (i : ℕ) (desc : DescriptorNode R)
      → NodesBehave nodes
      → get_elem? nodes i ≡ some desc
      → AllBehave desc.rules
  nodes_behave [] i desc h e = cc
  nodes_behave (d ∷ rest) zero desc h e =
      subst (λ (n : DescriptorNode R). AllBehave n.rules) (some-injective _ _ e) h.0
  nodes_behave (d ∷ rest) (suc i) desc h e = nodes_behave rest i desc h.1 e

  pub get-AllBehave :
      (t : DescriptorTree R) (id : NodeId) (desc : DescriptorNode R)
      → RulesBehave t
      → get t id ≡ some desc
      → AllBehave desc.rules
  unfolding get
  get-AllBehave t id desc h e = nodes_behave t.nodes id desc h e
