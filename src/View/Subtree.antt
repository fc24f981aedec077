-- ===== src/View/Subtree.antt =====
-- src/view.rs, `SubtreeNode` and its depth-first iterator.
use xml_oxidator.Prelude.{
  ℕ, zero, suc, ◌+◌, Bool, true, false, List, [], ◌∷◌, ◌++◌, Option, none, some, if◌then◌else◌,
}
use mathlib.Core.Option
use xml_oxidator.Text.{Str, str_eq}
use xml_oxidator.View.Summary.{Attrs, find_attr}

-- A node is its tag, attributes, text and children.
mutual
  pub data SubtreeNode : Type 0 where
    subtree_node : Str → Attrs → Str → SubtreeNodes → SubtreeNode

  pub data SubtreeNodes : Type 0 where
    nil : SubtreeNodes
    cons : SubtreeNode → SubtreeNodes → SubtreeNodes

abbrev pub tag : SubtreeNode → Str
tag (subtree_node t a x cs) = t

abbrev pub attrs : SubtreeNode → Attrs
attrs (subtree_node t a x cs) = a

abbrev pub text : SubtreeNode → Str
text (subtree_node t a x cs) = x

abbrev pub children : SubtreeNode → SubtreeNodes
children (subtree_node t a x cs) = cs

abbrev pub to_list : SubtreeNodes → List SubtreeNode
to_list nil = []
to_list (cons n ns) = n ∷ to_list ns

unfoldable pub attr : SubtreeNode → Str → Option Str
unfolding find_attr
attr n name = find_attr (attrs n) name

-- `SubtreeDescendants`: the nodes still to visit, the next one first. (The program's `Vec` has it
-- last, which is why it reverses the children.)
pub record SubtreeDescendants : Type 0 where
  pub stack : List SubtreeNode

unfoldable pub descendants : SubtreeNode → SubtreeDescendants
descendants n = record { stack = to_list (children n) }

-- One call of the iterator: `none` is its end.
unfoldable pub next : SubtreeDescendants → Option (SubtreeNode × SubtreeDescendants)
next it = elim it.stack [
  | [] ↦ none
  | node ∷ rest ↦ some (node, record { stack = to_list (children node) ++ rest })
]

-- The adaptors of the standard library that the program puts on the iterator, on fuel: `none` if
-- the fuel runs out.
-- .filter(test).collect()
unfoldable pub collect_if :
    ℕ → (SubtreeNode → Bool) → SubtreeDescendants → Option (List SubtreeNode)
unfolding next
collect_if zero test it = none
collect_if (suc fuel) test it = elim (next it) [
  | none ↦ some []
  | some (node, it') ↦
      Option.map (λ found. if test node then node ∷ found else found) (collect_if fuel test it')
]

-- .find(test)
unfoldable pub find_if : ℕ → (SubtreeNode → Bool) → SubtreeDescendants → Option (Option SubtreeNode)
unfolding next
find_if zero test it = none
find_if (suc fuel) test it = elim (next it) [
  | none ↦ some none
  | some (node, it') ↦ elim (test node) [ true ↦ some (some node) | false ↦ find_if fuel test it' ]
]

-- The number of nodes of a subtree, and of a list of them.
unfoldable mutual
  pub size : SubtreeNode → ℕ
  size (subtree_node t a x cs) = suc (sizes cs)

  pub sizes : SubtreeNodes → ℕ
  sizes nil = 0
  sizes (cons n ns) = size n + sizes ns

-- find_all(tag), find(tag): a subtree has `size` nodes, and each call but the last takes one.
unfoldable pub find_all : SubtreeNode → Str → Option (List SubtreeNode)
unfolding collect_if descendants
find_all n name = collect_if (suc (size n)) (λ m. str_eq (tag m) name) (descendants n)

unfoldable pub find : SubtreeNode → Str → Option (Option SubtreeNode)
unfolding find_if descendants
find n name = find_if (suc (size n)) (λ m. str_eq (tag m) name) (descendants n)
