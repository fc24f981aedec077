-- ===== src/Reader/Capture/Arena.antt =====
-- The tree that is made of the node that the calls build.
use xml_oxidator.Prelude.{◌≡◌, refl, ◌∙◌, ap, [], ◌∷◌, ◌++◌, append_assoc, append-nil}
use xml_oxidator.Text.{Str}
use xml_oxidator.View.Summary.{Attrs}
use xml_oxidator.View.Subtree
use xml_oxidator.View.Subtree.{SubtreeNode, SubtreeNodes, subtree_node}
use xml_oxidator.Reader.Capture.{
  BuildNode, BuildNodes, build_node, nil, cons, push_child, append_text, build_arena_node,
  build_arena_nodes,
}
use xml_oxidator.Reader.Capture.Replay.{
  Element, element, Contents, nothing, chunk, child, text_of, tree_of, trees_of, built, absorb,
}

-- The arena of the children, and of one more child.
unfoldable joined : SubtreeNodes → SubtreeNodes → SubtreeNodes
joined Subtree.nil ns = ns
joined (Subtree.cons m ms) ns = Subtree.cons m (joined ms ns)

push_child-arena :
    (cs : BuildNodes) (n : BuildNode) (ns : SubtreeNodes)
    → joined (build_arena_nodes (push_child cs n)) ns
      ≡ joined (build_arena_nodes cs) (Subtree.cons (build_arena_node n) ns)
unfolding joined build_arena_node push_child
push_child-arena nil n ns = refl
push_child-arena (cons m ms) n ns =
    ap (Subtree.cons (build_arena_node m)) (push_child-arena ms n ns)

append_text-arena :
    (s : Str) (t : Str) (a : Attrs) (x : Str) (cs : BuildNodes)
    → append_text s (build_node t a x cs) ≡ build_node t a (x ++ s) cs
append_text-arena s t a [] cs = refl
append_text-arena s t a (c ∷ x) cs = refl

joined_nil : (ns : SubtreeNodes) → joined ns Subtree.nil ≡ ns
unfolding joined
joined_nil Subtree.nil = refl
joined_nil (Subtree.cons n ns) = ap (Subtree.cons n) (joined_nil ns)

mutual
  unfolding built build_arena_node tree_of joined

  -- The tree that is made of the node that is built is the element's.
  pub built-arena : (e : Element) → build_arena_node (built e) ≡ tree_of e
  built-arena (element t a c) = absorb-arena c t a [] nil

  absorb-arena :
      (c : Contents) (t : Str) (a : Attrs) (x : Str) (cs : BuildNodes)
      → build_arena_node (absorb c (build_node t a x cs))
        ≡ subtree_node t a (x ++ text_of c) (joined (build_arena_nodes cs) (trees_of c))
  absorb-arena nothing t a x cs = rw (append-nil x, joined_nil (build_arena_nodes cs))
  absorb-arena (chunk s c) t a x cs =
      rw (append_text-arena s t a x cs)
        (absorb-arena c t a (x ++ s) cs ∙ rw (append_assoc x s (text_of c)))
  absorb-arena (child e c) t a x cs =
      absorb-arena c t a x (push_child cs (built e))
      ∙ rw (push_child-arena cs (built e) (trees_of c), built-arena e)

pub append_text-nil : (n : BuildNode) → append_text [] n ≡ n
append_text-nil (build_node t a x cs) = append_text-arena [] t a x cs ∙ rw (append-nil x)
