-- ===== src/Reader/Capture/Replay.antt =====
-- Captured elements as they stand in the file, and the calls that the parser makes for them.
use xml_oxidator.Prelude.{ℕ, ◌+◌, [], ◌++◌, length, Outcome, ok, ◌>>=◌, or_panic}
use xml_oxidator.Text.{Str}
use xml_oxidator.Errors.{ReaderError}
use xml_oxidator.View.Summary.{Attrs}
use xml_oxidator.View.Subtree
use xml_oxidator.View.Subtree.{SubtreeNode, SubtreeNodes, subtree_node}
use xml_oxidator.Reader.Capture
use xml_oxidator.Reader.Capture.{
  BuildNode, build_node, nil, push_child, CaptureBuilder, element_size, append_text, start_element,
  end_element,
}

-- An element: tag, attributes, and chunks of text between child elements.
mutual
  pub data Element : Type 0 where
    element : Str → Attrs → Contents → Element

  pub data Contents : Type 0 where
    nothing : Contents
    chunk : Str → Contents → Contents
    child : Element → Contents → Contents

-- The tree that an element stands for: its text is its chunks in their order.
abbrev pub text_of : Contents → Str
text_of nothing = []
text_of (chunk s c) = s ++ text_of c
text_of (child e c) = text_of c

unfoldable mutual
  pub tree_of : Element → SubtreeNode
  tree_of (element t a c) = subtree_node t a (text_of c) (trees_of c)

  pub trees_of : Contents → SubtreeNodes
  trees_of nothing = Subtree.nil
  trees_of (chunk s c) = trees_of c
  trees_of (child e c) = Subtree.cons (tree_of e) (trees_of c)

-- What an element is charged: every tag with its attributes, and every byte of text.
unfoldable mutual
  pub cost : Element → ℕ
  cost (element t a c) = element_size t a + costs c

  pub costs : Contents → ℕ
  costs nothing = 0
  costs (chunk s c) = length s + costs c
  costs (child e c) = cost e + costs c

-- The calls on the capture builder, in the order of the events.
module _ {X I : Type 0} where
  unfoldable mutual
    pub play : Element → CaptureBuilder → Outcome (ReaderError X I) CaptureBuilder
    play (element t a c) b = (start_element b t a >>= plays c) >>= λ b'. or_panic (end_element b')

    pub plays : Contents → CaptureBuilder → Outcome (ReaderError X I) CaptureBuilder
    plays nothing b = ok b
    plays (chunk s c) b = Capture.text b s >>= plays c
    plays (child e c) b = play e b >>= plays c

-- The node that the calls build.
unfoldable mutual
  pub built : Element → BuildNode
  built (element t a c) = absorb c (build_node t a [] nil)

  pub absorb : Contents → BuildNode → BuildNode
  absorb nothing n = n
  absorb (chunk s c) n = absorb c (append_text s n)
  absorb (child e c) (build_node t a x cs) = absorb c (build_node t a x (push_child cs (built e)))
