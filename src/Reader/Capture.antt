-- ===== src/Reader/Capture.antt =====
-- src/reader/capture.rs: the memory-limited buffer of a captured subtree.
pub mod Replay
pub mod Arena
pub mod Roundtrip
pub mod Overflow
use mathlib.Core.List.{foldl}
use xml_oxidator.Prelude.{
  ℕ, [], ◌∷◌, ◌++◌, Option, none, some, Stack, is_empty, length, ltb, add_usize, Outcome, ok, err,
  ◌>>=◌, if◌then◌else◌,
}
use xml_oxidator.Text.{Str}
use xml_oxidator.Errors.{ReaderError, capture_overflow}
use xml_oxidator.View.Summary.{Attrs}
use xml_oxidator.View.Subtree
use xml_oxidator.View.Subtree.{SubtreeNode, SubtreeNodes, subtree_node}

-- A `BuildNode`: tag, attributes, text, children.
mutual
  pub data BuildNode : Type 0 where
    build_node : Str → Attrs → Str → BuildNodes → BuildNode

  pub data BuildNodes : Type 0 where
    nil : BuildNodes
    cons : BuildNode → BuildNodes → BuildNodes

-- children.push(node)
unfoldable pub push_child : BuildNodes → BuildNode → BuildNodes
push_child nil n = cons n nil
push_child (cons m ms) n = cons m (push_child ms n)

pub record CaptureBuilder : Type 0 where
  pub stack : Stack BuildNode
  pub memory_usage : ℕ
  pub memory_limit : ℕ
  pub path_for_error : Str

abbrev pub new : ℕ → Str → CaptureBuilder
new limit path = record {
  stack = [];
  memory_usage = 0;
  memory_limit = limit;
  path_for_error = path;
}

-- size_of::<BuildNode>() on a 64-bit target: two strings and two vectors of three words each.
abbrev pub size_of_build_node : ℕ
size_of_build_node = 96

-- attrs.iter().map(|(k, v)| k.len() + v.len() + 64).sum()
unfoldable pub attrs_size : Attrs → ℕ
attrs_size attrs =
    foldl (λ n (a : Str × Str). add_usize n (add_usize (add_usize (length a.0) (length a.1)) 64)) 0
      attrs

-- What `start_element` charges for an element.
unfoldable pub element_size : Str → Attrs → ℕ
unfolding attrs_size
element_size tag attrs = add_usize (add_usize size_of_build_node (length tag)) (attrs_size attrs)

-- text of the top: replaced while it is empty, else extended
abbrev pub append_text : Str → BuildNode → BuildNode
append_text s (build_node t a x cs) =
    if is_empty x then build_node t a s cs else build_node t a (x ++ s) cs

abbrev pub append_top : Str → Stack BuildNode → Stack BuildNode
append_top s [] = []
append_top s (top ∷ rest) = append_text s top ∷ rest

module _ {X I : Type 0} where
  unfoldable pub check_limit : CaptureBuilder → Outcome (ReaderError X I) (Unit {0})
  check_limit b =
      if ltb b.memory_limit b.memory_usage
      then err (capture_overflow b.path_for_error b.memory_limit)
      else ok tt

  unfoldable pub start_element :
      CaptureBuilder → Str → Attrs → Outcome (ReaderError X I) CaptureBuilder
  unfolding check_limit element_size
  start_element b tag attrs = do
    let charged = record b { memory_usage = add_usize b.memory_usage (element_size tag attrs) }
    _ ← check_limit charged
    ok (record charged { stack = build_node tag attrs [] nil ∷ charged.stack })

  unfoldable pub text : CaptureBuilder → Str → Outcome (ReaderError X I) CaptureBuilder
  unfolding check_limit
  text b s = if is_empty s then ok b else do
    let charged = record b { memory_usage = add_usize b.memory_usage (length s) }
    _ ← check_limit charged
    ok (record charged { stack = append_top s charged.stack })

-- The top node becomes the last child of the one below it; alone, it is pushed back.
abbrev pub reparent : BuildNode → Stack BuildNode → Stack BuildNode
reparent n [] = n ∷ []
reparent n (build_node t a x cs ∷ rest) = build_node t a x (push_child cs n) ∷ rest

abbrev pub close_top : Stack BuildNode → Option (Stack BuildNode)
close_top [] = none
close_top (n ∷ rest) = some (reparent n rest)

-- `none` is the panic "unbalanced capture events".
unfoldable pub end_element : CaptureBuilder → Option CaptureBuilder
unfolding push_child
end_element b = elim (close_top b.stack) [ none ↦ none | some s ↦ some (record b { stack = s }) ]

unfoldable mutual
  pub build_arena_node : BuildNode → SubtreeNode
  build_arena_node (build_node t a x cs) = subtree_node t a x (build_arena_nodes cs)

  pub build_arena_nodes : BuildNodes → SubtreeNodes
  build_arena_nodes nil = Subtree.nil
  build_arena_nodes (cons n ns) = Subtree.cons (build_arena_node n) (build_arena_nodes ns)

-- stack.into_iter().next(): the node pushed first
abbrev pub bottom : Stack BuildNode → Option BuildNode
bottom [] = none
bottom (n ∷ []) = some n
bottom (n ∷ m ∷ rest) = bottom (m ∷ rest)

-- `none` is the panic "empty capture".
unfoldable pub finalize : CaptureBuilder → Option SubtreeNode
unfolding build_arena_node
finalize b = elim (bottom b.stack) [ none ↦ none | some root ↦ some (build_arena_node root) ]
