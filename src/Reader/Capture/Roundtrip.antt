-- ===== src/Reader/Capture/Roundtrip.antt =====
-- A captured element: the tree that is built is the element's, and its size is what is charged.
use xml_oxidator.Prelude.{
  ℕ, ◌+◌, ◌≤◌, ◌<◌, ◌≡◌, ◌∙◌, ap, [], ◌∷◌, some, length, ltb, add_usize-eq-add, word, Stack, ok,
  false, arith,
}
use xml_oxidator.Text.{Str}
use xml_oxidator.View.Summary.{Attrs}
use xml_oxidator.Reader.Capture
use xml_oxidator.Reader.Capture.{
  BuildNode, BuildNodes, build_node, nil, cons, push_child, CaptureBuilder, new, element_size,
  append_text, start_element, end_element, finalize, build_arena_node, build_arena_nodes, reparent,
  check_limit,
}
use xml_oxidator.Reader.Capture.Replay.{
  Element, element, Contents, nothing, chunk, child, tree_of, cost, costs, play, plays, built,
  absorb,
}
use xml_oxidator.Reader.Capture.Arena.{built-arena, append_text-nil}

-- The calls for an element that fits into the limit.
module _ (X I : Type 0) (limit : ℕ) (path : Str) (bound : limit < word) where
  abbrev pub at : Stack BuildNode → ℕ → CaptureBuilder
  at stack usage = record {
    stack = stack;
    memory_usage = usage;
    memory_limit = limit;
    path_for_error = path;
  }

  pub start_element-fits :
      (t : Str) (a : Attrs) (stack : Stack BuildNode) (u : ℕ)
      → u + element_size t a ≤ limit
      → start_element {X = X} {I = I} (at stack u) t a
        ≡ ok (at (build_node t a [] nil ∷ stack) (u + element_size t a))
  unfolding start_element check_limit
  start_element-fits t a stack u fits =
      let exact = add_usize-eq-add u (element_size t a) (omega arith) in
      let under : ltb limit (u + element_size t a) ≡ false = ground arith in rw exact (rw under)

  pub text-fits :
      (s : Str) (n : BuildNode) (rest : Stack BuildNode) (u : ℕ)
      → u + length s ≤ limit
      → Capture.text {X = X} {I = I} (at (n ∷ rest) u) s
        ≡ ok (at (append_text s n ∷ rest) (u + length s))
  unfolding Capture.text check_limit
  text-fits [] n rest u fits = let same : u + 0 ≡ u = omega arith in rw (append_text-nil n, same)
  text-fits (c ∷ s) n rest u fits =
      let exact = add_usize-eq-add u (length (c ∷ s)) (omega arith) in
      let under : ltb limit (u + length (c ∷ s)) ≡ false = ground arith in rw exact (rw under)

  mutual
    unfolding play cost built end_element

    pub play-fits :
        (e : Element) (stack : Stack BuildNode) (u : ℕ)
        → u + cost e ≤ limit
        → play {X = X} {I = I} e (at stack u) ≡ ok (at (reparent (built e) stack) (u + cost e))
    play-fits (element t a c) stack u fits =
        let sum : u + element_size t a + costs c ≡ u + (element_size t a + costs c) = omega arith in
        rw (start_element-fits t a stack u (omega arith)) (
          rw (plays-fits c (build_node t a [] nil) stack (u + element_size t a) (omega arith))
            (rw sum))

    pub plays-fits :
        (c : Contents) (n : BuildNode) (rest : Stack BuildNode) (u : ℕ)
        → u + costs c ≤ limit
        → plays {X = X} {I = I} c (at (n ∷ rest) u) ≡ ok (at (absorb c n ∷ rest) (u + costs c))
    plays-fits nothing n rest u fits = let same : u + 0 ≡ u = omega arith in rw same
    plays-fits (chunk s c) n rest u fits =
        let sum : u + length s + costs c ≡ u + (length s + costs c) = omega arith in
        rw (text-fits s n rest u (omega arith))
          (plays-fits c (append_text s n) rest (u + length s) (omega arith) ∙ rw sum)
    plays-fits (child e c) (build_node t a x cs) rest u fits =
        let sum : u + cost e + costs c ≡ u + (cost e + costs c) = omega arith in
        rw (play-fits e (build_node t a x cs ∷ rest) u (omega arith)) (
          plays-fits c (build_node t a x (push_child cs (built e))) rest (u + cost e) (omega arith)
          ∙ rw sum)

  -- For a limit below 2^64: the calls for an element that is charged no more than the limit succeed,
  -- the tree that they make is the element's, and they have charged exactly its cost.
  pub play-finalize :
      (e : Element)
      → cost e ≤ limit
      → (b : CaptureBuilder) × (play {X = X} {I = I} e (new limit path) ≡ ok b)
        × (finalize b ≡ some (tree_of e))
        × (b.memory_usage ≡ cost e)
  unfolding finalize
  play-finalize e fits =
      let same : 0 + cost e ≡ cost e = omega arith in
      (
        at (built e ∷ []) (0 + cost e),
        play-fits e [] 0 (omega arith),
        ap some (built-arena e),
        same,
      )
