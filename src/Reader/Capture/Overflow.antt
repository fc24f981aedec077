-- ===== src/Reader/Capture/Overflow.antt =====
-- A captured element that is charged more than the limit.
use xml_oxidator.Prelude.{
  ℕ, ◌+◌, ◌≤◌, ◌<◌, ◌≡◌, [], ◌∷◌, length, ltb, lt→ltb, ltb→lt, ltb-false→le, add_usize-eq-add, word,
  Stack, Outcome, err, inl, inr, Bool-cases, true, arith,
}
use xml_oxidator.Text.{Str}
use xml_oxidator.Errors.{ReaderError, capture_overflow}
use xml_oxidator.View.Summary.{Attrs}
use xml_oxidator.Reader.Capture
use xml_oxidator.Reader.Capture.{
  BuildNode, BuildNodes, build_node, nil, cons, push_child, CaptureBuilder, new, element_size,
  append_text, start_element, end_element, finalize, build_arena_node, build_arena_nodes, reparent,
  check_limit,
}
use xml_oxidator.Reader.Capture.Replay.{
  Element, element, Contents, nothing, chunk, child, cost, costs, play, plays, built,
}
use xml_oxidator.Reader.Capture.Roundtrip.{at, start_element-fits, text-fits, play-fits}

-- The calls for an element that does not fit into the limit.
module _ (X I : Type 0) (limit : ℕ) (path : Str) (bound : limit < word) where
  abbrev overflow : Outcome (ReaderError X I) CaptureBuilder
  overflow = err (capture_overflow path limit)

  start_element-overflow :
      (t : Str) (a : Attrs) (stack : Stack BuildNode) (u : ℕ)
      → limit < u + element_size t a
      → u + element_size t a < word
      → start_element (at X I limit path bound stack u) t a ≡ overflow
  unfolding start_element check_limit
  start_element-overflow t a stack u over w =
      let exact = add_usize-eq-add u (element_size t a) w in
      let above : ltb limit (u + element_size t a) ≡ true = lt→ltb _ _ over in rw exact (rw above)

  text-overflow :
      (s : Str) (stack : Stack BuildNode) (u : ℕ)
      → u ≤ limit
      → limit < u + length s
      → u + length s < word
      → Capture.text (at X I limit path bound stack u) s ≡ overflow
  unfolding Capture.text check_limit
  text-overflow [] stack u le over w = absurd (omega arith)
  text-overflow (c ∷ s) stack u le over w =
      let exact = add_usize-eq-add u (length (c ∷ s)) w in
      let above : ltb limit (u + length (c ∷ s)) ≡ true = lt→ltb _ _ over in rw exact (rw above)

  mutual
    unfolding play cost

    pub play-overflow :
        (e : Element) (stack : Stack BuildNode) (u : ℕ)
        → u ≤ limit
        → limit < u + cost e
        → u + cost e < word
        → play e (at X I limit path bound stack u) ≡ overflow
    play-overflow (element t a c) stack u le over w =
        elim (Bool-cases (ltb limit (u + element_size t a))) [
          | inl large ↦ rw (start_element-overflow t a stack u (ltb→lt _ _ large) (omega arith))
          | inr small ↦
              let under = ltb-false→le _ _ small in
              rw (start_element-fits X I limit path bound t a stack u under) (
                rw (
                  plays-overflow c (build_node t a [] nil) stack (u + element_size t a) under
                    (omega arith) (omega arith)))
        ]

    plays-overflow :
        (c : Contents) (n : BuildNode) (rest : Stack BuildNode) (u : ℕ)
        → u ≤ limit
        → limit < u + costs c
        → u + costs c < word
        → plays c (at X I limit path bound (n ∷ rest) u) ≡ overflow
    plays-overflow nothing n rest u le over w = absurd (omega arith)
    plays-overflow (chunk s c) n rest u le over w = elim (Bool-cases (ltb limit (u + length s))) [
      | inl large ↦ rw (text-overflow s (n ∷ rest) u le (ltb→lt _ _ large) (omega arith))
      | inr small ↦
          let under = ltb-false→le _ _ small in
          rw (text-fits X I limit path bound s n rest u under) (
            plays-overflow c (append_text s n) rest (u + length s) under (omega arith)
              (omega arith))
    ]
    plays-overflow (child e c) (build_node t a x cs) rest u le over w =
        elim (Bool-cases (ltb limit (u + cost e))) [
          | inl large ↦
              rw
                (play-overflow e (build_node t a x cs ∷ rest) u le (ltb→lt _ _ large) (omega arith))
          | inr small ↦
              let under = ltb-false→le _ _ small in
              rw (play-fits X I limit path bound e (build_node t a x cs ∷ rest) u under) (
                plays-overflow c (build_node t a x (push_child cs (built e))) rest (u + cost e)
                  under (omega arith) (omega arith))
        ]

  -- For an element that is charged more than the limit, and less than 2^64, the calls end with
  -- `CaptureOverflow`, which names the path and the limit.
  pub play-new-overflow :
      (e : Element)
      → limit < cost e
      → cost e < word
      → play {X = X} {I = I} e (new limit path) ≡ err (capture_overflow path limit)
  play-new-overflow e over w = play-overflow e [] 0 (omega arith) (omega arith) (omega arith)
