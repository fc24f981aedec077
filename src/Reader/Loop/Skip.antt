-- ===== src/Reader/Loop/Skip.antt =====
-- Elements that the tree does not declare: the parser passes over them with all that they hold.
use xml_oxidator.Prelude.{
  ℕ, suc, ◌+◌, ◌<◌, ◌≡◌, refl, sym, ◌∙◌, ap, ◌⊎◌, inr, [], ◌∷◌, ◌++◌, append_assoc, length,
  length-append, some, none, false, lt→ltb, ◌==◌, add_usize, add_usize-eq-add, sub_usize,
  sub_usize-eq-sub, word, ok, from_result, arith,
}
use xml_oxidator.Text.{Str}
use xml_oxidator.Text.Utf8.{from_utf8}
use xml_oxidator.Tree.Descriptor.{DescriptorTree}
use xml_oxidator.Rule.{Rule}
use xml_oxidator.Reader.Events.{BytesStart, start, close, text, empty, other}
use xml_oxidator.Reader.State.{ParserState, streaming}
use xml_oxidator.Reader.Start.{handle_start, start_streaming, descriptor_for}
use xml_oxidator.Reader.End.{handle_end}
use xml_oxidator.Reader.Loop.{Input, handle_text, handle_event, event_loop}

-- Events in which every opening tag has its closing tag.
pub data Balanced (X : Type 0) : Input X → Type 0 where
  done : Balanced X []
  flat_text :
      (decode : X ⊎ Str) (rest : Input X) → Balanced X rest → Balanced X (inr (text decode) ∷ rest)
  flat_empty :
      (tag : BytesStart X) (rest : Input X) → Balanced X rest → Balanced X (inr (empty tag) ∷ rest)
  flat_other : (rest : Input X) → Balanced X rest → Balanced X (inr other ∷ rest)
  element :
      (tag : BytesStart X) (body rest : Input X)
      → Balanced X body
      → Balanced X rest
      → Balanced X (inr (start tag) ∷ (body ++ inr close ∷ rest))

module _ (X I : Type 0) {R : Type 0} ⦃rule : Rule R⦄ (t : DescriptorTree R) where
  abbrev skipping : ℕ → ParserState → ParserState
  skipping k s = record s { skip_depth = k }

  start-skipping :
      (tag : BytesStart X) (k : ℕ) (s : ParserState)
      → 0 < k
      → k + 1 < word
      → handle_start {X = X} {I = I} t tag (skipping k s) ≡ ok (skipping (suc k) s)
  unfolding handle_start
  start-skipping tag k s h l =
      let next : add_usize k 1 ≡ suc k = add_usize-eq-add k 1 l ∙ omega arith in
      rw (lt→ltb 0 k h) (rw next)

  end-skipping :
      (k : ℕ) (s : ParserState)
      → k + 1 < word
      → handle_end {X = X} {I = I} t (skipping (suc k) s) ≡ ok (skipping k s)
  unfolding handle_end
  end-skipping k s l =
      let down : sub_usize (suc k) 1 ≡ k =
        sub_usize-eq-sub (suc k) 1 (omega arith) (omega arith) ∙ omega arith in
      rw (lt→ltb 0 (suc k) (omega arith)) (rw down)

  text-skipping :
      (decode : X ⊎ Str) (k : ℕ) (s : ParserState)
      → 0 < k
      → handle_text {X = X} {I = I} t decode (skipping k s) ≡ ok (skipping k s)
  unfolding handle_text
  text-skipping decode k s h = let deep : (k == 0) ≡ false = ground arith in rw deep

  -- While it skips, the parser comes out of balanced events as it went in.
  skip-Balanced :
      {body : Input X}
      → Balanced X body
      → (k : ℕ) (s : ParserState) (rest : Input X) → 0 < k
      → k + length body < word
      → event_loop {I = I} t (body ++ rest) (skipping k s) ≡ event_loop t rest (skipping k s)
  unfolding event_loop handle_event
  skip-Balanced done k s rest h l = refl
  skip-Balanced (flat_text decode more b) k s rest h l =
      rw (text-skipping decode k s h) (skip-Balanced b k s rest h (omega arith))
  skip-Balanced (flat_empty tag more b) k s rest h l =
      rw (start-skipping tag k s h (omega arith))
        (rw (end-skipping k s (omega arith)) (skip-Balanced b k s rest h (omega arith)))
  skip-Balanced (flat_other more b) k s rest h l = skip-Balanced b k s rest h (omega arith)
  skip-Balanced (element tag body more inside b) k s rest h l =
      let size = length-append body (inr close ∷ more) in
      let split = append_assoc body (inr close ∷ more) rest in
      rw (start-skipping tag k s h (omega arith)) (
        rw split (
          skip-Balanced inside (suc k) s (inr close ∷ more ++ rest) (omega arith) (omega arith)
          ∙ rw (end-skipping k s (omega arith)) (skip-Balanced b k s rest h (omega arith))))

  start-undeclared :
      (tag : BytesStart X) (name : Str) (s : ParserState)
      → s.mode ≡ streaming
      → s.skip_depth ≡ 0
      → from_utf8 tag.name ≡ inr name
      → descriptor_for t s.descriptor_stack name ≡ some none
      → handle_start {X = X} {I = I} t tag s ≡ ok (skipping 1 s)
  unfolding handle_start start_streaming
  start-undeclared tag name s m z u d = rw (z, m) (rw (u, from_result) (rw d))

  -- In streaming mode, where nothing is skipped, an element with a UTF-8 name that the tree does not
  -- declare at this place leaves no trace: if the events in it are balanced and fewer than 2^64 - 2,
  -- what follows it is read as if it had not been there.
  pub undeclared_element-skipped :
      (tag : BytesStart X) (name : Str) (body rest : Input X) (s : ParserState)
      → s.mode ≡ streaming
      → s.skip_depth ≡ 0
      → from_utf8 tag.name ≡ inr name
      → descriptor_for t s.descriptor_stack name ≡ some none
      → Balanced X body
      → length body + 2 < word
      → event_loop {I = I} t (inr (start tag) ∷ (body ++ inr close ∷ rest)) s ≡ event_loop t rest s
  unfolding event_loop handle_event
  undeclared_element-skipped tag name body rest s m z u d b l =
      rw (start-undeclared tag name s m z u d) (
        skip-Balanced b 1 s (inr close ∷ rest) (omega arith) (omega arith)
        ∙ rw (end-skipping 0 s (omega arith)) (ap (λ k. event_loop t rest (skipping k s)) (sym z)))
