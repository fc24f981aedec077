-- ===== src/Reader/Loop/Replayed.antt =====
-- The event loop over the events of a captured element.
use xml_oxidator.Prelude.{ℕ, ◌+◌, ◌<◌, ◌≡◌, refl, sym, ◌∙◌, inr, ◌∷◌, word, ◌>>=◌, or_panic, arith}
use xml_oxidator.Tree.Path.{NodeId}
use xml_oxidator.Tree.Descriptor.{DescriptorTree}
use xml_oxidator.Rule.{Rule}
use xml_oxidator.Reader.Capture
use xml_oxidator.Reader.Capture.{CaptureBuilder, start_element, end_element}
use xml_oxidator.Reader.Capture.Replay.{
  Element, element, Contents, nothing, chunk, child, play, plays,
}
use xml_oxidator.Reader.Events.{close}
use xml_oxidator.Reader.State.{ParserState}
use xml_oxidator.Reader.Loop.{Input, Verdict, handle_event, event_loop}
use xml_oxidator.Reader.Loop.Captured.{
  events, contents, Decodes, ContentsDecode, element_count, element_counts, carry, resume-carry,
  carry-bind, carry_ext, during, start-during, text-during, close-during,
}

module _ (X I : Type 0) {R : Type 0} ⦃rule : Rule R⦄ (t : DescriptorTree R) (id : NodeId)
    (place : ℕ) (s : ParserState) where
  abbrev at_depth : CaptureBuilder → ℕ → ParserState
  at_depth = during X I t id place s

  -- The run goes on with what is left of the input.
  abbrev go_on : Input X → ℕ → CaptureBuilder → Verdict X I
  go_on rest depth b = event_loop t rest (at_depth b depth)

  loop_close :
      (b : CaptureBuilder) (depth : ℕ) (rest : Input X)
      → 0 < depth
      → depth + 1 < word
      → go_on (inr close ∷ rest) (depth + 1) b
        ≡ carry (or_panic (end_element b)) (go_on rest depth) s.sink.sent
  unfolding event_loop handle_event
  loop_close b depth rest h l = rw (close-during X I t id place s b depth h l) (
      resume-carry (or_panic (end_element b)) (λ b'. at_depth b' depth) (event_loop t rest)
        s.sink.sent)

  mutual
    unfolding event_loop handle_event events play Decodes element_count

    replayed :
        (e : Element)
        → Decodes e
        → (b : CaptureBuilder) (depth : ℕ) → 0 < depth
        → depth + element_count e < word
        → (rest : Input X)
        → go_on (events e rest) depth b ≡ carry (play e b) (go_on rest depth) s.sink.sent
    replayed (element name a c) valid b depth h l rest =
        rw (start-during X I t id place s name a b depth valid.0 valid.1 (omega arith)) (
          resume-carry (start_element b name a) (λ b'. at_depth b' (depth + 1))
            (event_loop t (contents c (inr close ∷ rest))) s.sink.sent
          ∙ carry_ext (start_element b name a) _
              (λ b'. carry (plays c b') (go_on (inr close ∷ rest) (depth + 1)) s.sink.sent)
              s.sink.sent
              (λ b'.
                all_replayed c valid.2 b' (depth + 1) (omega arith) (omega arith)
                  (inr close ∷ rest))
          ∙ sym (
              carry-bind (start_element b name a) (plays c) (go_on (inr close ∷ rest) (depth + 1))
                s.sink.sent)
          ∙ carry_ext (start_element b name a >>= plays c) _
              (λ b'. carry (or_panic (end_element b')) (go_on rest depth) s.sink.sent) s.sink.sent
              (λ b'. loop_close b' depth rest h (omega arith))
          ∙ sym (
              carry-bind (start_element b name a >>= plays c) (λ b'. or_panic (end_element b'))
                (go_on rest depth) s.sink.sent))

    pub all_replayed :
        (c : Contents)
        → ContentsDecode c
        → (b : CaptureBuilder) (depth : ℕ) → 0 < depth
        → depth + element_counts c < word
        → (rest : Input X)
        → go_on (contents c rest) depth b ≡ carry (plays c b) (go_on rest depth) s.sink.sent
    all_replayed nothing valid b depth h l rest = refl
    all_replayed (chunk chars c) valid b depth h l rest =
        rw (text-during X I t id place s chars b depth) (
          resume-carry (Capture.text b chars) (λ b'. at_depth b' depth)
            (event_loop t (contents c rest)) s.sink.sent
          ∙ carry_ext (Capture.text b chars) _
              (λ b'. carry (plays c b') (go_on rest depth) s.sink.sent) s.sink.sent
              (λ b'. all_replayed c valid b' depth h l rest)
          ∙ sym (carry-bind (Capture.text b chars) (plays c) (go_on rest depth) s.sink.sent))
    all_replayed (child e c) valid b depth h l rest =
        replayed e valid.0 b depth h (omega arith) (contents c rest)
        ∙ carry_ext (play e b) _ (λ b'. carry (plays c b') (go_on rest depth) s.sink.sent)
            s.sink.sent (λ b'. all_replayed c valid.1 b' depth h (omega arith) rest)
        ∙ sym (carry-bind (play e b) (plays c) (go_on rest depth) s.sink.sent)

  -- While a subtree is captured, with at least one element open and room to count: the events of an
  -- element whose names and values are UTF-8 do what the calls on the capture builder do. The run goes
  -- on behind the element with the builder that the calls leave and an otherwise unchanged state, or
  -- it ends with their error, and then nothing more has been sent.
  pub event_loop-events :
      (e : Element)
      → Decodes e
      → (b : CaptureBuilder) (depth : ℕ) → 0 < depth
      → depth + element_count e < word
      → (rest : Input X)
      → event_loop {I = I} t (events e rest) (during X I t id place s b depth)
        ≡ carry (play e b) (λ b'. event_loop t rest (during X I t id place s b' depth)) s.sink.sent
  event_loop-events = replayed
