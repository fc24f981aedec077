-- ===== src/Reader/Loop/Captured.antt =====
-- While a subtree is captured, the events of an element are the calls on the capture builder.
use xml_oxidator.Prelude.{
  ℕ, suc, ◌+◌, ◌<◌, ◌≡◌, refl, sym, ◌∙◌, ap, inr, List, [], ◌∷◌, ◌++◌, append_assoc, append-nil,
  map, false, ◌==◌, add_usize-eq-add, sub_usize, sub_usize-eq-sub, word, Outcome, ok, err, panic,
  ◌>>=◌, or_panic, from_result, arith,
}
use xml_oxidator.Text.{Str}
use xml_oxidator.Text.Utf8.{from_utf8}
use xml_oxidator.Diagnostic.{Diagnostic}
use xml_oxidator.Errors.{ReaderError}
use xml_oxidator.Tree.Path.{NodeId}
use xml_oxidator.Tree.Descriptor.{DescriptorTree}
use xml_oxidator.View.Summary.{Attrs}
use xml_oxidator.Rule.{Rule}
use xml_oxidator.Reader.Context.{empty_attr_pool, acquire_attrs-empty}
use xml_oxidator.Reader.Capture
use xml_oxidator.Reader.Capture.{CaptureBuilder, start_element, end_element}
use xml_oxidator.Reader.Capture.Replay.{Element, element, Contents, nothing, chunk, child}
use xml_oxidator.Reader.Events.{
  BytesStart, start, close, text, read_attributes, parse_attributes_into,
}
use xml_oxidator.Reader.State.{ParserState, capturing}
use xml_oxidator.Reader.Start.{handle_start, start_capturing}
use xml_oxidator.Reader.End.{handle_end, end_capturing}
use xml_oxidator.Reader.Loop.{Input, Verdict, handle_text, resume}

-- The events of an element.
abbrev pub tag_of : {X : Type 0} → Str → Attrs → BytesStart X
tag_of t a = record { name = t; attributes = map inr a }

unfoldable mutual
  pub events : {X : Type 0} → Element → Input X → Input X
  events (element t a c) rest = inr (start (tag_of t a)) ∷ contents c (inr close ∷ rest)

  pub contents : {X : Type 0} → Contents → Input X → Input X
  contents nothing rest = rest
  contents (chunk s c) rest = inr (text (inr s)) ∷ contents c rest
  contents (child e c) rest = events e (contents c rest)

-- All names and values are UTF-8.
abbrev pub AttrsDecode : Attrs → Type 0
AttrsDecode [] = Unit
AttrsDecode (a ∷ as') = (from_utf8 a.0 ≡ inr a.0) × (from_utf8 a.1 ≡ inr a.1) × AttrsDecode as'

unfoldable mutual
  pub Decodes : Element → Type 0
  Decodes (element t a c) = (from_utf8 t ≡ inr t) × AttrsDecode a × ContentsDecode c

  pub ContentsDecode : Contents → Type 0
  ContentsDecode nothing = Unit
  ContentsDecode (chunk s c) = ContentsDecode c
  ContentsDecode (child e c) = Decodes e × ContentsDecode c

-- The number of elements, which bounds how deep they are nested.
unfoldable mutual
  pub element_count : Element → ℕ
  element_count (element t a c) = suc (element_counts c)

  pub element_counts : Contents → ℕ
  element_counts nothing = 0
  element_counts (chunk s c) = element_counts c
  element_counts (child e c) = element_count e + element_counts c

module _ {X I : Type 0} where
  pub read_attributes-decode :
      (a out : Attrs)
      → AttrsDecode a
      → read_attributes {X = X} {I = I} (map inr a) out ≡ ok (out ++ a)
  unfolding read_attributes
  read_attributes-decode [] out h = ap ok (sym (append-nil out))
  read_attributes-decode (x ∷ a) out h =
      rw (h.0, from_result)
        (rw (h.1)
          (read_attributes-decode a (out ++ x ∷ []) h.2 ∙ ap ok (append_assoc out (x ∷ []) a)))

  -- What follows a call on the builder.
  abbrev pub carry :
      Outcome (ReaderError X I) CaptureBuilder
      → (CaptureBuilder → Verdict X I)
      → List Diagnostic
      → Verdict X I
  carry (ok b) k sent = k b
  carry (err e) k sent = (err e, sent)
  carry panic k sent = (panic, sent)

  pub resume-carry :
      (m : Outcome (ReaderError X I) CaptureBuilder) (f : CaptureBuilder → ParserState)
      (k : ParserState → Verdict X I) (sent : List Diagnostic)
      → resume (m >>= λ b. ok (f b)) k sent ≡ carry m (λ b. k (f b)) sent
  resume-carry (ok b) f k sent = refl
  resume-carry (err e) f k sent = refl
  resume-carry panic f k sent = refl

  pub carry-bind :
      (m : Outcome (ReaderError X I) CaptureBuilder)
      (f : CaptureBuilder → Outcome (ReaderError X I) CaptureBuilder)
      (k : CaptureBuilder → Verdict X I) (sent : List Diagnostic)
      → carry (m >>= f) k sent ≡ carry m (λ b. carry (f b) k sent) sent
  carry-bind (ok b) f k sent = refl
  carry-bind (err e) f k sent = refl
  carry-bind panic f k sent = refl

  pub carry_ext :
      (m : Outcome (ReaderError X I) CaptureBuilder) (k k' : CaptureBuilder → Verdict X I)
      (sent : List Diagnostic)
      → ((b : CaptureBuilder) → k b ≡ k' b)
      → carry m k sent ≡ carry m k' sent
  carry_ext (ok b) k k' sent h = h b
  carry_ext (err e) k k' sent h = refl
  carry_ext panic k k' sent h = refl

module _ (X I : Type 0) {R : Type 0} ⦃rule : Rule R⦄ (t : DescriptorTree R) (id : NodeId)
    (place : ℕ) (s : ParserState) where
  -- The state while the element `id` is captured.
  abbrev pub during : CaptureBuilder → ℕ → ParserState
  during b depth = record s {
    mode = capturing b depth id place;
    skip_depth = 0;
    attr_pool = empty_attr_pool;
  }

  pub start-during :
      (name : Str) (a : Attrs) (b : CaptureBuilder) (depth : ℕ)
      → from_utf8 name ≡ inr name
      → AttrsDecode a
      → depth + 1 < word
      → handle_start {X = X} {I = I} t (tag_of name a) (during b depth)
        ≡ (start_element b name a >>= λ b'. ok (during b' (depth + 1)))
  unfolding handle_start start_capturing parse_attributes_into
  start-during name a b depth valid decode l =
      rw (valid, from_result)
        (rw acquire_attrs-empty
          (rw (read_attributes-decode {X = X} {I = I} a [] decode, add_usize-eq-add depth 1 l)))

  pub text-during :
      (chars : Str) (b : CaptureBuilder) (depth : ℕ)
      → handle_text {X = X} {I = I} t (inr chars) (during b depth)
        ≡ (Capture.text b chars >>= λ b'. ok (during b' depth))
  unfolding handle_text Capture.text
  text-during [] b depth = refl
  text-during (c ∷ chars) b depth = refl

  pub close-during :
      (b : CaptureBuilder) (depth : ℕ)
      → 0 < depth
      → depth + 1 < word
      → handle_end {X = X} {I = I} t (during b (depth + 1))
        ≡ (or_panic (end_element b) >>= λ b'. ok (during b' depth))
  unfolding handle_end end_capturing
  close-during b depth h l =
      let down : sub_usize (depth + 1) 1 ≡ depth =
        sub_usize-eq-sub (depth + 1) 1 (omega arith) (omega arith) ∙ omega arith in
      let inner : (depth == 0) ≡ false = ground arith in rw (down, end_capturing) (rw inner)
