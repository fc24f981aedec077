-- ===== src/Reader/Siblings/Trace.antt =====
-- The counters over a whole run (src/reader/parser.rs): the tags of the elements that have been
-- opened so far below each open element.
use mathlib.Core.Sum.{inr-injective}
use xml_oxidator.Prelude.{
  ℕ, suc, ◌≡◌, refl, sym, ap, ◌∙◌, List, [], ◌∷◌, ◌++◌, map, inl, inr, arith, Stack, length, popped,
  ok, OnOk-get, ◌⊎◌,
}
use xml_oxidator.Text.{Str}
use xml_oxidator.Text.Utf8.{from_utf8}
use xml_oxidator.Tree.Descriptor.{DescriptorTree}
use xml_oxidator.Rule.{Rule}
use xml_oxidator.Reader.Events.{BytesStart}
use xml_oxidator.Reader.Siblings.{
  Counters, hash_tag, sibling_index, sibling_counter_get_or_insert, length-sibling_index,
}
use xml_oxidator.Reader.Siblings.Count.{counted}
use xml_oxidator.Reader.Siblings.Opened.{Kept, Started, handle_start-Started}
use xml_oxidator.Reader.Siblings.Closed.{Ended, handle_end-Ended, handle_text-Kept}
use xml_oxidator.Reader.State.{ParserState, init}
use xml_oxidator.Reader.Start.{handle_start}
use xml_oxidator.Reader.End.{handle_end}
use xml_oxidator.Reader.Loop.{handle_text}

-- The number of elements that are open, for the counters.
abbrev pub height : ParserState → ℕ
height s = length s.sibling_counters

-- The tags of the children opened so far, for each open element, the last one opened first.
abbrev pub Tags : Type 0
Tags = Stack (List Str)

-- The children so far of the innermost open element. The root is no child.
abbrev pub siblings : Tags → List Str
siblings [] = []
siblings (earlier ∷ rest) = earlier

-- An element is opened: it is a child of the innermost one, and has no children.
abbrev pub enter : Str → Tags → Tags
enter name [] = [] ∷ []
enter name (earlier ∷ rest) = [] ∷ (earlier ++ name ∷ []) ∷ rest

module _ (X I : Type 0) {R : Type 0} ⦃rule : Rule R⦄ (t : DescriptorTree R) where
  -- The states that events lead to from the beginning, with the tags of the elements opened so far.
  -- An opening tag that opens an element makes the stack of counters higher, a closing tag that
  -- closes one makes it lower, and other events leave its height: text, and tags that are skipped or
  -- captured. An empty-element tag is an opening and a closing tag.
  pub data Trace : Tags → ParserState → Type 0 where
    began : Trace [] init
    opens :
        (tags : Tags) (s s' : ParserState) (tag : BytesStart X) (name : Str)
        → Trace tags s
        → from_utf8 tag.name ≡ inr name
        → handle_start {I = I} t tag s ≡ ok s'
        → height s' ≡ suc (height s)
        → Trace (enter name tags) s'
    closes :
        (tags : Tags) (s s' : ParserState)
        → Trace tags s
        → handle_end {X = X} {I = I} t s ≡ ok s'
        → suc (height s') ≡ height s
        → Trace (popped tags) s'
    passes_start :
        (tags : Tags) (s s' : ParserState) (tag : BytesStart X)
        → Trace tags s
        → handle_start {I = I} t tag s ≡ ok s'
        → height s' ≡ height s
        → Trace tags s'
    passes_end :
        (tags : Tags) (s s' : ParserState)
        → Trace tags s
        → handle_end {X = X} {I = I} t s ≡ ok s'
        → height s' ≡ height s
        → Trace tags s'
    passes_text :
        (tags : Tags) (s s' : ParserState) (decode : X ⊎ Str)
        → Trace tags s
        → handle_text {I = I} t decode s ≡ ok s'
        → Trace tags s'

-- The counters that a run with these tags leaves.
abbrev pub counters_of : List Str → Counters
counters_of earlier = counted [] (map hash_tag earlier)

abbrev pub all_counters : Tags → Stack Counters
all_counters [] = []
all_counters (earlier ∷ rest) = counters_of earlier ∷ all_counters rest

counted-snoc :
    (c : Counters) (hs : List ℕ) (h : ℕ)
    → counted c (hs ++ h ∷ []) ≡ (sibling_counter_get_or_insert (counted c hs) h).1
counted-snoc c [] h = refl
counted-snoc c (g ∷ hs) h = counted-snoc (sibling_counter_get_or_insert c g).1 hs h

map-snoc :
    (earlier : List Str) (name : Str)
    → map hash_tag (earlier ++ name ∷ []) ≡ map hash_tag earlier ++ hash_tag name ∷ []
map-snoc [] name = refl
map-snoc (x ∷ earlier) name = ap (λ (hs : List ℕ). hash_tag x ∷ hs) (map-snoc earlier name)

enter-counters :
    (name : Str) (tags : Tags)
    → all_counters (enter name tags) ≡ [] ∷ (sibling_index (all_counters tags) (hash_tag name)).1
unfolding sibling_index
enter-counters name [] = refl
enter-counters name (earlier ∷ rest) =
    ap (λ (c : Counters). [] ∷ c ∷ all_counters rest)
      (ap (counted []) (map-snoc earlier name)
        ∙ counted-snoc [] (map hash_tag earlier) (hash_tag name))

-- Only an empty stack is as high after a `pop`.
popped-level : {A : Type 0} (v : Stack A) → length (popped v) ≡ length v → popped v ≡ v
popped-level [] e = refl
popped-level (x ∷ v) e = absurd (omega arith)

popped-counters : (tags : Tags) → all_counters (popped tags) ≡ popped (all_counters tags)
popped-counters [] = refl
popped-counters (earlier ∷ rest) = refl

module _ (X I : Type 0) {R : Type 0} ⦃rule : Rule R⦄ (t : DescriptorTree R) where
  -- The counters of a state are made of the tags of the elements opened so far, and of nothing else:
  -- those of other parents are left out, and a closed element leaves nothing behind.
  pub Trace-counters :
      (tags : Tags) (s : ParserState) → Trace X I t tags s → s.sibling_counters ≡ all_counters tags
  Trace-counters _ _ began = refl
  Trace-counters _ _ (opens tags s s' tag name before valid ran higher) =
      elim (OnOk-get (Started tag s) _ s' (handle_start-Started X I t tag s) ran) [
        | inl kept ↦ absurd (omega (arith, ap length kept))
        | inr (name', valid', opened) ↦
            let same : name' ≡ name = inr-injective _ _ (sym valid' ∙ valid) in
            let told = Trace-counters tags s before in
            opened.counters ∙ rw (same, told) (sym (enter-counters name tags))
      ]
  Trace-counters _ _ (closes tags s s' before ran lower) =
      elim (OnOk-get (Ended s) _ s' (handle_end-Ended X I t s) ran) [
        | inl kept ↦ absurd (omega (arith, ap length kept))
        | inr left ↦ left ∙ ap popped (Trace-counters tags s before) ∙ sym (popped-counters tags)
      ]
  Trace-counters _ _ (passes_start tags s s' tag before ran level) =
      elim (OnOk-get (Started tag s) _ s' (handle_start-Started X I t tag s) ran) [
        | inl kept ↦ kept ∙ Trace-counters tags s before
        | inr (name, valid, opened) ↦ absurd (
            omega (
              arith,
              ap length opened.counters,
              length-sibling_index s.sibling_counters (hash_tag name),
            ))
      ]
  Trace-counters _ _ (passes_end tags s s' before ran level) =
      elim (OnOk-get (Ended s) _ s' (handle_end-Ended X I t s) ran) [
        | inl kept ↦ kept ∙ Trace-counters tags s before
        | inr left ↦
            left
            ∙ popped-level s.sibling_counters (sym (ap length left) ∙ level)
            ∙ Trace-counters tags s before
      ]
  Trace-counters _ _ (passes_text tags s s' decode before ran) =
      OnOk-get (Kept s.sibling_counters) _ s' (handle_text-Kept X I t decode s) ran
      ∙ Trace-counters tags s before
