-- ===== src/Reader/Events.antt =====
-- What `quick_xml::Reader` returns, and src/reader/parser.rs, `parse_attributes_into`. `X` is
-- `quick_xml::Error`: each fallible call of that library carries its result in the event.
use xml_oxidator.Prelude.{
  ℕ, ◌⊎◌, inl, inr, List, [], ◌∷◌, ◌++◌, Outcome, ok, err, ◌>>=◌, from_result,
}
use xml_oxidator.Text.{Str}
use xml_oxidator.Text.Utf8.{from_utf8}
use xml_oxidator.Errors.{ReaderError, xml_parse, utf8}
use xml_oxidator.View.Summary.{Attrs}

-- An opening tag: the bytes of its name, and what its attribute iterator yields.
pub record BytesStart (X : Type 0) : Type 0 where
  pub name : List ℕ
  pub attributes : List (X ⊎ (List ℕ × List ℕ))

-- `Event::Eof` is the end of the list of events.
pub data Event (X : Type 0) : Type 0 where
  start : BytesStart X → Event X
  close : Event X
  -- the result of `decode`
  text : X ⊎ Str → Event X
  empty : BytesStart X → Event X
  -- comments, declarations, processing instructions, ...
  other : Event X

module _ {X I : Type 0} where
  unfoldable pub read_attributes :
      List (X ⊎ (List ℕ × List ℕ)) → Attrs → Outcome (ReaderError X I) Attrs
  read_attributes [] out = ok out
  read_attributes (inl x ∷ rest) out = err (xml_parse x)
  read_attributes (inr (k, v) ∷ rest) out = do
    key ← from_result utf8 (from_utf8 k)
    value ← from_result utf8 (from_utf8 v)
    read_attributes rest (out ++ (key, value) ∷ [])

  unfoldable pub parse_attributes_into : BytesStart X → Attrs → Outcome (ReaderError X I) Attrs
  unfolding read_attributes
  parse_attributes_into tag out = read_attributes tag.attributes out
