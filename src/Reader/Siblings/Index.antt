-- ===== src/Reader/Siblings/Index.antt =====
-- The index that `handle_start` gives an element, in a run (src/reader/parser.rs).
use xml_oxidator.Prelude.{ℕ, ◌+◌, ◌≡◌, ◌≢◌, ◌⊎◌, List, [], ◌∷◌, if◌then◌else◌}
use xml_oxidator.Text.{Str, str_eq}
use xml_oxidator.Rule.{Rule}
use xml_oxidator.Reader.Siblings.{hash_tag}
use xml_oxidator.Reader.Siblings.Trace.{Trace}

-- How many texts are the given one.
abbrev pub occurrences : Str → List Str → ℕ
occurrences name [] = 0
occurrences name (x ∷ xs) = (if str_eq x name then 1 else 0) + occurrences name xs

-- No other tag among these has the hash of the given one.
abbrev pub NoCollision : Str → List Str → Type 0
NoCollision name [] = Unit
NoCollision name (x ∷ xs) = (hash_tag x ≢ hash_tag name ⊎ (x ≡ name)) × NoCollision name xs
