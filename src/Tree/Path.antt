-- ===== src/Tree/Path.antt =====
-- src/tree/path.rs: path segments, node ids and the printed path.
use xml_oxidator.Prelude.{ℕ, ◌%◌, ◌^◌, ◌≡◌, refl, List, [], ◌∷◌, ◌++◌}
use xml_oxidator.Text.{Str, str}

-- `PathSegment(Arc<str>)`: a segment compares, orders, hashes and prints as its text does.
abbrev pub PathSegment : Type 0
PathSegment = Str

-- `NodeId(u32)`: an index into the node array.
abbrev pub NodeId : Type 0
NodeId = ℕ

-- i as u32
unfoldable pub as_u32 : ℕ → ℕ
as_u32 i = i % 2 ^ 32

-- segments.join("/")
unfoldable pub format_path : List PathSegment → Str
format_path [] = []
format_path (s ∷ []) = s
format_path (s ∷ t ∷ rest) = s ++ (b'/' ∷ format_path (t ∷ rest))

format_path_three : format_path (str "root" ∷ str "a" ∷ str "b" ∷ []) ≡ str "root/a/b"
unfolding format_path
format_path_three = refl
