-- ===== src/Reader/Siblings.antt =====
-- src/reader/parser.rs, `hash_tag` and the sibling counters.
pub mod Count
pub mod Opened
pub mod Closed
pub mod Trace
pub mod Index
pub mod Complete
pub mod Tests
use Prim.Native.Nat.{bit_xor}
use mathlib.Core.List.{foldl}
use xml_oxidator.Prelude.{
  ℕ, ◌≡◌, refl, List, [], ◌∷◌, Stack, length, mul_u64, add_u32, ◌==◌, if◌then◌else◌,
}
use xml_oxidator.Text.{Str, str}

-- 64-bit FNV-1a over the bytes of the tag.
unfoldable pub hash_tag : Str → ℕ
unfolding mul_u64
hash_tag tag = foldl (λ h b. mul_u64 (bit_xor h b) 0x100000001b3) 0xcbf29ce484222325 tag

-- Counts by hash, in the order of first use.
abbrev pub Counters : Type 0
Counters = List (ℕ × ℕ)

unfoldable pub sibling_counter_get_or_insert : Counters → ℕ → ℕ × Counters
unfolding add_u32
sibling_counter_get_or_insert [] tag_hash = (0, (tag_hash, 1) ∷ [])
sibling_counter_get_or_insert ((h, n) ∷ rest) tag_hash =
    let (idx, rest') = sibling_counter_get_or_insert rest tag_hash in
    if h == tag_hash then (n, (h, add_u32 n 1) ∷ rest) else (idx, (h, n) ∷ rest')

-- The index among siblings, from the counters of the enclosing element; 0 without one.
unfoldable pub sibling_index : Stack Counters → ℕ → ℕ × Stack Counters
unfolding sibling_counter_get_or_insert
sibling_index [] tag_hash = (0, [])
sibling_index (counters ∷ rest) tag_hash =
    let (idx, counters') = sibling_counter_get_or_insert counters tag_hash in
    (idx, counters' ∷ rest)

hash_tag_runs : hash_tag (str "a") ≡ 0xaf63dc4c8601ec8c
unfolding hash_tag
hash_tag_runs = refl

-- Counting an element keeps the stack of counters.
pub length-sibling_index :
    (stack : Stack Counters) (h : ℕ) → length (sibling_index stack h).1 ≡ length stack
unfolding sibling_index
length-sibling_index [] h = refl
length-sibling_index (counters ∷ rest) h = refl
