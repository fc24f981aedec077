-- ===== src/Reader/Siblings/Count.antt =====
-- The index of an element counts the earlier siblings whose tags have its hash.
use xml_oxidator.Prelude.{
  ℕ, ◌+◌, ◌%◌, ◌^◌, ◌<◌, ◌≡◌, refl, ◌∙◌, List, [], ◌∷◌, ◌==◌, ==_iff, inl, inr, Bool-cases, add_u32,
  if◌then◌else◌, arith,
}
use xml_oxidator.Reader.Siblings.{Counters, sibling_counter_get_or_insert}

-- What the counters hold for a hash.
abbrev pub lookup : Counters → ℕ → ℕ
lookup [] g = 0
lookup ((h, n) ∷ rest) g = if h == g then n else lookup rest g

-- The occurrences of a hash among those of the earlier siblings.
abbrev pub count : ℕ → List ℕ → ℕ
count g [] = 0
count g (h ∷ hs) = (if h == g then 1 else 0) + count g hs

-- The counters after some siblings.
abbrev pub counted : Counters → List ℕ → Counters
counted c [] = c
counted c (h ∷ hs) = counted (sibling_counter_get_or_insert c h).1 hs

get_or_insert-lookup : (c : Counters) (h : ℕ) → (sibling_counter_get_or_insert c h).0 ≡ lookup c h
unfolding sibling_counter_get_or_insert
get_or_insert-lookup [] h = refl
get_or_insert-lookup ((g, n) ∷ rest) h = elim (Bool-cases (g == h)) [
  | inl same ↦ rw same
  | inr other ↦ rw other (get_or_insert-lookup rest h)
]

lookup-get_or_insert :
    (c : Counters) (h g : ℕ)
    → lookup (sibling_counter_get_or_insert c h).1 g
      ≡ (if h == g then (lookup c h + 1) % 2 ^ 32 else lookup c g)
unfolding sibling_counter_get_or_insert add_u32
lookup-get_or_insert [] h g = ground arith
lookup-get_or_insert ((f, n) ∷ rest) h g = ground (arith, lookup-get_or_insert rest h g)

lookup-counted :
    (c : Counters) (hs : List ℕ) (g : ℕ)
    → lookup c g < 2 ^ 32
    → lookup (counted c hs) g ≡ (lookup c g + count g hs) % 2 ^ 32
lookup-counted c [] g l = omega arith
lookup-counted c (h ∷ hs) g l =
    let next = (sibling_counter_get_or_insert c h).1 in
    let step = lookup-get_or_insert c h g in
    elim (Bool-cases (h == g)) [
      | inl same ↦
          let equal : h ≡ g = (==_iff h g).0 same in
          let now : lookup next g ≡ (lookup c g + 1) % 2 ^ 32 = step ∙ rw (same, equal) in
          lookup-counted next hs g (omega arith) ∙ rw same (omega arith)
      | inr other ↦
          let now : lookup next g ≡ lookup c g = step ∙ rw other in
          lookup-counted next hs g (omega arith) ∙ rw other (omega arith)
    ]

-- The index that an element gets is the number of the earlier siblings whose tags have its hash,
-- modulo 2^32.
pub sibling_counter-count :
    (earlier : List ℕ) (h : ℕ)
    → (sibling_counter_get_or_insert (counted [] earlier) h).0 ≡ count h earlier % 2 ^ 32
sibling_counter-count earlier h =
    get_or_insert-lookup (counted [] earlier) h
    ∙ lookup-counted [] earlier h (omega arith)
    ∙ omega arith
