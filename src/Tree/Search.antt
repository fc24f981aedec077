-- ===== src/Tree/Search.antt =====
-- `slice::binary_search_by` of the standard library, which `child_of` calls: the window is halved
-- until one element is left. Its size starts at the length, which is fuel enough.
use Prim.Native.Nat.{Ordering}
use xml_oxidator.Prelude.{
  ℕ, zero, suc, ◌+◌, ◌-◌, ◌/◌, ◌≤◌, ◌<◌, ◌≡◌, subst, inl, inr, Bool, true, false, List, Option,
  none, some, arith, ltb, length, get_elem?, Bool-cases, if◌then◌else◌,
}

-- `cmp == Greater` at place `i`
abbrev pub after {ℓ} : {A : Type ℓ} → (A → Ordering) → List A → ℕ → Bool
after f xs i = elim (get_elem? xs i) [
  | none ↦ true
  | some x ↦ elim (f x) [ Ordering.gt ↦ true | _ ↦ false ]
]

-- The base of the last window.
halve {ℓ} : {A : Type ℓ} → ℕ → (A → Ordering) → List A → ℕ → ℕ → ℕ
halve zero f xs size base = base
halve (suc fuel) f xs size base =
    let half = size / 2 in
    let rest =
      halve fuel f xs (size - half) (if after f xs (base + half) then base else base + half) in
    if ltb 1 size then rest else base

-- `Ok(base)` if the element there matches. `Err` is `none`: the program drops the place of insertion.
matching {ℓ} : {A : Type ℓ} → (A → Ordering) → List A → ℕ → Option ℕ
matching f xs base = elim (get_elem? xs base) [
  | none ↦ none
  | some x ↦ elim (f x) [ Ordering.eq ↦ some base | _ ↦ none ]
]

unfoldable pub binary_search_by {ℓ} : {A : Type ℓ} → (A → Ordering) → List A → Option ℕ
unfolding halve matching
binary_search_by f xs = matching f xs (halve (length xs) f xs (length xs) 0)

module _ {ℓ} {A : Type ℓ} (f : A → Ordering) (xs : List A) where
  matching-base : (b i : ℕ) → matching f xs b ≡ some i → b ≡ i
  unfolding matching
  matching-base b i h = ground arith

  matching-hit :
      (b : ℕ) {i : ℕ}
      → matching f xs b ≡ some i
      → (x : A) × (get_elem? xs b ≡ some x) × (f x ≡ Ordering.eq)
  unfolding matching
  matching-hit b h = ground arith

  -- What is found is a match.
  pub binary_search_by_sound :
      (i : ℕ)
      → binary_search_by f xs ≡ some i
      → (x : A) × (get_elem? xs i ≡ some x) × (f x ≡ Ordering.eq)
  unfolding binary_search_by
  binary_search_by_sound i h =
      let base = halve (length xs) f xs (length xs) 0 in
      let (x, at_base, hit) = matching-hit base h in
      (x, subst (λ b. get_elem? xs b ≡ some x) (matching-base base i h) at_base, hit)

  -- `t` splits the list: what comes before is not greater, what comes after is.
  module _ (t : ℕ) (below : (i : ℕ) → i ≤ t → after f xs i ≡ false)
      (above : (i : ℕ) → t < i → after f xs i ≡ true) where
    halve_finds :
        (fuel size base : ℕ)
        → size ≤ fuel
        → base ≤ t
        → t < base + size
        → halve fuel f xs size base ≡ t
    unfolding halve
    halve_finds zero size base s l u = omega arith
    halve_finds (suc fuel) size base s l u = elim (Bool-cases (ltb 1 size)) [
      | inr small ↦ rw small (ground arith)
      | inl big ↦ rw big (elim (Bool-cases (ltb t (base + size / 2))) [
        | inl left ↦
            rw (above (base + size / 2) (ground arith))
              (halve_finds fuel (size - size / 2) base (ground arith) l (ground arith))
        | inr right ↦ rw (below (base + size / 2) (ground arith)) (
            halve_finds fuel (size - size / 2) (base + size / 2) (ground arith) (ground arith)
              (ground arith))
      ])
    ]

    pub binary_search_by_complete :
        (x : A)
        → get_elem? xs t ≡ some x
        → f x ≡ Ordering.eq
        → t < length xs
        → binary_search_by f xs ≡ some t
    unfolding binary_search_by
    binary_search_by_complete x e m l =
        rw (halve_finds (length xs) (length xs) 0 (omega arith) (omega arith) (omega arith))
          (ground arith)
