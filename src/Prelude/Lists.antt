-- ===== src/Prelude/Lists.antt =====
-- Lists measured and indexed by native numbers, under the library's names.
use Prim.Native.Nat.{ℕ, zero, suc, ◌+◌, ◌≤◌, ◌<◌}
use mathlib.Core.Path.{◌≡◌, refl, ap}
use mathlib.Core.List.{List, [], ◌∷◌, ◌++◌, map}
use mathlib.Core.Logic.{◌⊎◌, ◌≢◌, inl, inr}
use mathlib.Core.Option.{Option, none, some, some-injective}
use native.Mathlib.Omega.{arith}

module _ {ℓ} {A : Type ℓ} where
  abbrev pub length : List A → ℕ
  length [] = 0
  length (x ∷ xs) = suc (length xs)

  abbrev pub get_elem? : List A → ℕ → Option A
  get_elem? [] i = none
  get_elem? (x ∷ xs) zero = some x
  get_elem? (x ∷ xs) (suc i) = get_elem? xs i

  -- A write out of bounds changes nothing.
  abbrev pub modify : List A → ℕ → (A → A) → List A
  modify [] i f = []
  modify (x ∷ xs) zero f = f x ∷ xs
  modify (x ∷ xs) (suc i) f = x ∷ modify xs i f

  abbrev pub drop : ℕ → List A → List A
  drop zero xs = xs
  drop (suc n) [] = []
  drop (suc n) (x ∷ xs) = drop n xs

module _ {ℓ} {A : Type ℓ} where
  pub length-append : (xs ys : List A) → length (xs ++ ys) ≡ length xs + length ys
  length-append [] ys = omega arith
  length-append (x ∷ xs) ys = omega (arith, length-append xs ys)

  pub length-modify : (xs : List A) (i : ℕ) (f : A → A) → length (modify xs i f) ≡ length xs
  length-modify [] i f = refl
  length-modify (x ∷ xs) zero f = refl
  length-modify (x ∷ xs) (suc i) f = ap suc (length-modify xs i f)

  pub get_elem?-lt : (xs : List A) (i : ℕ) → i < length xs → (x : A) × (get_elem? xs i ≡ some x)
  get_elem?-lt [] i h = elim h [ ]
  get_elem?-lt (x ∷ xs) zero h = (x, refl)
  get_elem?-lt (x ∷ xs) (suc i) h = get_elem?-lt xs i (omega arith)

  pub get_elem?-ge : (xs : List A) (i : ℕ) → length xs ≤ i → get_elem? xs i ≡ none
  get_elem?-ge [] i h = refl
  get_elem?-ge (x ∷ xs) zero h = absurd (omega arith)
  get_elem?-ge (x ∷ xs) (suc i) h = get_elem?-ge xs i (omega arith)

  pub length-map {κ} : {B : Type κ} (xs : List A) (f : A → B) → length (map f xs) ≡ length xs
  length-map [] f = refl
  length-map (x ∷ xs) f = ap suc (length-map xs f)

  -- What stands in a list stands there after an append, and the new last element is at the length.
  pub get_elem?-append :
      (xs ys : List A) (i : ℕ) {x : A} → get_elem? xs i ≡ some x → get_elem? (xs ++ ys) i ≡ some x
  get_elem?-append [] ys i e = cc
  get_elem?-append (x ∷ xs) ys zero e = e
  get_elem?-append (x ∷ xs) ys (suc i) e = get_elem?-append xs ys i e

  pub get_elem?-snoc_inv :
      (xs : List A) (y : A) (i : ℕ) {x : A}
      → get_elem? (xs ++ y ∷ []) i ≡ some x
      → (get_elem? xs i ≡ some x) ⊎ ((i ≡ length xs) × (y ≡ x))
  get_elem?-snoc_inv [] y zero {x} e = inr (refl, some-injective _ _ e)
  get_elem?-snoc_inv [] y (suc i) e = cc
  get_elem?-snoc_inv (z ∷ xs) y zero e = inl e
  get_elem?-snoc_inv (z ∷ xs) y (suc i) e = elim (get_elem?-snoc_inv xs y i e) [
    | inl h ↦ inl h
    | inr (l, h) ↦ inr (ap suc l, h)
  ]

  pub get_elem?-bound : (xs : List A) (i : ℕ) {x : A} → get_elem? xs i ≡ some x → i < length xs
  get_elem?-bound [] i e = cc
  get_elem?-bound (y ∷ xs) zero e = omega arith
  get_elem?-bound (y ∷ xs) (suc i) e = omega (arith, get_elem?-bound xs i e)

  pub get_elem?-map {κ} :
      {B : Type κ} (f : A → B) (xs : List A) (i : ℕ) {x : A}
      → get_elem? xs i ≡ some x
      → get_elem? (map f xs) i ≡ some (f x)
  get_elem?-map f [] i e = cc
  get_elem?-map f (y ∷ xs) zero e = ap (λ (z : A). some (f z)) (some-injective _ _ e)
  get_elem?-map f (y ∷ xs) (suc i) e = get_elem?-map f xs i e

  pub get_elem?-map_inv {κ} :
      {B : Type κ} (f : A → B) (xs : List A) (i : ℕ) {y : B}
      → get_elem? (map f xs) i ≡ some y
      → (x : A) × (get_elem? xs i ≡ some x) × (f x ≡ y)
  get_elem?-map_inv f [] i e = cc
  get_elem?-map_inv f (x ∷ xs) zero e = (x, refl, some-injective _ _ e)
  get_elem?-map_inv f (x ∷ xs) (suc i) e = get_elem?-map_inv f xs i e

  -- A write that keeps what `f` sees of each element keeps the list of what it sees.
  pub map-modify {κ} :
      {B : Type κ} (f : A → B) (g : A → A)
      → ((x : A) → f (g x) ≡ f x)
      → (xs : List A) (i : ℕ) → map f (modify xs i g) ≡ map f xs
  map-modify f g h [] i = refl
  map-modify f g h (x ∷ xs) zero = rw (h x)
  map-modify f g h (x ∷ xs) (suc i) = rw (map-modify f g h xs i)

  -- Where the element that stands in a list after a write comes from.
  pub get_elem?-modify_inv :
      (xs : List A) (q : ℕ) (f : A → A) (p : ℕ) {y : A}
      → get_elem? (modify xs q f) p ≡ some y
      → (x : A) × (get_elem? xs p ≡ some x) × (((p ≡ q) × (f x ≡ y)) ⊎ ((p ≢ q) × (x ≡ y)))
  get_elem?-modify_inv [] q f p e = cc
  get_elem?-modify_inv (x ∷ xs) zero f zero e = (x, refl, inl (refl, some-injective _ _ e))
  get_elem?-modify_inv (x ∷ xs) zero f (suc p) {y} e = (y, e, inr ((λ h. omega arith), refl))
  get_elem?-modify_inv (x ∷ xs) (suc q) f zero e =
      (x, refl, inr ((λ h. omega arith), some-injective _ _ e))
  get_elem?-modify_inv (x ∷ xs) (suc q) f (suc p) e =
      let (z, at_p, how) = get_elem?-modify_inv xs q f p e in
      (
        z,
        at_p,
        elim how [
          | inl (same, written) ↦ inl (ap suc same, written)
          | inr (other, kept) ↦ inr ((λ h. other (omega arith)), kept)
        ],
      )
