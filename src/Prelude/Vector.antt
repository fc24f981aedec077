-- ===== src/Prelude/Vector.antt =====
-- A `Vec` that the program uses as a stack: `push`, `pop`, `last`, and indices from the bottom.
-- It is held as a list with the last element first.
use Prim.Native.Nat.{ℕ, zero, suc, ◌-◌, ◌<◌}
use mathlib.Core.Path.{◌≡◌, ap}
use native.Mathlib.Omega.{arith}
use mathlib.Core.Bool.{Bool, true, false}
use mathlib.Core.List.{List, [], ◌∷◌}
use mathlib.Core.Option.{Option, none, some}
use xml_oxidator.Prelude.Tests.{ltb, if◌then◌else◌}
use xml_oxidator.Prelude.Lists.{length, get_elem?, modify, drop}

abbrev pub Stack {ℓ} : Type ℓ → Type ℓ
Stack A = List A

module _ {ℓ} {A : Type ℓ} where
  -- v.last()
  abbrev pub last : Stack A → Option A
  last [] = none
  last (x ∷ v) = some x

  -- v.is_empty()
  abbrev pub is_empty : List A → Bool
  is_empty [] = true
  is_empty (x ∷ v) = false

  -- What `v.pop()` leaves.
  abbrev pub popped : Stack A → Stack A
  popped [] = []
  popped (x ∷ v) = v

  -- `if let Some(x) = v.last_mut() { f(x) }`
  abbrev pub modify_last : (A → A) → Stack A → Stack A
  modify_last f [] = []
  modify_last f (x ∷ v) = f x ∷ v

  -- v[i]; `none` is the panic of an index out of bounds.
  abbrev pub get_at : Stack A → ℕ → Option A
  get_at v i = if ltb i (length v) then get_elem? v (length v - suc i) else none

  -- What `f(&mut v[i])` leaves, in bounds.
  abbrev pub modify_at : Stack A → ℕ → (A → A) → Stack A
  modify_at v i f = modify v (length v - suc i) f

  -- v.pop().unwrap()
  abbrev pub pop : Stack A → Option (A × Stack A)
  pop [] = none
  pop (x ∷ v) = some (x, v)

  -- &v[..n]; `none` is the panic of an end out of bounds.
  abbrev pub prefix : Stack A → ℕ → Option (Stack A)
  prefix v n = if ltb (length v) n then none else some (drop (length v - n) v)

module _ {ℓ} {A : Type ℓ} where
  -- The element `k` places below the last one.
  pub get_at_top :
      (v : Stack A) (k : ℕ) → k < length v → get_at v (length v - suc k) ≡ get_elem? v k
  get_at_top v k h =
      let inside : ltb (length v - suc k) (length v) ≡ true = ground arith in
      let back : length v - suc (length v - suc k) ≡ k = omega arith in
      rw inside (ap (get_elem? v) back)

  -- A push changes no place below it.
  pub get_at-push : (x : A) (v : Stack A) (i : ℕ) → i < length v → get_at (x ∷ v) i ≡ get_at v i
  get_at-push x v i h =
      let inside : ltb i (length v) ≡ true = ground arith in
      let inside' : ltb i (suc (length v)) ≡ true = ground arith in
      let place : suc (length v) - suc i ≡ suc (length v - suc i) = omega arith in
      rw (inside, inside') (ap (get_elem? (x ∷ v)) place)

  pub get_at-push_top : (x : A) (v : Stack A) → get_at (x ∷ v) (length v) ≡ some x
  get_at-push_top x v =
      let inside : ltb (length v) (suc (length v)) ≡ true = ground arith in
      let place : suc (length v) - suc (length v) ≡ 0 = omega arith in
      rw inside (ap (get_elem? (x ∷ v)) place)

  -- The stack below the last element.
  pub prefix-push : (x : A) (v : Stack A) → prefix (x ∷ v) (length v) ≡ some v
  prefix-push x v =
      let inside : ltb (suc (length v)) (length v) ≡ false = ground arith in
      let one : suc (length v) - length v ≡ suc zero = omega arith in
      rw inside (ap (λ (n : ℕ). some (drop n (x ∷ v))) one)

  pub modify_at-push_top :
      (x : A) (v : Stack A) (f : A → A) → modify_at (x ∷ v) (length v) f ≡ f x ∷ v
  modify_at-push_top x v f =
      let place : suc (length v) - suc (length v) ≡ 0 = omega arith in
      ap (λ (n : ℕ). modify (x ∷ v) n f) place

  pub length-popped : (v : Stack A) → length (popped v) ≡ length v - 1
  length-popped [] = omega arith
  length-popped (x ∷ v) = omega arith
