-- ===== src/Bits.antt =====
-- The bits of a number: `(x >> i) & 1`, and what `|`, `&` and a single shifted bit do to them.
mod Step
use Step.{or_halves, and_halves}
use Prim.Native.Nat.{min, max, bit_and, bit_or}
use native.Mathlib.Nat.{pow-suc, div-div-eq-div-mul, div-one, mul_comm, one-le-pow}
use xml_oxidator.Prelude.{
  ℕ, zero, suc, ◌+◌, ◌-◌, ◌*◌, ◌/◌, ◌%◌, ◌^◌, ◌≤◌, ◌<◌, ◌≡◌, refl, ap, ◌∙◌, ◌≢◌, ◌↔◌, arith, ◌==◌,
  if◌then◌else◌,
}

abbrev pub bit : ℕ → ℕ → ℕ
bit x i = x / 2 ^ i % 2

-- The bits of `x` above the lowest are the bits of `x / 2`.
pub bit-suc : (x i : ℕ) → bit x (suc i) ≡ bit (x / 2) i
bit-suc x i =
    ap (λ (q : ℕ). q % 2) (rw (pow-suc 2 i, mul_comm (2 ^ i) 2, ← div-div-eq-div-mul x 2 (2 ^ i)))

pub bit-zero : (x : ℕ) → bit x 0 ≡ x % 2
bit-zero x = omega arith

pub bit-of_zero : (i : ℕ) → bit 0 i ≡ 0
bit-of_zero zero = refl
bit-of_zero (suc i) = rw (bit-suc 0 i) (bit-of_zero i)

pub bit-lt : (x i : ℕ) → bit x i < 2
bit-lt x i = omega arith

pub bit-bit_or : (a b i : ℕ) → bit (bit_or a b) i ≡ max (bit a i) (bit b i)
bit-bit_or a b zero = omega (arith, or_halves a b)
bit-bit_or a b (suc i) =
    let halves : bit_or a b / 2 ≡ bit_or (a / 2) (b / 2) = omega (arith, or_halves a b) in
    rw (bit-suc (bit_or a b) i, bit-suc a i, bit-suc b i, halves) (bit-bit_or (a / 2) (b / 2) i)

pub bit-pow_self : (i : ℕ) → bit (2 ^ i) i ≡ 1
bit-pow_self zero = refl
bit-pow_self (suc i) =
    let half : 2 ^ suc i / 2 ≡ 2 ^ i = omega (arith, pow-suc 2 i) in
    rw (bit-suc (2 ^ suc i) i, half) (bit-pow_self i)

pub bit-pow_ne : (i j : ℕ) → i ≢ j → bit (2 ^ i) j ≡ 0
bit-pow_ne zero zero h = absurd (h refl)
bit-pow_ne zero (suc j) h = rw (bit-suc 1 j) (bit-of_zero j)
bit-pow_ne (suc i) zero h = omega (arith, pow-suc 2 i)
bit-pow_ne (suc i) (suc j) h =
    let half : 2 ^ suc i / 2 ≡ 2 ^ i = omega (arith, pow-suc 2 i) in
    rw (bit-suc (2 ^ suc i) j, half) (bit-pow_ne i j (λ e. h (ap suc e)))

bit_and-zero_below : (n x : ℕ) → x ≤ n → bit_and x 0 ≡ 0
bit_and-zero_below n zero h = refl
bit_and-zero_below zero (suc x) h = absurd (omega arith)
bit_and-zero_below (suc n) (suc x) h =
    omega (arith, and_halves (suc x) 0, bit_and-zero_below n (suc x / 2) (omega arith))

bit_and-zero : (x : ℕ) → bit_and x 0 ≡ 0
bit_and-zero x = bit_and-zero_below x x (omega arith)

-- A test of a single bit.
pub bit_and-pow : (x i : ℕ) → bit_and x (2 ^ i) ≡ bit x i * 2 ^ i
bit_and-pow x zero = omega (arith, and_halves x 1, bit_and-zero (x / 2))
bit_and-pow x (suc i) =
    let half : 2 ^ suc i / 2 ≡ 2 ^ i = omega (arith, pow-suc 2 i) in
    let low : 2 ^ suc i % 2 ≡ 0 = omega (arith, pow-suc 2 i) in
    rw (and_halves x (2 ^ suc i), half, low, bit_and-pow (x / 2) i, bit-suc x i, pow-suc 2 i)
      (omega arith)

mask_halves : (k x : ℕ) → bit_and x (2 ^ suc k - 1) ≡ bit_and (x / 2) (2 ^ k - 1) * 2 + x % 2
mask_halves k x =
    let half : (2 ^ suc k - 1) / 2 ≡ 2 ^ k - 1 = omega (arith, pow-suc 2 k, one-le-pow k 2) in
    let odd : (2 ^ suc k - 1) % 2 ≡ 1 = omega (arith, pow-suc 2 k, one-le-pow k 2) in
    rw (and_halves x (2 ^ suc k - 1), half, odd) (omega arith)

bit_and-mask_low : (k x : ℕ) → bit_and x (2 ^ suc k - 1) ≡ 2 ^ suc k - 1 → bit x 0 ≡ 1
bit_and-mask_low k x h = omega (arith, mask_halves k x, pow-suc 2 k, one-le-pow k 2)

bit_and-mask_high :
    (k x : ℕ) → bit_and x (2 ^ suc k - 1) ≡ 2 ^ suc k - 1 → bit_and (x / 2) (2 ^ k - 1) ≡ 2 ^ k - 1
bit_and-mask_high k x h = omega (arith, mask_halves k x, pow-suc 2 k, one-le-pow k 2)

bits_of_mask : (k x : ℕ) → bit_and x (2 ^ k - 1) ≡ 2 ^ k - 1 → (i : ℕ) → i < k → bit x i ≡ 1
bits_of_mask zero x h i l = absurd (omega arith)
bits_of_mask (suc k) x h zero l = bit_and-mask_low k x h
bits_of_mask (suc k) x h (suc i) l =
    rw (bit-suc x i) (bits_of_mask k (x / 2) (bit_and-mask_high k x h) i (omega arith))

mask_of_bits : (k x : ℕ) → ((i : ℕ) → i < k → bit x i ≡ 1) → bit_and x (2 ^ k - 1) ≡ 2 ^ k - 1
mask_of_bits zero x h = bit_and-zero x
mask_of_bits (suc k) x h = omega (
  arith,
  mask_halves k x,
  pow-suc 2 k,
  one-le-pow k 2,
  h 0 (omega arith),
  mask_of_bits k (x / 2) (λ i l. rw (← bit-suc x i) (h (suc i) (omega arith))),
)

-- A mask of `k` low bits is covered exactly when each of them is set.
pub bit_and-mask_iff :
    (k x : ℕ) → (bit_and x (2 ^ k - 1) ≡ 2 ^ k - 1) ↔ ((i : ℕ) → i < k → bit x i ≡ 1)
bit_and-mask_iff k x = (bits_of_mask k x, mask_of_bits k x)
