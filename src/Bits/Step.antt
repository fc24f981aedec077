-- ===== src/Bits/Step.antt =====
-- `|` and `&` from the lower halves up: one equation for the lowest bit, with no fuel.
use Prim.Native.Nat.{min, max, bit_and, bit_or, digits, bit_and-bitwise, bit_or-bitwise}
use xml_oxidator.Prelude.{ℕ, zero, suc, ◌+◌, ◌*◌, ◌/◌, ◌%◌, ◌≤◌, ◌≡◌, refl, arith}

module _ (rest : ℕ → ℕ) (f : ℕ → ℕ → ℕ) where
  nothing_left : (n b : ℕ) → digits rest f n 0 b ≡ rest b
  nothing_left zero b = refl
  nothing_left (suc n) b = refl

  -- More fuel than digits changes nothing.
  enough : (a b n k : ℕ) → a ≤ n → n ≤ k → digits rest f k a b ≡ digits rest f n a b
  enough zero b n k h g = rw (nothing_left n b, nothing_left k b)
  enough (suc a) b zero k h g = absurd (omega arith)
  enough (suc a) b (suc n) zero h g = absurd (omega arith)
  enough (suc a) b (suc n) (suc k) h g =
      rw (enough (suc a / 2) (b / 2) n k (omega arith) (omega arith))

  -- `a` itself is fuel enough for `suc a`'s half.
  halve :
      (a b : ℕ)
      → digits rest f (suc a) (suc a) b
        ≡ digits rest f (suc a / 2) (suc a / 2) (b / 2) * 2 + f (suc a % 2) (b % 2)
  halve a b = rw (enough (suc a / 2) (b / 2) (suc a / 2) a (omega arith) (omega arith))

pub or_halves : (a b : ℕ) → bit_or a b ≡ bit_or (a / 2) (b / 2) * 2 + max (a % 2) (b % 2)
or_halves zero b = simp bit_or-bitwise (omega arith)
or_halves (suc a) b = simp bit_or-bitwise (halve (λ y. y) max a b)

pub and_halves : (a b : ℕ) → bit_and a b ≡ bit_and (a / 2) (b / 2) * 2 + min (a % 2) (b % 2)
and_halves zero b = simp bit_and-bitwise (omega arith)
and_halves (suc a) b = simp bit_and-bitwise (halve (λ y. 0) min a b)
