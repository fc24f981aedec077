-- ===== src/View/Results.antt =====
-- src/view.rs, `RuleResults`: pass and fail of up to 64 rules as the bits of a `u64`.
use Prim.Native.Nat.{bit_and, bit_or}
use xml_oxidator.Prelude.{
  ℕ, ◌-◌, ◌/◌, ◌%◌, ◌^◌, ◌≤◌, ◌<◌, ◌≡◌, ap, ◌∙◌, ◌↔◌, inl, inr, Bool, true, false, ◌||◌, ◌&&◌,
  Bool-cases, arith, leb, ◌==◌, ==_iff, if◌then◌else◌,
}
use xml_oxidator.Bits.{bit, bit-lt, bit-bit_or, bit-pow_self, bit-pow_ne, bit_and-mask_iff}

-- `RuleResults(u64)`
abbrev pub RuleResults : Type 0
RuleResults = ℕ

abbrev pub no_results : RuleResults
no_results = 0

-- A shift by 64 or more is reduced modulo 64 in a release build.
unfoldable pub set : RuleResults → ℕ → Bool → RuleResults
set r index passed = if passed then bit_or r (2 ^ (index % 64)) else r

unfoldable pub get : RuleResults → ℕ → Bool
get r index = r / 2 ^ (index % 64) % 2 == 1

unfoldable pub all_passed : RuleResults → ℕ → Bool
all_passed r count =
    let mask = if leb 64 count then 2 ^ 64 - 1 else 2 ^ count - 1 in bit_and r mask == mask

get-bit : (r : RuleResults) (i : ℕ) → i < 64 → get r i ≡ (bit r i == 1)
unfolding get
get-bit r i h = let small : i % 64 ≡ i = omega arith in ap (λ (k : ℕ). r / 2 ^ k % 2 == 1) small

set-true : (r : RuleResults) (i : ℕ) → i < 64 → set r i true ≡ bit_or r (2 ^ i)
unfolding set
set-true r i h = let small : i % 64 ≡ i = omega arith in ap (λ (k : ℕ). bit_or r (2 ^ k)) small

bit-pow : (i j : ℕ) → bit (2 ^ i) j ≡ (if i == j then 1 else 0)
bit-pow i j = elim (Bool-cases (i == j)) [
  | inl same ↦ rw (same, (==_iff i j).0 same) (bit-pow_self j)
  | inr other ↦ rw other (bit-pow_ne i j (λ e. ground arith))
]

-- Below 64, reading after writing: a write adds to its own place and changes no other.
pub get-set :
    (r : RuleResults) (i j : ℕ) (passed : Bool)
    → i < 64
    → j < 64
    → get (set r i passed) j ≡ (get r j || (passed && i == j))
get-set r i j false hi hj = unfold set in ground arith
get-set r i j true hi hj =
    rw
      (
        set-true r i hi,
        get-bit (bit_or r (2 ^ i)) j hj,
        get-bit r j hj,
        bit-bit_or r (2 ^ i) j,
        bit-pow i j,
      )
      (ground (arith, bit-lt r j))

-- A write at any number is one at the number modulo 64.
pub get-set_wrapped :
    (r : RuleResults) (i j : ℕ) (passed : Bool)
    → j < 64
    → get (set r i passed) j ≡ (get r j || (passed && i % 64 == j))
get-set_wrapped r i j passed h =
    let same : i % 64 ≡ i % 64 % 64 = omega arith in
    let wrapped : set r i passed ≡ set r (i % 64) passed =
      unfold set in ap (λ (m : ℕ). if passed then bit_or r (2 ^ m) else r) same in
    ap (λ (z : RuleResults). get z j) wrapped ∙ get-set r (i % 64) j passed (omega arith) h

all_passed-mask :
    (r : RuleResults) (count : ℕ)
    → count ≤ 64
    → all_passed r count ≡ (bit_and r (2 ^ count - 1) == 2 ^ count - 1)
unfolding all_passed
all_passed-mask r count h = elim (Bool-cases (leb 64 count)) [
  | inl full ↦ let e : count ≡ 64 = ground arith in rw (full, e)
  | inr less ↦ rw less
]

-- Of up to 64 rules, `all_passed` says that each of them passed.
pub all_passed_iff :
    (r : RuleResults) (count : ℕ)
    → count ≤ 64
    → (all_passed r count ≡ true) ↔ ((i : ℕ) → i < count → get r i ≡ true)
all_passed_iff r count h = (
  λ p i l. rw (get-bit r i (omega arith)) (
      (==_iff _ _).1
        ((bit_and-mask_iff count r).0 ((==_iff _ _).0 (rw (all_passed-mask r count h) at p)) i l)),
  λ p. rw (all_passed-mask r count h) (
      (==_iff _ _).1 (
        (bit_and-mask_iff count r).1
          (λ i l. (==_iff _ _).0 (rw (get-bit r i (omega arith)) at (p i l))))),
)
