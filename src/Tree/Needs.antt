-- ===== src/Tree/Needs.antt =====
-- src/tree/descriptor.rs, `NodeNeeds`: the flags for what a rule reads of an element.
use Prim.Native.Nat.{bit_and, bit_or}
use native.Mathlib.Nat.{one-le-pow}
use xml_oxidator.Prelude.{ℕ, ◌^◌, ◌≡◌, Bool, not, ◌||◌, arith, ◌==◌}
use xml_oxidator.Bits.{bit, bit-lt, bit_and-pow, bit-bit_or}

-- `NodeNeeds(u8)`
abbrev pub NodeNeeds : Type 0
NodeNeeds = ℕ

abbrev pub attrs_flag : NodeNeeds
attrs_flag = 0x01

abbrev pub text_flag : NodeNeeds
text_flag = 0x02

abbrev pub children_flag : NodeNeeds
children_flag = 0x04

abbrev pub capture_flag : NodeNeeds
capture_flag = 0x08

abbrev pub no_needs : NodeNeeds
no_needs = 0

abbrev pub all_needs : NodeNeeds
all_needs = 0x07

unfoldable pub contains : NodeNeeds → NodeNeeds → Bool
contains self other = bit_and self other == other

unfoldable pub is_capture : NodeNeeds → Bool
is_capture self = not (bit_and self 0x08 == 0)

unfoldable pub union : NodeNeeds → NodeNeeds → NodeNeeds
union self other = bit_or self other

-- A single flag is contained exactly when its bit is set.
pub contains-bit : (n i : ℕ) → contains n (2 ^ i) ≡ (bit n i == 1)
unfolding contains
contains-bit n i = ground (arith, bit_and-pow n i, bit-lt n i, one-le-pow i 2)

pub is_capture-eq-contains : (n : NodeNeeds) → is_capture n ≡ contains n capture_flag
unfolding is_capture contains
is_capture-eq-contains n = ground (arith, bit_and-pow n 3, bit-lt n 3)

-- A union contains a single flag exactly when one of its parts does.
pub contains-union :
    (a b i : ℕ) → contains (union a b) (2 ^ i) ≡ (contains a (2 ^ i) || contains b (2 ^ i))
contains-union a b i =
    rw (contains-bit (union a b) i, contains-bit a i, contains-bit b i)
      (unfold union in ground (arith, bit-bit_or a b i, bit-lt a i, bit-lt b i))
