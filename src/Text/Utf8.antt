-- ===== src/Text/Utf8.antt =====
-- `std::str::from_utf8`: the bytes themselves if they are well-formed UTF-8, and otherwise where
-- and how they stop to be.
use xml_oxidator.Prelude.{
  ℕ, zero, suc, ◌+◌, ◌≡◌, refl, ◌⊎◌, inl, inr, true, false, ◌&&◌, List, [], ◌∷◌, Option, none, some,
  arith, leb, ltb, ◌==◌, if◌then◌else◌,
}
use xml_oxidator.Text.{Str}

pub record Utf8Error : Type 0 where
  pub valid_up_to : ℕ
  -- `none`: the input ends inside a character
  pub error_len : Option ℕ

-- What follows a first byte: the number of continuation bytes, and the range of the first of them.
lead : ℕ → Option (ℕ × ℕ × ℕ)
lead b =
    if ltb b 0x80
    then some (0, 0, 0)
    else if ltb b 0xc2
    then none
    else if ltb b 0xe0
    then some (1, 0x80, 0xbf)
    else if b == 0xe0
    then some (2, 0xa0, 0xbf)
    else if b == 0xed
    then some (2, 0x80, 0x9f)
    else if ltb b 0xf0
    then some (2, 0x80, 0xbf)
    else if b == 0xf0
    then some (3, 0x90, 0xbf)
    else if ltb b 0xf4
    then some (3, 0x80, 0xbf)
    else if b == 0xf4
    then some (3, 0x80, 0x8f)
    else none

-- `valid` bytes are good, `seen` bytes of a character are read and `need` are to come.
scan : ℕ → ℕ → ℕ → ℕ → ℕ → List ℕ → Option Utf8Error
scan valid seen zero lo hi [] = none
scan valid seen (suc need) lo hi [] = some (record { valid_up_to = valid; error_len = none })
scan valid seen zero lo hi (b ∷ bs) = elim (lead b) [
  | none ↦ some (record { valid_up_to = valid; error_len = some 1 })
  | some (n, from, to) ↦
      scan (if n == 0 then valid + 1 else valid) (if n == 0 then 0 else 1) n from to bs
]
scan valid seen (suc need) lo hi (b ∷ bs) = elim (leb lo b && leb b hi) [
  | true ↦
      scan (if need == 0 then valid + (seen + 1) else valid) (if need == 0 then 0 else seen + 1)
        need 0x80 0xbf bs
  | false ↦ some (record { valid_up_to = valid; error_len = some seen })
]

unfoldable pub from_utf8 : List ℕ → Utf8Error ⊎ Str
unfolding scan lead
from_utf8 bytes = elim (scan 0 0 0 0 0 bytes) [ none ↦ inr bytes | some e ↦ inl e ]

-- A text that is accepted is the bytes that were given.
pub from_utf8-eq : (bytes : List ℕ) {s : Str} → from_utf8 bytes ≡ inr s → s ≡ bytes
unfolding from_utf8
from_utf8-eq bytes h = ground arith

from_utf8_accepts :
    from_utf8 (0x61 ∷ 0xc3 ∷ 0xa9 ∷ 0xf0 ∷ 0x9f ∷ 0x98 ∷ 0x80 ∷ [])
    ≡ inr (0x61 ∷ 0xc3 ∷ 0xa9 ∷ 0xf0 ∷ 0x9f ∷ 0x98 ∷ 0x80 ∷ [])
unfolding from_utf8
from_utf8_accepts = refl

from_utf8_rejects :
    from_utf8 (0x61 ∷ 0xe2 ∷ 0x82 ∷ 0x41 ∷ [])
    ≡ inl (record { valid_up_to = 1; error_len = some 2 })
unfolding from_utf8
from_utf8_rejects = refl

from_utf8_ends_early :
    from_utf8 (0x61 ∷ 0xe2 ∷ 0x82 ∷ []) ≡ inl (record { valid_up_to = 1; error_len = none })
unfolding from_utf8
from_utf8_ends_early = refl
