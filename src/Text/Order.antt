-- ===== src/Text/Order.antt =====
-- `str::cmp`: the lexicographic order of the bytes.
use Prim.Native.Nat.{compare, Ordering}
use xml_oxidator.Prelude.{◌≡◌, refl, [], ◌∷◌, arith}
use xml_oxidator.Text.{Str}

abbrev pub then : Ordering → Ordering → Ordering
then Ordering.lt o = Ordering.lt
then Ordering.eq o = o
then Ordering.gt o = Ordering.gt

unfoldable pub cmp : Str → Str → Ordering
cmp [] [] = Ordering.eq
cmp [] (y ∷ ys) = Ordering.lt
cmp (x ∷ xs) [] = Ordering.gt
cmp (x ∷ xs) (y ∷ ys) = then (compare x y) (cmp xs ys)

pub cmp_refl : (a : Str) → cmp a a ≡ Ordering.eq
unfolding cmp
cmp_refl [] = refl
cmp_refl (x ∷ xs) = ground (arith, cmp_refl xs)

pub cmp-eq : (a b : Str) → cmp a b ≡ Ordering.eq → a ≡ b
unfolding cmp
cmp-eq [] [] h = refl
cmp-eq [] (y ∷ ys) h = cc
cmp-eq (x ∷ xs) [] h = cc
cmp-eq (x ∷ xs) (y ∷ ys) h = ground (arith, cmp-eq xs ys)

pub cmp_flip : (a b : Str) → cmp a b ≡ Ordering.gt → cmp b a ≡ Ordering.lt
unfolding cmp
cmp_flip [] [] h = cc
cmp_flip [] (y ∷ ys) h = cc
cmp_flip (x ∷ xs) [] h = refl
cmp_flip (x ∷ xs) (y ∷ ys) h = ground (arith, cmp_flip xs ys)

pub cmp_unflip : (a b : Str) → cmp a b ≡ Ordering.lt → cmp b a ≡ Ordering.gt
unfolding cmp
cmp_unflip [] [] h = cc
cmp_unflip [] (y ∷ ys) h = refl
cmp_unflip (x ∷ xs) [] h = cc
cmp_unflip (x ∷ xs) (y ∷ ys) h = ground (arith, cmp_unflip xs ys)

pub cmp-lt_trans :
    (a b c : Str) → cmp a b ≡ Ordering.lt → cmp b c ≡ Ordering.lt → cmp a c ≡ Ordering.lt
unfolding cmp
cmp-lt_trans [] [] c h k = cc
cmp-lt_trans [] (y ∷ ys) [] h k = cc
cmp-lt_trans [] (y ∷ ys) (z ∷ zs) h k = refl
cmp-lt_trans (x ∷ xs) [] c h k = cc
cmp-lt_trans (x ∷ xs) (y ∷ ys) [] h k = cc
cmp-lt_trans (x ∷ xs) (y ∷ ys) (z ∷ zs) h k = ground (arith, cmp-lt_trans xs ys zs)
