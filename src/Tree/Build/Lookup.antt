-- ===== src/Tree/Build/Lookup.antt =====
-- A search by tag among sorted children finds the child with that tag, if there is one.
use Prim.Native.Nat.{Ordering}
use mathlib.Core.Option.{some-injective}
use xml_oxidator.Prelude.{
  ℕ, zero, suc, ◌≤◌, ◌<◌, ◌≡◌, ◌↔◌, sym, ◌∙◌, ap, subst, inl, inr, true, false, [], ◌∷◌, some,
  get_elem?, get_elem?-bound, get_elem?-lt, Option-cases, arith,
}
use native.Mathlib.Decide.{dec_lt}
use xml_oxidator.Text.{Str}
use xml_oxidator.Text.Order.{cmp, cmp_refl, cmp-eq, cmp_unflip}
use xml_oxidator.Tree.Path.{PathSegment, NodeId}
use xml_oxidator.Tree.Search.{
  after, binary_search_by, binary_search_by_sound, binary_search_by_complete,
}
use xml_oxidator.Tree.Descriptor.{search_child}
use xml_oxidator.Tree.Build.{sort_children}
use xml_oxidator.Tree.Build.Kids.{Kids}
use xml_oxidator.Tree.Build.Sorted.{
  IsUnrepeated, Precedes, IsSorted, IsIn, sort-IsSorted, sort-IsIn_iff,
}

Precedes-get :
    (x : Str) (cs : Kids) (j : ℕ) {d : PathSegment × NodeId}
    → Precedes x cs
    → get_elem? cs j ≡ some d
    → cmp x d.0 ≡ Ordering.lt
Precedes-get x [] j h e = cc
Precedes-get x (c ∷ cs) zero h e =
    subst (λ (z : PathSegment × NodeId). cmp x z.0 ≡ Ordering.lt) (some-injective _ _ e) h.0
Precedes-get x (c ∷ cs) (suc j) h e = Precedes-get x cs j h.1 e

-- Places and tags have one order.
IsSorted-get :
    (cs : Kids) (i j : ℕ) {c d : PathSegment × NodeId}
    → IsSorted cs
    → i < j
    → get_elem? cs i ≡ some c
    → get_elem? cs j ≡ some d
    → cmp c.0 d.0 ≡ Ordering.lt
IsSorted-get [] i j s l e f = cc
IsSorted-get (x ∷ cs) i zero s l e f = absurd (omega arith)
IsSorted-get (x ∷ cs) zero (suc j) {d = d} s l e f =
    subst (λ (z : PathSegment × NodeId). cmp z.0 d.0 ≡ Ordering.lt) (some-injective _ _ e)
      (Precedes-get x.0 cs j s.0 f)
IsSorted-get (x ∷ cs) (suc i) (suc j) s l e f = IsSorted-get cs i j s.1 (omega arith) e f

IsIn-get : (c : PathSegment × NodeId) (cs : Kids) → IsIn c cs → (i : ℕ) × (get_elem? cs i ≡ some c)
IsIn-get c [] h = absurd h
IsIn-get c (d ∷ ds) (inl e) = (0, ap some e)
IsIn-get c (d ∷ ds) (inr h) = let (i, e) = IsIn-get c ds h in (suc i, e)

get-IsIn : (c : PathSegment × NodeId) (cs : Kids) (i : ℕ) → get_elem? cs i ≡ some c → IsIn c cs
get-IsIn c [] i e = cc
get-IsIn c (d ∷ ds) zero e = inl (some-injective _ _ e)
get-IsIn c (d ∷ ds) (suc i) e = inr (get-IsIn c ds i e)

abbrev order : Str → PathSegment × NodeId → Ordering
order name c = cmp c.0 name

module _ (cs : Kids) (sorted : IsSorted cs) (t : ℕ) (c : PathSegment × NodeId)
    (here : get_elem? cs t ≡ some c) where
  -- What stands before the child is not after it, and what follows it is.
  before : (i : ℕ) → i ≤ t → after (order c.0) cs i ≡ false
  before i l =
      let bound = get_elem?-bound cs t here in
      let (d, at_i) = get_elem?-lt cs i (omega arith) in
      elim (dec_lt i t) [
        | yes earlier ↦
            let less = IsSorted-get cs i t sorted earlier at_i here in rw (at_i, after) (rw less)
        | no same ↦
            let place : i ≡ t = omega arith in
            let equal : d ≡ c = some-injective _ _ (sym at_i ∙ ap (get_elem? cs) place ∙ here) in
            let tie : cmp d.0 c.0 ≡ Ordering.eq =
              subst (λ (z : PathSegment × NodeId). cmp z.0 c.0 ≡ Ordering.eq) (sym equal)
                (cmp_refl c.0) in
            rw (at_i, after) (rw tie)
      ]

  behind : (i : ℕ) → t < i → after (order c.0) cs i ≡ true
  behind i l = elim (Option-cases (get_elem? cs i)) [
    | inl outside ↦ rw (outside, after)
    | inr (d, at_i) ↦
        let more = cmp_unflip c.0 d.0 (IsSorted-get cs t i sorted l here at_i) in
        rw (at_i, after) (rw more)
  ]

  search_child-hit : search_child cs c.0 ≡ some (some c.1)
  unfolding search_child
  search_child-hit =
      let found =
        binary_search_by_complete (order c.0) cs t before behind c here (cmp_refl c.0)
          (get_elem?-bound cs t here) in
      rw (found, search_child) (rw here)

-- What is found is a child with the tag.
search_child-IsIn :
    (cs : Kids) (name : Str) (id : NodeId)
    → search_child cs name ≡ some (some id)
    → IsIn (name, id) cs
unfolding search_child
search_child-IsIn cs name id h = elim (Option-cases (binary_search_by (order name) cs)) [
  | inl missing ↦ absurd (ground arith)
  | inr (i, hit) ↦
      let (c, at_i, same) = binary_search_by_sound (order name) cs i hit in
      let number : c.1 ≡ id = ground arith in
      let text : c.0 ≡ name = cmp-eq c.0 name same in
      get-IsIn (name, id) cs i (at_i ∙ rw (← text, ← number))
]

-- Among children without a repeated tag, sorted, a search finds exactly the child with the tag.
pub search_child-sort_iff :
    (cs : Kids) (name : Str) (id : NodeId)
    → IsUnrepeated cs
    → (search_child (sort_children cs) name ≡ some (some id)) ↔ IsIn (name, id) cs
search_child-sort_iff cs name id h = (
  λ e. (sort-IsIn_iff (name, id) cs).0 (search_child-IsIn (sort_children cs) name id e),
  λ m.
      let (i, at_i) = IsIn-get (name, id) (sort_children cs) ((sort-IsIn_iff (name, id) cs).1 m) in
      search_child-hit (sort_children cs) (sort-IsSorted cs h) i (name, id) at_i,
)
