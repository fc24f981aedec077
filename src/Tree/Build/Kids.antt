-- ===== src/Tree/Build/Kids.antt =====
-- The sorted children of a node: what is looked up is one of them.
use Prim.Native.Nat.{Ordering}
use xml_oxidator.Prelude.{
  ℕ, zero, suc, ◌≤◌, ◌<◌, ◌≡◌, List, [], ◌∷◌, ◌++◌, Option, none, some, get_elem?, inl, inr,
  Option-cases, arith,
}
use xml_oxidator.Text.{Str}
use xml_oxidator.Text.Order.{cmp}
use xml_oxidator.Tree.Path.{PathSegment, NodeId, as_u32}
use xml_oxidator.Tree.Search.{binary_search_by, binary_search_by_sound}
use xml_oxidator.Tree.Descriptor.{search_child}
use xml_oxidator.Tree.Closed.{Below}
use xml_oxidator.Tree.Build.{insert_child, sort_children}

abbrev pub Kids : Type 0
Kids = List (PathSegment × NodeId)

abbrev pub KidsFit : ℕ → Kids → Type 0
KidsFit m [] = Unit
KidsFit m (c ∷ cs) = (c.1 < m) × KidsFit m cs

pub KidsFit-append : (m : ℕ) (cs ds : Kids) → KidsFit m cs → KidsFit m ds → KidsFit m (cs ++ ds)
KidsFit-append m [] ds h k = k
KidsFit-append m (c ∷ cs) ds h k = (h.0, KidsFit-append m cs ds h.1 k)

KidsFit-get :
    (m : ℕ) (cs : Kids) (i : ℕ) {c : PathSegment × NodeId}
    → KidsFit m cs
    → get_elem? cs i ≡ some c
    → c.1 < m
KidsFit-get m [] i h e = cc
KidsFit-get m (d ∷ cs) zero h e = ground (arith, h.0)
KidsFit-get m (d ∷ cs) (suc i) h e = KidsFit-get m cs i h.1 e

KidsFit-insert :
    (m : ℕ) (c : PathSegment × NodeId) (cs : Kids)
    → c.1 < m
    → KidsFit m cs
    → KidsFit m (insert_child c cs)
unfolding insert_child
KidsFit-insert m c [] h k = (h, k)
KidsFit-insert m c (d ∷ ds) h k =
    elim (cmp c.0 d.0)
      as (λ o. KidsFit m (elim o [ Ordering.gt ↦ d ∷ insert_child c ds | _ ↦ c ∷ d ∷ ds ])) [
        | Ordering.lt ↦ (h, k)
        | Ordering.eq ↦ (h, k)
        | Ordering.gt ↦ (k.0, KidsFit-insert m c ds h k.1)
      ]

pub KidsFit-sort : (m : ℕ) (cs : Kids) → KidsFit m cs → KidsFit m (sort_children cs)
unfolding sort_children
KidsFit-sort m [] h = h
KidsFit-sort m (c ∷ cs) h = KidsFit-insert m c (sort_children cs) h.0 (KidsFit-sort m cs h.1)

-- A child that is looked up is one of the children, and the lookup does not panic.
pub search_child-fits :
    (m : ℕ) (cs : Kids) (name : Str)
    → KidsFit m cs
    → (found : Option NodeId) × (search_child cs name ≡ some found) × Below m found
unfolding search_child
search_child-fits m cs name h =
    let order : PathSegment × NodeId → Ordering = λ c. cmp c.0 name in
    elim (Option-cases (binary_search_by order cs)) [
      | inl missing ↦ (none, rw (missing, search_child), tt)
      | inr (i, hit) ↦
          let (c, at_i, same) = binary_search_by_sound order cs i hit in
          (some c.1, rw (hit, search_child) (rw at_i), KidsFit-get m cs i h at_i)
    ]

pub as_u32-le : (i : ℕ) → as_u32 i ≤ i
unfolding as_u32
as_u32-le i = omega arith
