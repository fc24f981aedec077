-- ===== src/Tree/Build/Sorted.antt =====
-- The sorted children of a node: a search by tag finds the child with that tag, if there is one.
use Prim.Native.Nat.{Ordering}
use xml_oxidator.Prelude.{◌≡◌, ◌≢◌, ◌↔◌, refl, ◌⊎◌, inl, inr, [], ◌∷◌}
use xml_oxidator.Text.{Str}
use xml_oxidator.Text.Order.{cmp, cmp-eq, cmp_flip, cmp-lt_trans}
use xml_oxidator.Tree.Path.{PathSegment, NodeId}
use xml_oxidator.Tree.Build.{insert_child, sort_children}
use xml_oxidator.Tree.Build.Kids.{Kids}

-- No child has the tag.
abbrev pub Lacks : Str → Kids → Type 0
Lacks x [] = Unit
Lacks x (c ∷ cs) = (x ≢ c.0) × Lacks x cs

-- No two children have one tag.
abbrev pub IsUnrepeated : Kids → Type 0
IsUnrepeated [] = Unit
IsUnrepeated (c ∷ cs) = Lacks c.0 cs × IsUnrepeated cs

-- All tags come after the given one.
abbrev pub Precedes : Str → Kids → Type 0
Precedes x [] = Unit
Precedes x (c ∷ cs) = (cmp x c.0 ≡ Ordering.lt) × Precedes x cs

abbrev pub IsSorted : Kids → Type 0
IsSorted [] = Unit
IsSorted (c ∷ cs) = Precedes c.0 cs × IsSorted cs

abbrev pub IsIn : PathSegment × NodeId → Kids → Type 0
IsIn c [] = ⊥
IsIn c (d ∷ ds) = (d ≡ c) ⊎ IsIn c ds

Precedes-trans : (x y : Str) (cs : Kids) → cmp x y ≡ Ordering.lt → Precedes y cs → Precedes x cs
Precedes-trans x y [] h k = tt
Precedes-trans x y (c ∷ cs) h k = (cmp-lt_trans x y c.0 h k.0, Precedes-trans x y cs h k.1)

Precedes-insert :
    (x : Str) (c : PathSegment × NodeId) (cs : Kids)
    → cmp x c.0 ≡ Ordering.lt
    → Precedes x cs
    → Precedes x (insert_child c cs)
unfolding insert_child
Precedes-insert x c [] h k = (h, tt)
Precedes-insert x c (d ∷ ds) h k =
    elim (cmp c.0 d.0)
      as (λ o. Precedes x (elim o [ Ordering.gt ↦ d ∷ insert_child c ds | _ ↦ c ∷ d ∷ ds ])) [
        | Ordering.lt ↦ (h, k)
        | Ordering.eq ↦ (h, k)
        | Ordering.gt ↦ (k.0, Precedes-insert x c ds h k.1)
      ]

Ordering-cases : (o : Ordering) → (o ≡ Ordering.lt) ⊎ ((o ≡ Ordering.eq) ⊎ (o ≡ Ordering.gt))
Ordering-cases Ordering.lt = inl refl
Ordering-cases Ordering.eq = inr (inl refl)
Ordering-cases Ordering.gt = inr (inr refl)

insert-IsSorted :
    (c : PathSegment × NodeId) (cs : Kids)
    → Lacks c.0 cs
    → IsSorted cs
    → IsSorted (insert_child c cs)
unfolding insert_child
insert-IsSorted c [] l s = (tt, tt)
insert-IsSorted c (d ∷ ds) l s = elim (Ordering-cases (cmp c.0 d.0)) [
  | inl lt ↦ rw (lt, IsSorted) ((lt, Precedes-trans c.0 d.0 ds lt s.0), s)
  | inr (inl eq) ↦ absurd (l.0 (cmp-eq c.0 d.0 eq))
  | inr (inr gt) ↦
      rw (gt, IsSorted)
        (Precedes-insert d.0 c ds (cmp_flip c.0 d.0 gt) s.0, insert-IsSorted c ds l.1 s.1)
]

Lacks-insert :
    (x : Str) (c : PathSegment × NodeId) (cs : Kids)
    → x ≢ c.0
    → Lacks x cs
    → Lacks x (insert_child c cs)
unfolding insert_child
Lacks-insert x c [] h k = (h, tt)
Lacks-insert x c (d ∷ ds) h k =
    elim (cmp c.0 d.0)
      as (λ o. Lacks x (elim o [ Ordering.gt ↦ d ∷ insert_child c ds | _ ↦ c ∷ d ∷ ds ])) [
        | Ordering.lt ↦ (h, k)
        | Ordering.eq ↦ (h, k)
        | Ordering.gt ↦ (k.0, Lacks-insert x c ds h k.1)
      ]

Lacks-sort : (x : Str) (cs : Kids) → Lacks x cs → Lacks x (sort_children cs)
unfolding sort_children
Lacks-sort x [] h = tt
Lacks-sort x (c ∷ cs) h = Lacks-insert x c (sort_children cs) h.0 (Lacks-sort x cs h.1)

pub sort-IsSorted : (cs : Kids) → IsUnrepeated cs → IsSorted (sort_children cs)
unfolding sort_children
sort-IsSorted [] h = tt
sort-IsSorted (c ∷ cs) h =
    insert-IsSorted c (sort_children cs) (Lacks-sort c.0 cs h.0) (sort-IsSorted cs h.1)

-- Sorting keeps the children.
insert-IsIn_iff :
    (x c : PathSegment × NodeId) (cs : Kids) → IsIn x (insert_child c cs) ↔ IsIn x (c ∷ cs)
unfolding insert_child
insert-IsIn_iff x c [] = (λ h. h, λ h. h)
insert-IsIn_iff x c (d ∷ ds) =
    elim (cmp c.0 d.0)
      as (λ o.
        IsIn x (elim o [ Ordering.gt ↦ d ∷ insert_child c ds | _ ↦ c ∷ d ∷ ds ])
        ↔ IsIn x (c ∷ d ∷ ds)) [
          | Ordering.lt ↦ (λ h. h, λ h. h)
          | Ordering.eq ↦ (λ h. h, λ h. h)
          | Ordering.gt ↦
              let (there, back) = insert-IsIn_iff x c ds in
              (
                λ h. elim h [
                  | inl first ↦ inr (inl first)
                  | inr later ↦ elim (there later) [ inl new ↦ inl new | inr old ↦ inr (inr old) ]
                ],
                λ h. elim h [
                  | inl new ↦ inr (back (inl new))
                  | inr (inl first) ↦ inl first
                  | inr (inr old) ↦ inr (back (inr old))
                ],
              )
        ]

pub sort-IsIn_iff : (x : PathSegment × NodeId) (cs : Kids) → IsIn x (sort_children cs) ↔ IsIn x cs
unfolding sort_children
sort-IsIn_iff x [] = (λ h. h, λ h. h)
sort-IsIn_iff x (c ∷ cs) =
    let (there, back) = insert-IsIn_iff x c (sort_children cs) in
    let (down, up) = sort-IsIn_iff x cs in
    (
      λ h. elim (there h) [ inl first ↦ inl first | inr old ↦ inr (down old) ],
      λ h. back (elim h [ inl first ↦ inl first | inr old ↦ inr (up old) ]),
    )
