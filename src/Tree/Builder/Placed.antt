-- ===== src/Tree/Builder/Placed.antt =====
-- Every sequence of calls on a `TreeBuilder` keeps its declarations in the shape of a tree.
use mathlib.Core.List.{map-append}
use mathlib.Core.Option.{some-injective}
use xml_oxidator.Prelude.{
  ℕ, zero, suc, ◌<◌, ◌≡◌, refl, sym, subst, inl, inr, List, [], ◌∷◌, ◌++◌, map, Option, none, some,
  Stack, last, popped, length, length-append, length-popped, length-map, length-modify, get_elem?,
  modify, get_elem?-lt, get_elem?-append, get_elem?-snoc_inv, get_elem?-map, map-modify, lt→ltb,
  arith,
}
use xml_oxidator.Text.{Str}
use xml_oxidator.Tree.Path.{PathSegment}
use xml_oxidator.Tree.Builder.{
  NodeDeclaration, TreeBuilder, new, update_current, child_declaration, node, done,
}

-- The part of a declaration that only `new` and `node` set.
pub record Shape : Type 0 where
  pub tag : PathSegment
  pub path : List PathSegment
  pub parent : Option ℕ

module _ {R : Type 0} where
  abbrev pub shape : NodeDeclaration R → Shape
  shape d = record { tag = d.tag; path = d.full_path; parent = d.parent_index }

  abbrev pub shapes : TreeBuilder R → List Shape
  shapes b = map shape b.declarations

-- A root stands at 0; any other declaration stands after its parent and extends its path.
abbrev pub IsUnder : List Shape → ℕ → PathSegment → List PathSegment → Option ℕ → Type 0
IsUnder cs i tag path none = (i ≡ 0) × (path ≡ tag ∷ [])
IsUnder cs i tag path (some p) =
    (p < i) × (parent : Shape) × (get_elem? cs p ≡ some parent) × (path ≡ parent.path ++ tag ∷ [])

abbrev pub IsPlaced : List Shape → Type 0
IsPlaced cs = (i : ℕ) (c : Shape) → get_elem? cs i ≡ some c → IsUnder cs i c.tag c.path c.parent

abbrev pub AllBelow : ℕ → Stack ℕ → Type 0
AllBelow m [] = Unit
AllBelow m (i ∷ is) = (i < m) × AllBelow m is

pub record IsWellBuilt {R : Type 0} (b : TreeBuilder R) : Type 0 where
  pub placed : IsPlaced (shapes b)
  pub opened : AllBelow (length b.declarations) b.parent_stack
  pub some_open : 0 < length b.parent_stack

IsUnder-append :
    (cs ds : List Shape) (i : ℕ) (tag : PathSegment) (path : List PathSegment) (parent : Option ℕ)
    → IsUnder cs i tag path parent
    → IsUnder (cs ++ ds) i tag path parent
IsUnder-append cs ds i tag path none h = h
IsUnder-append cs ds i tag path (some p) h = (h.0, h.1, get_elem?-append cs ds p h.2, h.3)

IsPlaced-snoc :
    (cs : List Shape) (c : Shape)
    → IsPlaced cs
    → IsUnder cs (length cs) c.tag c.path c.parent
    → IsPlaced (cs ++ c ∷ [])
IsPlaced-snoc cs c h under i d e = elim (get_elem?-snoc_inv cs c i e) [
  | inl old ↦ IsUnder-append cs (c ∷ []) i d.tag d.path d.parent (h i d old)
  | inr (place, same) ↦ IsUnder-append cs (c ∷ []) i d.tag d.path d.parent (
      subst (λ (x : Shape). IsUnder cs i x.tag x.path x.parent) same
        (subst (λ k. IsUnder cs k c.tag c.path c.parent) (sym place) under))
]

AllBelow-suc : (m : ℕ) (is : Stack ℕ) → AllBelow m is → AllBelow (suc m) is
AllBelow-suc m [] h = h
AllBelow-suc m (i ∷ is) h = (omega arith, AllBelow-suc m is h.1)

AllBelow-popped : (m : ℕ) (is : Stack ℕ) → AllBelow m is → AllBelow m (popped is)
AllBelow-popped m [] h = h
AllBelow-popped m (i ∷ is) h = h.1

-- The current node is there.
pub current :
    (m : ℕ) (is : Stack ℕ) → AllBelow m is → 0 < length is → (i : ℕ) × (last is ≡ some i) × (i < m)
current m [] h l = absurd (omega arith)
current m (i ∷ is) h l = (i, refl, h.0)

one_more :
    {R : Type 0} (ds : List (NodeDeclaration R)) (d : NodeDeclaration R)
    → length (ds ++ d ∷ []) ≡ suc (length ds)
one_more ds d = omega (arith, length-append ds (d ∷ []))

abbrev root_shape : Str → Shape
root_shape root_tag = record { tag = root_tag; path = root_tag ∷ []; parent = none }

module _ {R : Type 0} where
  pub new-IsWellBuilt : (root_tag : Str) → IsWellBuilt (new {R = R} root_tag)
  unfolding new
  new-IsWellBuilt root_tag = record {
    placed = λ i c e.
        elim i
            as (λ (i : ℕ).
              get_elem? (root_shape root_tag ∷ []) i ≡ some c
              → IsUnder (root_shape root_tag ∷ []) i c.tag c.path c.parent) [
                | zero ↦ λ same.
                    subst
                      (λ (x : Shape). IsUnder (root_shape root_tag ∷ []) 0 x.tag x.path x.parent)
                      (some-injective _ _ same) (refl, refl)
                | suc k ↦ λ none_there. absurd (cc none_there)
              ]
          e;
    opened = (omega arith, tt);
    some_open = omega arith;
  }

  -- A call that changes neither tags, paths nor parents succeeds and keeps the shape.
  pub update_current-IsWellBuilt :
      (f : NodeDeclaration R → NodeDeclaration R)
      → ((d : NodeDeclaration R) → shape (f d) ≡ shape d)
      → (b : TreeBuilder R) → IsWellBuilt b
      → (b' : TreeBuilder R) × (update_current f b ≡ some b') × IsWellBuilt b'
  update_current-IsWellBuilt f same b h =
      let (idx, top, below) = current (length b.declarations) b.parent_stack h.opened h.some_open in
      (
        record b { declarations = modify b.declarations idx f },
        unfold update_current in rw (top, update_current) (rw (lt→ltb idx _ below)),
        record {
          placed = subst IsPlaced (sym (map-modify shape f same b.declarations idx)) h.placed;
          opened =
              subst (λ m. AllBelow m b.parent_stack) (sym (length-modify b.declarations idx f))
                h.opened;
          some_open = h.some_open;
        },
      )

  pub node-IsWellBuilt :
      (tag : Str) (b : TreeBuilder R)
      → IsWellBuilt b
      → (b' : TreeBuilder R) × (node tag b ≡ some b') × IsWellBuilt b'
  node-IsWellBuilt tag b h =
      let (idx, top, below) = current (length b.declarations) b.parent_stack h.opened h.some_open in
      let (parent, here) = get_elem?-lt b.declarations idx below in
      let child = child_declaration tag idx parent in
      (
        record b {
          declarations = b.declarations ++ child ∷ [];
          parent_stack = length b.declarations ∷ b.parent_stack;
        },
        unfold node in rw (top, node) (rw here),
        record {
          placed = subst IsPlaced (sym (map-append shape b.declarations (child ∷ []))) (
              IsPlaced-snoc (shapes b) (shape child) h.placed (
                omega (arith, length-map b.declarations shape),
                shape parent,
                get_elem?-map shape b.declarations idx here,
                refl,
              ));
          opened = (
            omega (arith, length-append b.declarations (child ∷ [])),
            subst (λ m. AllBelow m b.parent_stack) (sym (one_more b.declarations child))
                (AllBelow-suc (length b.declarations) b.parent_stack h.opened),
          );
          some_open = omega arith;
        },
      )

  -- `done` succeeds exactly below the root.
  pub done-IsWellBuilt :
      (b : TreeBuilder R)
      → IsWellBuilt b
      → 1 < length b.parent_stack
      → (b' : TreeBuilder R) × (done b ≡ some b') × IsWellBuilt b'
  done-IsWellBuilt b h l = (
    record b { parent_stack = popped b.parent_stack },
    unfold done in rw (lt→ltb 1 (length b.parent_stack) l) refl,
    record {
      placed = h.placed;
      opened = AllBelow-popped (length b.declarations) b.parent_stack h.opened;
      some_open = omega (arith, l, length-popped b.parent_stack);
    },
  )
