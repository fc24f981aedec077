-- ===== src/View/Descendants.antt =====
-- src/view.rs, `find` and `find_all`: the depth-first iterator visits the proper descendants in
-- document order and comes to its end.
use mathlib.Core.Option
use xml_oxidator.Prelude.{
  ℕ, zero, suc, ◌+◌, ◌<◌, ◌≡◌, refl, Bool, List, [], ◌∷◌, ◌++◌, append_assoc, Option, none, some,
  arith, if◌then◌else◌,
}
use xml_oxidator.Text.{Str, str_eq}
use xml_oxidator.View.Subtree.{
  SubtreeNode, SubtreeNodes, subtree_node, nil, cons, tag, children, to_list, collect_if, find_if,
  size, sizes, find_all, find,
}

-- A node and its descendants in document order.
mutual
  pub preorder : SubtreeNode → List SubtreeNode
  preorder (subtree_node t a x cs) = subtree_node t a x cs ∷ preorders cs

  pub preorders : SubtreeNodes → List SubtreeNode
  preorders nil = []
  preorders (cons n ns) = preorder n ++ preorders ns

abbrev pub keep : (SubtreeNode → Bool) → List SubtreeNode → List SubtreeNode
keep test [] = []
keep test (n ∷ ns) = if test n then n ∷ keep test ns else keep test ns

abbrev pub first : List SubtreeNode → Option SubtreeNode
first [] = none
first (n ∷ ns) = some n

-- The same over the iterator's list.
to_visit : List SubtreeNode → List SubtreeNode
to_visit [] = []
to_visit (n ∷ ns) = preorder n ++ to_visit ns

total : List SubtreeNode → ℕ
total [] = 0
total (n ∷ ns) = size n + total ns

to_visit-append : (ms ns : List SubtreeNode) → to_visit (ms ++ ns) ≡ to_visit ms ++ to_visit ns
unfolding to_visit
to_visit-append [] ns = refl
to_visit-append (m ∷ ms) ns = simp (to_visit-append ms ns, append_assoc)

total-append : (ms ns : List SubtreeNode) → total (ms ++ ns) ≡ total ms + total ns
unfolding total
total-append [] ns = omega arith
total-append (m ∷ ms) ns = omega (arith, total-append ms ns)

to_visit-to_list : (ns : SubtreeNodes) → to_visit (to_list ns) ≡ preorders ns
unfolding to_visit preorders
to_visit-to_list nil = refl
to_visit-to_list (cons n ns) = rw (to_visit-to_list ns)

total-to_list : (ns : SubtreeNodes) → total (to_list ns) ≡ sizes ns
unfolding total sizes
total-to_list nil = refl
total-to_list (cons n ns) = omega (arith, total-to_list ns)

to_visit-nil : to_visit [] ≡ []
unfolding to_visit
to_visit-nil = refl

-- What is left to visit after a node was taken, and how much smaller that is.
to_visit-cons :
    (n : SubtreeNode) (ns : List SubtreeNode)
    → to_visit (n ∷ ns) ≡ n ∷ to_visit (to_list (children n) ++ ns)
to_visit-cons (subtree_node t a x cs) ns =
    rw (to_visit-append (to_list cs) ns, to_visit-to_list cs) (unfold to_visit preorders in refl)

total-cons :
    (n : SubtreeNode) (ns : List SubtreeNode)
    → total (n ∷ ns) ≡ suc (total (to_list (children n) ++ ns))
total-cons (subtree_node t a x cs) ns =
    rw (total-append (to_list cs) ns, total-to_list cs) (unfold total sizes in omega arith)

collect_if-eq-keep :
    (fuel : ℕ) (test : SubtreeNode → Bool) (ns : List SubtreeNode)
    → total ns < fuel
    → collect_if fuel test (record { stack = ns }) ≡ some (keep test (to_visit ns))
unfolding collect_if
collect_if-eq-keep zero test ns h = absurd (omega arith)
collect_if-eq-keep (suc fuel) test [] h = rw to_visit-nil
collect_if-eq-keep (suc fuel) test (n ∷ ns) h =
    let left = to_list (children n) ++ ns in
    rw (to_visit-cons n ns)
      (ground (arith, collect_if-eq-keep fuel test left (omega (arith, total-cons n ns))))

find_if-eq-first :
    (fuel : ℕ) (test : SubtreeNode → Bool) (ns : List SubtreeNode)
    → total ns < fuel
    → find_if fuel test (record { stack = ns }) ≡ some (first (keep test (to_visit ns)))
unfolding find_if
find_if-eq-first zero test ns h = absurd (omega arith)
find_if-eq-first (suc fuel) test [] h = rw to_visit-nil
find_if-eq-first (suc fuel) test (n ∷ ns) h =
    let left = to_list (children n) ++ ns in
    rw (to_visit-cons n ns)
      (ground (arith, find_if-eq-first fuel test left (omega (arith, total-cons n ns))))

enough_fuel : (n : SubtreeNode) → total (to_list (children n)) < suc (size n)
enough_fuel (subtree_node t a x cs) = rw (total-to_list cs) (unfold size in omega arith)

-- `find_all` ends, and returns the proper descendants with the tag in document order.
pub find_all-eq-keep :
    (n : SubtreeNode) (name : Str)
    → find_all n name ≡ some (keep (λ m. str_eq (tag m) name) (preorders (children n)))
unfolding find_all
find_all-eq-keep n name =
    rw (← to_visit-to_list (children n)) (collect_if-eq-keep _ _ _ (enough_fuel n))

-- `find` ends, and returns the first node of what `find_all` returns.
pub find-eq-first :
    (n : SubtreeNode) (name : Str) → find n name ≡ Option.map first (find_all n name)
find-eq-first n name =
    rw (find_all-eq-keep n name, ← to_visit-to_list (children n))
      (unfold find in find_if-eq-first _ _ _ (enough_fuel n))
