-- ===== src/Macros/Expands.antt =====
-- The calls that `build_tree!` expands to: they never panic, and they come back to where they began.
use xml_oxidator.Prelude.{
  ◌<◌, ◌≡◌, refl, sym, ◌∙◌, ap, subst, [], ◌∷◌, ◌++◌, Option, some, length, popped, arith, Safe,
  true, false,
}
use xml_oxidator.Text.{Str}
use xml_oxidator.Tree.Closed.{IsClosed}
use xml_oxidator.Tree.Builder.{
  NodeDeclaration, TreeBuilder, new, update_current, streaming, capture_subtree, rule, node, done,
}
use xml_oxidator.Tree.Builder.Placed.{
  shape, IsWellBuilt, new-IsWellBuilt, update_current-IsWellBuilt, node-IsWellBuilt,
  done-IsWellBuilt,
}
use xml_oxidator.Tree.Build.Total.{build-Safe}
use xml_oxidator.Rule.{Rule}
use xml_oxidator.Macros.{
  Mode, no_mode, streaming_mode, capture_mode, Item, rule_item, child_item, Items, nil, cons,
  expand_mode, expand_item, expand_items, build_tree,
}

module _ {R : Type 0} where
  -- The calls succeed, and the current node is the one that it was.
  abbrev pub Restores : TreeBuilder R → Option (TreeBuilder R) → Type 0
  Restores b o =
      (b' : TreeBuilder R) × (o ≡ some b') × IsWellBuilt b' × (b'.parent_stack ≡ b.parent_stack)

  update_current-parent_stack :
      (f : NodeDeclaration R → NodeDeclaration R) (b b' : TreeBuilder R)
      → update_current f b ≡ some b'
      → b'.parent_stack ≡ b.parent_stack
  unfolding update_current
  update_current-parent_stack f b b' e = ground arith

  node-parent_stack :
      (tag : Str) (b b' : TreeBuilder R)
      → node tag b ≡ some b'
      → b'.parent_stack ≡ length b.declarations ∷ b.parent_stack
  unfolding node
  node-parent_stack tag b b' e = ground arith

  done-parent_stack :
      (b b' : TreeBuilder R) → done b ≡ some b' → b'.parent_stack ≡ popped b.parent_stack
  unfolding done
  done-parent_stack b b' e = ground arith

  update_current-Restores :
      (f : NodeDeclaration R → NodeDeclaration R)
      → ((d : NodeDeclaration R) → shape (f d) ≡ shape d)
      → (b : TreeBuilder R) → IsWellBuilt b
      → Restores b (update_current f b)
  update_current-Restores f same b h =
      let (b', e, h') = update_current-IsWellBuilt f same b h in
      (b', e, h', update_current-parent_stack f b b' e)

  expand_mode-Restores :
      (mode : Mode) (b : TreeBuilder R) → IsWellBuilt b → Restores b (expand_mode mode b)
  unfolding expand_mode streaming capture_subtree
  expand_mode-Restores no_mode b h = (b, refl, h, refl)
  expand_mode-Restores streaming_mode b h =
      update_current-Restores (λ d. record d { is_capture = false }) (λ d. refl) b h
  expand_mode-Restores capture_mode b h =
      update_current-Restores (λ d. record d { is_capture = true }) (λ d. refl) b h

  mutual
    unfolding expand_items rule

    item-Restores :
        (item : Item R) (b : TreeBuilder R) → IsWellBuilt b → Restores b (expand_item item b)
    item-Restores (rule_item r) b h =
        update_current-Restores (λ d. record d { rules = d.rules ++ r ∷ [] }) (λ d. refl) b h
    item-Restores (child_item tag mode body) b h =
        let (b1, opened, h1) = node-IsWellBuilt tag b h in
        let (b2, moded, h2, same2) = expand_mode-Restores mode b1 h1 in
        let (b3, filled, h3, same3) = items-Restores body b2 h2 in
        let stack : b3.parent_stack ≡ length b.declarations ∷ b.parent_stack =
          same3 ∙ same2 ∙ node-parent_stack tag b b1 opened in
        let deep : 1 < length b3.parent_stack =
          subst (λ s. 1 < length s) (sym stack) (omega (arith, h.some_open)) in
        let (b4, closed, h4) = done-IsWellBuilt b3 h3 deep in
        (
          b4,
          rw opened (rw moded (rw filled closed)),
          h4,
          done-parent_stack b3 b4 closed ∙ ap popped stack,
        )

    items-Restores :
        (items : Items R) (b : TreeBuilder R) → IsWellBuilt b → Restores b (expand_items items b)
    items-Restores nil b h = (b, refl, h, refl)
    items-Restores (cons item rest) b h =
        let (b1, first, h1, same1) = item-Restores item b h in
        let (b2, others, h2, same2) = items-Restores rest b1 h1 in
        (b2, rw first others, h2, same2 ∙ same1)

  -- On a well-built builder the calls that any items of a node expand to succeed, and leave a
  -- well-built builder in which the same node is current as before.
  pub expand_items-Restores :
      (items : Items R) (b : TreeBuilder R) → IsWellBuilt b → Restores b (expand_items items b)
  expand_items-Restores items b h = items-Restores items b h

-- Whatever items it is given, `build_tree!` does not panic, and every lookup in a tree that it returns
-- stays within the tree.
pub build_tree-Safe :
    {R : Type 0} ⦃r : Rule R⦄ (tag : Str) (mode : Mode) (items : Items R)
    → Safe IsClosed (build_tree tag mode items)
unfolding build_tree
build_tree-Safe {R} tag mode items =
    let (b1, moded, h1, _) = expand_mode-Restores mode (new {R = R} tag) (new-IsWellBuilt tag) in
    let (b2, filled, h2, _) = items-Restores items b1 h1 in rw moded (rw filled (build-Safe b2 h2))
