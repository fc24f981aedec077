-- ===== src/Tree/Builder/Calls.antt =====
-- The builders that chains of calls make, as a step relation: `new`, then any of the methods.
use mathlib.Core.Option.{some-injective}
use xml_oxidator.Prelude.{
  ℕ, ◌<◌, ◌≡◌, refl, sym, subst, ◌∙◌, true, false, [], ◌∷◌, ◌++◌, Option, none, some, length, ltb,
  ltb→lt, inl, inr, Bool-cases,
}
use xml_oxidator.Text.{Str}
use xml_oxidator.Tree.Builder.{
  TreeBuilder, new, streaming, capture_subtree, rule, node, done, capture_limit,
}
use xml_oxidator.Tree.Builder.Placed.{
  IsWellBuilt, new-IsWellBuilt, update_current-IsWellBuilt, node-IsWellBuilt, done-IsWellBuilt,
}

-- A method, with its arguments.
pub data Call (R : Type 0) : Type 0 where
  set_streaming : Call R
  set_capture : Call R
  add_rule : R → Call R
  open_node : Str → Call R
  close_node : Call R
  set_limit : ℕ → Call R

module _ {R : Type 0} where
  unfoldable pub call : Call R → TreeBuilder R → Option (TreeBuilder R)
  unfolding streaming capture_subtree rule node done capture_limit
  call set_streaming b = streaming b
  call set_capture b = capture_subtree b
  call (add_rule r) b = rule r b
  call (open_node tag) b = node tag b
  call close_node b = done b
  call (set_limit bytes) b = some (capture_limit bytes b)

  -- The builders that are reached by a chain of calls in which none panics.
  pub data Reached : TreeBuilder R → Type 0 where
    started : (root_tag : Str) → Reached (new root_tag)
    after_call :
        (b : TreeBuilder R) (c : Call R) (b' : TreeBuilder R)
        → Reached b
        → call c b ≡ some b'
        → Reached b'

  -- What a call asks of the builder: `done` must not close the root.
  abbrev pub Allowed : Call R → TreeBuilder R → Type 0
  Allowed close_node b = 1 < length b.parent_stack
  Allowed set_streaming b = Unit
  Allowed set_capture b = Unit
  Allowed (add_rule r) b = Unit
  Allowed (open_node tag) b = Unit
  Allowed (set_limit bytes) b = Unit

  -- On a well-built builder every method that is allowed succeeds and leaves a well-built builder;
  -- all are allowed but `done` on the root.
  pub call-IsWellBuilt :
      (c : Call R) (b : TreeBuilder R)
      → IsWellBuilt b
      → Allowed c b
      → (b' : TreeBuilder R) × (call c b ≡ some b') × IsWellBuilt b'
  unfolding call streaming capture_subtree rule capture_limit
  call-IsWellBuilt set_streaming b h a =
      update_current-IsWellBuilt (λ d. record d { is_capture = false }) (λ d. refl) b h
  call-IsWellBuilt set_capture b h a =
      update_current-IsWellBuilt (λ d. record d { is_capture = true }) (λ d. refl) b h
  call-IsWellBuilt (add_rule r) b h a =
      update_current-IsWellBuilt (λ d. record d { rules = d.rules ++ r ∷ [] }) (λ d. refl) b h
  call-IsWellBuilt (open_node tag) b h a = node-IsWellBuilt tag b h
  call-IsWellBuilt close_node b h a = done-IsWellBuilt b h a
  call-IsWellBuilt (set_limit bytes) b h a = (
    capture_limit bytes b,
    refl,
    record { placed = h.placed; opened = h.opened; some_open = h.some_open },
  )

  -- Only an allowed call succeeds.
  pub call-Allowed : (c : Call R) (b b' : TreeBuilder R) → call c b ≡ some b' → Allowed c b
  unfolding call done
  call-Allowed close_node b b' e = elim (Bool-cases (ltb 1 (length b.parent_stack))) [
    | inl deep ↦ ltb→lt 1 (length b.parent_stack) deep
    | inr shallow ↦ absurd (let refused : done b ≡ none = unfold done in rw shallow refl in cc)
  ]
  call-Allowed set_streaming b b' e = tt
  call-Allowed set_capture b b' e = tt
  call-Allowed (add_rule r) b b' e = tt
  call-Allowed (open_node tag) b b' e = tt
  call-Allowed (set_limit bytes) b b' e = tt

  -- Every builder that a chain of calls reaches is well built: a root stands first, each other
  -- declaration after its parent, whose path it extends by its own tag, and a node is current.
  pub Reached-IsWellBuilt : {b : TreeBuilder R} → Reached b → IsWellBuilt b
  Reached-IsWellBuilt (started root_tag) = new-IsWellBuilt root_tag
  Reached-IsWellBuilt (after_call b c b' before step) =
      let (next, stepped, kept) =
        call-IsWellBuilt c b (Reached-IsWellBuilt before) (call-Allowed c b b' step) in
      subst IsWellBuilt (some-injective _ _ (sym stepped ∙ step)) kept
