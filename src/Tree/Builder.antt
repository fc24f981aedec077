-- ===== src/Tree/Builder.antt =====
-- src/tree/builder.rs, the fluent methods of `TreeBuilder`. A panic is `none`.
pub mod Placed
pub mod Calls
use xml_oxidator.Prelude.{
  ℕ, ◌*◌, ◌≡◌, Bool, true, false, List, [], ◌∷◌, ◌++◌, Option, none, some, Stack, last, popped,
  length, get_elem?, modify, ltb, if◌then◌else◌,
}
use xml_oxidator.Text.{Str}
use xml_oxidator.Tree.Path.{PathSegment}

pub record NodeDeclaration (R : Type 0) : Type 0 where
  pub tag : PathSegment
  pub full_path : List PathSegment
  pub is_capture : Bool
  pub rules : List R
  pub parent_index : Option ℕ

pub record TreeBuilder (R : Type 0) : Type 0 where
  pub declarations : List (NodeDeclaration R)
  pub parent_stack : Stack ℕ
  pub capture_memory_limit : ℕ

unfoldable pub new : {R : Type 0} → Str → TreeBuilder R
new root_tag = record {
  declarations =
      record {
        tag = root_tag;
        full_path = root_tag ∷ [];
        is_capture = false;
        rules = [];
        parent_index = none;
      }
      ∷ [];
  parent_stack = 0 ∷ [];
  capture_memory_limit = 64 * 1024 * 1024;
}

module _ {R : Type 0} where
  -- let idx = *parent_stack.last().unwrap(); f(&mut declarations[idx])
  unfoldable pub update_current :
      (NodeDeclaration R → NodeDeclaration R) → TreeBuilder R → Option (TreeBuilder R)
  update_current f b = elim (last b.parent_stack) [
    | none ↦ none
    | some idx ↦
        if ltb idx (length b.declarations)
        then some (record b { declarations = modify b.declarations idx f })
        else none
  ]

  unfoldable pub streaming : TreeBuilder R → Option (TreeBuilder R)
  unfolding update_current
  streaming b = update_current (λ d. record d { is_capture = false }) b

  unfoldable pub capture_subtree : TreeBuilder R → Option (TreeBuilder R)
  unfolding update_current
  capture_subtree b = update_current (λ d. record d { is_capture = true }) b

  unfoldable pub rule : R → TreeBuilder R → Option (TreeBuilder R)
  unfolding update_current
  rule r b = update_current (λ d. record d { rules = d.rules ++ r ∷ [] }) b

  abbrev pub child_declaration : Str → ℕ → NodeDeclaration R → NodeDeclaration R
  child_declaration tag parent_idx parent = record {
    tag = tag;
    full_path = parent.full_path ++ tag ∷ [];
    is_capture = false;
    rules = [];
    parent_index = some parent_idx;
  }

  unfoldable pub node : Str → TreeBuilder R → Option (TreeBuilder R)
  node tag b = elim (last b.parent_stack) [
    | none ↦ none
    | some parent_idx ↦ elim (get_elem? b.declarations parent_idx) [
      | none ↦ none
      | some parent ↦ some (record b {
        declarations = b.declarations ++ child_declaration tag parent_idx parent ∷ [];
        parent_stack = length b.declarations ∷ b.parent_stack;
      })
    ]
  ]

  -- `assert!` on the root
  unfoldable pub done : TreeBuilder R → Option (TreeBuilder R)
  done b =
      if ltb 1 (length b.parent_stack)
      then some (record b { parent_stack = popped b.parent_stack })
      else none

  unfoldable pub capture_limit : ℕ → TreeBuilder R → TreeBuilder R
  capture_limit bytes b = record b { capture_memory_limit = bytes }
