-- ===== src/Macros.antt =====
-- src/macros.rs: `build_tree!`. The items of a node are data, and the macro expands them to calls on
-- the builder.
pub mod Expands
pub mod Tests
use xml_oxidator.Prelude.{Option, none, some, List, [], ◌∷◌, Outcome, panic, ◌>>=◌, or_panic}
use xml_oxidator.Text.{Str}
use xml_oxidator.Errors.{BuilderError}
use xml_oxidator.Tree.Descriptor.{DescriptorTree}
use xml_oxidator.Tree.Builder.{TreeBuilder, new, streaming, capture_subtree, rule, node, done}
use xml_oxidator.Tree.Build.{build}
use xml_oxidator.Rule.{Rule}

-- The optional `streaming` or `capture` after a tag.
pub data Mode : Type 0 where
  no_mode streaming_mode capture_mode : Mode

-- What stands between the braces, in its order: rules, and child nodes with their own items.
mutual
  pub data Item (R : Type 0) : Type 0 where
    rule_item : R → Item R
    child_item : Str → Mode → Items R → Item R

  pub data Items (R : Type 0) : Type 0 where
    nil : Items R
    cons : Item R → Items R → Items R

-- `and_then b f` is the next call of a chain, if the builder is there.
abbrev pub and_then : {A B : Type 0} → Option A → (A → Option B) → Option B
and_then none f = none
and_then (some a) f = f a

module _ {R : Type 0} where
  -- build_tree!(@mode builder, mode)
  unfoldable pub expand_mode : Mode → TreeBuilder R → Option (TreeBuilder R)
  unfolding streaming capture_subtree
  expand_mode no_mode b = some b
  expand_mode streaming_mode b = streaming b
  expand_mode capture_mode b = capture_subtree b

  -- build_tree!(@items builder, items)
  unfoldable mutual
    unfolding expand_mode rule node done

    pub expand_item : Item R → TreeBuilder R → Option (TreeBuilder R)
    expand_item (rule_item r) b = rule r b
    expand_item (child_item tag mode body) b =
        and_then (and_then (and_then (node tag b) (expand_mode mode)) (expand_items body)) done

    pub expand_items : Items R → TreeBuilder R → Option (TreeBuilder R)
    expand_items nil b = some b
    expand_items (cons item rest) b = and_then (expand_item item b) (expand_items rest)

-- build_tree!(tag mode { items })
unfoldable pub build_tree :
    {R : Type 0} ⦃r : Rule R⦄ → Str → Mode → Items R → Outcome BuilderError (DescriptorTree R)
unfolding expand_items build new
build_tree tag mode items = do
  builder ← or_panic (and_then (expand_mode mode (new tag)) (expand_items items))
  build builder
