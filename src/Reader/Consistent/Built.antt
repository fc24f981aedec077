-- ===== src/Reader/Consistent/Built.antt =====
-- The parser on a tree that `build` returns.
use xml_oxidator.Prelude.{◌<◌, ◌≡◌, ◌≢◌, subst, length, word, ok, panic, Safe}
use xml_oxidator.Errors.{BuilderError}
use xml_oxidator.Tree.Descriptor.{DescriptorTree}
use xml_oxidator.View.Answers.{RulesBehave}
use xml_oxidator.Tree.Closed.{IsClosed}
use xml_oxidator.Tree.Builder.{TreeBuilder}
use xml_oxidator.Tree.Builder.Calls.{Reached, Reached-IsWellBuilt}
use xml_oxidator.Tree.Build.{build}
use xml_oxidator.Tree.Build.Total.{build-Safe}
use xml_oxidator.Reader.Loop.{Input, parse_file}
use xml_oxidator.Reader.Consistent.Loop.{parse_file-ne-panic}
use xml_oxidator.Rule.{Rule}

module _ {R : Type 0} ⦃r : Rule R⦄ (X I : Type 0) where
  -- The builder, the tree and the parser fit together: whatever calls made the builder, a tree that
  -- it builds is parsed without a panic, on any sequence of fewer than 2^64 events, if its rules panic
  -- on no access that answers, that is, on none whose ancestors are found or said to be missing at
  -- every level below 2^64 - 1.
  pub parse_file-build :
      (b : TreeBuilder R)
      → Reached b
      → (t : DescriptorTree R) → build b ≡ ok t
      → RulesBehave t
      → (input : Input X) → length input < word
      → (parse_file {I = I} t input).0 ≢ panic
  parse_file-build b reached t built behave input room =
      parse_file-ne-panic X I t
        (subst (Safe {E = BuilderError} IsClosed) built
          (build-Safe b (Reached-IsWellBuilt reached)))
        behave input room
