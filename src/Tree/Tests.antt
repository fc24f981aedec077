-- ===== src/Tree/Tests.antt =====
-- Runs of the builder, and the theorems of the tree at concrete declarations.
use xml_oxidator.Prelude.{◌≡◌, ◌↔◌, ◌||◌, refl, some, false, [], ◌∷◌, ok, err, Safe, arith}
use xml_oxidator.Text.{str, str_eq}
use xml_oxidator.Tree.Path.{format_path}
use xml_oxidator.Rule.{DynRule, dyn_rule}
use xml_oxidator.Samples.{
  has_text, finished, finished-Reached, sample_tree, build-finished, root_declaration,
  item_declaration, limit,
}
use xml_oxidator.Errors.{incompatible_access_mode}
use xml_oxidator.Tree.Needs.{contains, union, is_capture, contains-union}
use xml_oxidator.Tree.Descriptor.{DescriptorTree, child_of}
use xml_oxidator.Tree.Build.Found.{IsDeclared, child_of-build_iff}
use xml_oxidator.Tree.Closed.{IsClosed}
use xml_oxidator.Tree.Builder.{TreeBuilder}
use xml_oxidator.Tree.Builder.Calls.{open_node, call, call-IsWellBuilt, Reached-IsWellBuilt}
use xml_oxidator.Tree.Builder.Placed.{IsWellBuilt}
use xml_oxidator.Tree.Build.{build}
use xml_oxidator.Tree.Build.Accepts.{IsAcceptable, build-ok_iff}
use xml_oxidator.Tree.Build.Reports.{Reports, build-Reports}
use xml_oxidator.Tree.Build.Total.{build-Safe}

build-ok_iff_example :
    ((t : DescriptorTree DynRule) × (build finished ≡ ok t)) ↔ IsAcceptable finished.declarations
build-ok_iff_example = build-ok_iff finished finished-Reached

build-Safe_example : Safe IsClosed (build finished)
build-Safe_example = build-Safe finished (Reached-IsWellBuilt finished-Reached)

Reached-IsWellBuilt_example : IsWellBuilt finished
Reached-IsWellBuilt_example = Reached-IsWellBuilt finished-Reached

call-IsWellBuilt_example :
    (b : TreeBuilder DynRule) × (call (open_node (str "j")) finished ≡ some b) × IsWellBuilt b
call-IsWellBuilt_example =
    call-IsWellBuilt (open_node (str "j")) finished (Reached-IsWellBuilt finished-Reached) tt

-- A rule that needs a capture, at a streaming node.
abbrev rejected : TreeBuilder DynRule
rejected = record {
  declarations = root_declaration ∷ item_declaration false (has_text ∷ []) ∷ [];
  parent_stack = 0 ∷ [];
  capture_memory_limit = limit;
}

build-rejected : build rejected ≡ err (incompatible_access_mode (str "r/i") (str "has-text"))
unfolding build str_eq is_capture format_path
build-rejected = refl

build-Reports_example :
    Reports rejected.declarations (incompatible_access_mode (str "r/i") (str "has-text"))
build-Reports_example =
    build-Reports rejected (incompatible_access_mode (str "r/i") (str "has-text")) build-rejected

contains-union_example : contains (union 1 8) 8 ≡ (contains 1 8 || contains 8 8)
contains-union_example = contains-union 1 8 3

child_of-build_iff_example :
    (child_of sample_tree 0 (str "i") ≡ some (some 1))
    ↔ IsDeclared finished.declarations 0 (str "i") 1
child_of-build_iff_example =
    child_of-build_iff finished finished-Reached sample_tree build-finished (omega arith) 0
      (omega arith) (str "i") 1
