-- ===== src/View/Tests.antt =====
-- The theorems of the views at concrete contexts and subtrees.
use mathlib.Core.Option
use xml_oxidator.Prelude.{
  ℕ, suc, ◌≡◌, ◌<◌, ◌↔◌, ◌||◌, ◌&&◌, ◌==◌, refl, true, get_elem?, [], ◌∷◌, some, none, arith, ◌+◌,
  word, ltb, add_usize, if◌then◌else◌,
}
use xml_oxidator.Text.{str, str_eq}
use xml_oxidator.Rule.{DynRule}
use xml_oxidator.Samples.{sample_tree}
use xml_oxidator.Reader.Context.{NodeContext, fresh}
use xml_oxidator.View.Results.{set, get, get-set, all_passed, all_passed_iff}
use xml_oxidator.View.Subtree.{
  SubtreeNode, subtree_node, nil, cons, size, tag, children, find_all, find,
}
use xml_oxidator.View.Descendants.{keep, preorders, first, find_all-eq-keep, find-eq-first}
use xml_oxidator.View.Streaming.{StreamingView, parent, ctx, streaming_access, owned_access}
use xml_oxidator.View.Ancestors.{ancestor, present, ancestor_lem}
use xml_oxidator.View.Answers.{Alike}
use xml_oxidator.View.Parents.{owned_access-Alike, ancestor-parent}

get-set_example : get (set 4 1 true) 1 ≡ (get 4 1 || (true && 1 == 1))
get-set_example = get-set 4 1 1 true (omega arith) (omega arith)

all_passed_iff_example : (all_passed 7 3 ≡ true) ↔ ((i : ℕ) → i < 3 → get 7 i ≡ true)
all_passed_iff_example = all_passed_iff 7 3 (omega arith)

-- <r><a/><b><a/></b></r>
abbrev leaf : SubtreeNode
leaf = subtree_node (str "a") [] [] nil

abbrev branch : SubtreeNode
branch = subtree_node (str "b") [] [] (cons leaf nil)

abbrev small : SubtreeNode
small = subtree_node (str "r") [] [] (cons leaf (cons branch nil))

find_all_runs : find_all small (str "a") ≡ some (leaf ∷ leaf ∷ [])
unfolding find_all size str_eq
find_all_runs = refl

find_all-eq-keep_example :
    find_all small (str "a")
    ≡ some (keep (λ m. str_eq (tag m) (str "a")) (preorders (children small)))
find_all-eq-keep_example = find_all-eq-keep small (str "a")

find-eq-first_example : find small (str "b") ≡ Option.map first (find_all small (str "b"))
find-eq-first_example = find-eq-first small (str "b")

-- The contexts of an item below the root.
abbrev outer : NodeContext
outer = fresh 0 ((str "k", str "v") ∷ []) 0

abbrev inner : NodeContext
inner = fresh 1 [] 0

owned_access-Alike_example :
    Alike (owned_access (record { ctx = inner; parent_stack = outer ∷ []; tree = sample_tree })) (
      streaming_access
        (record { stack = inner ∷ outer ∷ []; index_in_stack = 1; tree = sample_tree }))
owned_access-Alike_example = owned_access-Alike inner (outer ∷ []) sample_tree

abbrev inner_view : StreamingView DynRule
inner_view = record { stack = inner ∷ outer ∷ []; index_in_stack = 1; tree = sample_tree }

abbrev outer_view : StreamingView DynRule
outer_view = record { stack = inner ∷ outer ∷ []; index_in_stack = 0; tree = sample_tree }

parent_runs : parent inner_view ≡ some outer_view
unfolding parent
parent_runs = refl

ancestor-parent_example :
    (ancestor 1 (inner ∷ outer ∷ []) 0 ≡ present (ctx outer_view))
    × ((level : ℕ)
        → level + 2 < word
        → ancestor 1 (inner ∷ outer ∷ []) (suc level) ≡ ancestor 0 (inner ∷ outer ∷ []) level)
ancestor-parent_example = ancestor-parent inner_view outer_view parent_runs

ancestor_lem_example :
    ancestor 2 (inner ∷ outer ∷ []) 1
    ≡ (if ltb 2 word then some (get_elem? (inner ∷ outer ∷ []) 1) else none)
ancestor_lem_example = ancestor_lem (inner ∷ outer ∷ []) 1 (omega arith)

-- The last level of `usize`: over the parents the access panics, and the indexed view gives its own
-- context.
last_level-popped : ancestor 2 (inner ∷ outer ∷ []) 0xffffffffffffffff ≡ none
unfolding ancestor add_usize
last_level-popped = refl

last_level-indexed : ancestor 1 (inner ∷ outer ∷ []) 0xffffffffffffffff ≡ some (some inner)
unfolding ancestor add_usize
last_level-indexed = refl
