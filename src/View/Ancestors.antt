-- ===== src/View/Ancestors.antt =====
-- src/view.rs and src/reader/parser.rs: how every view reads the contexts of its ancestors. In the
-- results the outer `none` is the panic of an index out of bounds, and `some none` is the `None` that
-- says there is no such ancestor.
use xml_oxidator.Prelude.{
  ℕ, suc, ◌+◌, ◌-◌, ◌≤◌, ◌<◌, ◌≡◌, refl, ap, sym, ◌∙◌, true, false, get_at_top, get_at-push,
  get_elem?-lt, get_elem?-ge, List, ◌∷◌, Option, none, some, arith, ltb, Stack, get_at, length,
  get_elem?, if◌then◌else◌, add_usize, add_usize-eq-add, word,
}
use native.Mathlib.Decide.{dec_lt}
use xml_oxidator.Text.{Str}
use xml_oxidator.View.Summary.{ChildSummary, find_attr}
use xml_oxidator.Reader.Context.{NodeContext}

-- a.checked_sub(b)
abbrev pub checked_sub : ℕ → ℕ → Option ℕ
checked_sub a b = if ltb a b then none else some (a - b)

-- What is found at an index: a panic out of bounds.
abbrev pub present : {A : Type 0} → Option A → Option (Option A)
present none = none
present (some a) = some (some a)

-- The context `level + 1` places below `base`: `&stack[base.checked_sub(level + 1)?]`. The sum wraps,
-- so that level 2^64 - 1 asks for the place `base` itself.
unfoldable pub ancestor : ℕ → Stack NodeContext → ℕ → Option (Option NodeContext)
unfolding add_usize
ancestor base stack level = elim (checked_sub base (add_usize level 1)) [
  | none ↦ some none
  | some idx ↦ present (get_at stack idx)
]

-- What an access reads of the context that is found, if any.
abbrev pub of_ancestor :
    {A : Type 0} → (NodeContext → Option A) → Option (Option NodeContext) → Option (Option A)
of_ancestor read none = none
of_ancestor read (some none) = some none
of_ancestor read (some (some c)) = some (read c)

unfoldable pub ancestor_attr : ℕ → Stack NodeContext → ℕ → Str → Option (Option Str)
unfolding ancestor
ancestor_attr base stack level name =
    of_ancestor (λ c. find_attr c.attrs name) (ancestor base stack level)

unfoldable pub ancestor_text : ℕ → Stack NodeContext → ℕ → Option (Option Str)
unfolding ancestor
ancestor_text base stack level = of_ancestor (λ c. some c.text) (ancestor base stack level)

unfoldable pub ancestor_children : ℕ → Stack NodeContext → ℕ → Option (Option (List ChildSummary))
unfolding ancestor
ancestor_children base stack level = of_ancestor (λ c. some c.children) (ancestor base stack level)

ancestor-some :
    (base : ℕ) (stack : Stack NodeContext) (level : ℕ)
    → level + 1 < word
    → level < base
    → ancestor base stack level ≡ present (get_at stack (base - suc level))
unfolding ancestor
ancestor-some base stack level fits h =
    let exact : add_usize level 1 ≡ level + 1 = add_usize-eq-add level 1 fits in
    let inside : ltb base (level + 1) ≡ false = ground arith in
    let place : base - (level + 1) ≡ base - suc level = omega arith in
    rw (exact, inside, ancestor) (ap (λ (i : ℕ). present (get_at stack i)) place)

ancestor-none :
    (base : ℕ) (stack : Stack NodeContext) (level : ℕ)
    → level + 1 < word
    → base ≤ level
    → ancestor base stack level ≡ some none
unfolding ancestor
ancestor-none base stack level fits h =
    let exact : add_usize level 1 ≡ level + 1 = add_usize-eq-add level 1 fits in
    let outside : ltb base (level + 1) ≡ true = ground arith in rw (exact, outside, ancestor)

-- At the last level of `usize` the sum wraps to 0, and the index is the length.
ancestor-wrapped :
    (parents : Stack NodeContext) (level : ℕ)
    → level + 1 ≡ word
    → ancestor (length parents) parents level ≡ none
unfolding ancestor add_usize
ancestor-wrapped parents level h =
    let wrapped : add_usize level 1 ≡ 0 = omega arith in
    let outside : ltb (length parents - 0) (length parents) ≡ false = ground arith in
    let inside : ltb (length parents) 0 ≡ false = ground arith in
    rw (wrapped, inside, outside, ancestor)

present-found :
    (parents : Stack NodeContext) (level : ℕ)
    → level < length parents
    → present (get_elem? parents level) ≡ some (get_elem? parents level)
present-found parents level h = let (c, found) = get_elem?-lt parents level h in rw found

pub ancestor_within :
    (parents : Stack NodeContext) (level : ℕ)
    → level + 1 < word
    → ancestor (length parents) parents level ≡ some (get_elem? parents level)
ancestor_within parents level fits = elim (dec_lt level (length parents)) [
  | yes h ↦
      ancestor-some (length parents) parents level fits h
      ∙ ap present (get_at_top parents level h)
      ∙ present-found parents level h
  | no h ↦
      ancestor-none (length parents) parents level fits (omega arith)
      ∙ ap some (sym (get_elem?-ge parents level (omega arith)))
]

-- Over a whole stack of parents, for every level that a `usize` holds: level 0 is the last parent
-- pushed, each level more is one place below it, and there are no others; but at the last level of
-- `usize`, 2^64 - 1, the access panics.
pub ancestor_lem :
    (parents : Stack NodeContext) (level : ℕ)
    → level < word
    → ancestor (length parents) parents level
      ≡ (if ltb (level + 1) word then some (get_elem? parents level) else none)
ancestor_lem parents level h = elim (dec_lt (level + 1) word) [
  | yes fits ↦
      let inside : ltb (level + 1) word ≡ true = ground arith in
      ancestor_within parents level fits ∙ rw inside
  | no last ↦
      let outside : ltb (level + 1) word ≡ false = ground arith in
      ancestor-wrapped parents level (omega arith) ∙ rw outside
]

module _ (stack : Stack NodeContext) (level : ℕ) where
  -- A context pushed over the base is no ancestor.
  pub ancestor-push :
      (c : NodeContext)
      → level + 1 < word
      → ancestor (length stack) (c ∷ stack) level ≡ ancestor (length stack) stack level
  ancestor-push c fits = elim (dec_lt level (length stack)) [
    | yes h ↦
        ancestor-some (length stack) (c ∷ stack) level fits h
        ∙ ap present (get_at-push c stack (length stack - suc level) (omega arith))
        ∙ sym (ancestor-some (length stack) stack level fits h)
    | no h ↦
        ancestor-none (length stack) (c ∷ stack) level fits (omega arith)
        ∙ sym (ancestor-none (length stack) stack level fits (omega arith))
  ]

  -- One level up from `base + 1` is the level from `base`.
  pub ancestor-suc :
      (base : ℕ)
      → level + 2 < word
      → ancestor (suc base) stack (suc level) ≡ ancestor base stack level
  ancestor-suc base fits = elim (dec_lt level base) [
    | yes h ↦
        ancestor-some (suc base) stack (suc level) (omega arith) (omega arith)
        ∙ ap (λ (i : ℕ). present (get_at stack i)) (omega arith)
        ∙ sym (ancestor-some base stack level (omega arith) h)
    | no h ↦
        ancestor-none (suc base) stack (suc level) (omega arith) (omega arith)
        ∙ sym (ancestor-none base stack level (omega arith) (omega arith))
  ]

pub ancestor-zero :
    (base : ℕ) (stack : Stack NodeContext)
    → ancestor (suc base) stack 0 ≡ present (get_at stack base)
ancestor-zero base stack =
    ancestor-some (suc base) stack 0 (omega arith) (omega arith)
    ∙ ap (λ (i : ℕ). present (get_at stack i)) (omega arith)

-- An access panics only if the ancestor is out of bounds.
pub of_ancestor-some :
    {A : Type 0} (read : NodeContext → Option A) (o : Option (Option NodeContext))
    (found : Option NodeContext)
    → o ≡ some found
    → (x : Option A) × (of_ancestor read o ≡ some x)
of_ancestor-some read none found e = cc
of_ancestor-some read (some none) found e = (none, refl)
of_ancestor-some read (some (some c)) found e = (read c, refl)
