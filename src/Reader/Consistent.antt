-- ===== src/Reader/Consistent.antt =====
-- The invariant of the parser's local variables (src/reader/parser.rs), for a tree whose lookups
-- stay within the tree.
pub mod Opening
pub mod Start
pub mod Closing
pub mod End
pub mod Text
pub mod Loop
pub mod Built
pub mod Tests
use xml_oxidator.Prelude.{
  ℕ, suc, ◌+◌, ◌≤◌, ◌<◌, ◌≡◌, refl, List, [], ◌∷◌, map, Option, none, some, arith, Stack, length,
  Outcome, ok, err, panic, ◌>>=◌, Safe, Safe-bind, or_panic, subst, sym, from_result, ◌⊎◌, inl, inr,
}
use xml_oxidator.Text.{Str}
use xml_oxidator.Tree.Path.{NodeId}
use xml_oxidator.Tree.Descriptor.{DescriptorTree}
use xml_oxidator.Tree.Closed.{Fits}
use xml_oxidator.Reader.Context.{NodeContext, AttrPool, empty_attr_pool}
use xml_oxidator.Reader.Capture.{CaptureBuilder}
use xml_oxidator.Reader.State.{ReaderMode, streaming, capturing, ParserState, init}

module _ {R : Type 0} (t : DescriptorTree R) where
  abbrev pub AllFit : Stack NodeContext → Type 0
  AllFit [] = Unit
  AllFit (c ∷ cs) = Fits t c.descriptor_id × AllFit cs

-- The identifiers of the open elements.
abbrev pub open_ids : Stack NodeContext → Stack (Option NodeId)
open_ids [] = []
open_ids (c ∷ cs) = some c.descriptor_id ∷ open_ids cs

-- While capturing, the context of the captured element is the last one, and `depth` counts the
-- nodes that are open in the buffer.
abbrev pub CaptureFits : ℕ → CaptureBuilder → ℕ → NodeId → ℕ → Stack NodeContext → Type 0
CaptureFits n b depth id place [] = ⊥
CaptureFits n b depth id place (c ∷ parents) =
    (length parents ≡ place)
    × (c.descriptor_id ≡ id)
    × (length b.stack ≡ depth)
    × (0 < depth)
    × (depth ≤ n)
    × (b.memory_usage ≤ b.memory_limit)

abbrev pub ModeFits : ℕ → ReaderMode → Stack NodeContext → Type 0
ModeFits n streaming cs = Unit
ModeFits n (capturing b depth id place) cs = CaptureFits n b depth id place cs

-- After at most `n` opening tags.
pub record IsConsistent {R : Type 0} (t : DescriptorTree R) (n : ℕ) (s : ParserState) : Type 0 where
  pub in_step : s.descriptor_stack ≡ open_ids s.context_stack
  pub counted : length s.sibling_counters ≡ length s.context_stack
  pub fit : AllFit t s.context_stack
  pub skips : s.skip_depth ≤ n
  pub mode_fits : ModeFits n s.mode s.context_stack
  pub no_spare_attrs : s.attr_pool ≡ empty_attr_pool

pub init-IsConsistent : {R : Type 0} (t : DescriptorTree R) → IsConsistent t 0 init
init-IsConsistent t = record {
  in_step = refl;
  counted = refl;
  fit = tt;
  skips = omega arith;
  mode_fits = tt;
  no_spare_attrs = refl;
}

-- More opening tags may have been seen, and the skip depth may be any in range.
ModeFits-mono :
    (n m : ℕ) (mode : ReaderMode) (cs : Stack NodeContext)
    → n ≤ m
    → ModeFits n mode cs
    → ModeFits m mode cs
ModeFits-mono n m streaming cs h f = tt
ModeFits-mono n m (capturing b depth id place) [] h f = f
ModeFits-mono n m (capturing b depth id place) (c ∷ parents) h f =
    (f.0, f.1, f.2, f.3, omega arith, f.5)

pub skip-IsConsistent :
    {R : Type 0} (t : DescriptorTree R) (n m k : ℕ) (s : ParserState)
    → n ≤ m
    → k ≤ m
    → IsConsistent t n s
    → IsConsistent t m (record s { skip_depth = k })
skip-IsConsistent t n m k s h fits inv = record {
  in_step = inv.in_step;
  counted = inv.counted;
  fit = inv.fit;
  skips = fits;
  mode_fits = ModeFits-mono n m s.mode s.context_stack h inv.mode_fits;
  no_spare_attrs = inv.no_spare_attrs;
}

pub Safe-from_result :
    {X E A : Type 0} (f : X → E) (r : X ⊎ A) → Safe (λ _. Unit {0}) (from_result f r)
Safe-from_result f (inl x) = tt
Safe-from_result f (inr a) = tt

pub Safe-or_panic :
    (E : Type 0) {A : Type 0} (P : A → Type 0) {o : Option A} {a : A}
    → o ≡ some a
    → P a
    → Safe {E = E} P (or_panic o)
Safe-or_panic E {A} P {o} {a} e h = subst (λ (x : Option A). Safe {E = E} P (or_panic x)) (sym e) h
