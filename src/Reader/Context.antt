-- ===== src/Reader/Context.antt =====
-- src/reader/context.rs: stack frames and the pools that they come from.
use xml_oxidator.Prelude.{ℕ, ◌≡◌, refl, ap, List, [], ◌∷◌, Stack}
use xml_oxidator.Text.{Str}
use xml_oxidator.Tree.Path.{NodeId}
use xml_oxidator.View.Summary.{Attrs, ChildSummary}

pub record NodeContext : Type 0 where
  pub attrs : Attrs
  pub text : Str
  pub children : List ChildSummary
  pub descriptor_id : NodeId
  pub index : ℕ

pub record ContextPool : Type 0 where
  pub free : Stack NodeContext

abbrev pub empty_pool : ContextPool
empty_pool = record { free = [] }

abbrev acquire_from : Stack NodeContext → NodeId → Attrs → ℕ → NodeContext × ContextPool
acquire_from (ctx ∷ free) descriptor_id attrs index = (
  record ctx {
    descriptor_id = descriptor_id;
    attrs = attrs;
    text = [];
    children = [];
    index = index;
  },
  record { free = free },
)
acquire_from [] descriptor_id attrs index = (
  record { descriptor_id = descriptor_id; attrs = attrs; text = []; children = []; index = index },
  record { free = [] },
)

unfoldable pub acquire : ContextPool → NodeId → Attrs → ℕ → NodeContext × ContextPool
acquire pool = acquire_from pool.free

unfoldable pub release : ContextPool → NodeContext → ContextPool
release pool ctx = record { free = record ctx { attrs = []; text = []; children = [] } ∷ pool.free }

pub record AttrPool : Type 0 where
  pub free : Stack Attrs

abbrev pub empty_attr_pool : AttrPool
empty_attr_pool = record { free = [] }

unfoldable pub acquire_attrs : AttrPool → Attrs × AttrPool
acquire_attrs pool = elim pool.free [
  | [] ↦ ([], record { free = [] })
  | attrs ∷ free ↦ (attrs, record { free = free })
]

abbrev pub fresh : NodeId → Attrs → ℕ → NodeContext
fresh descriptor_id attrs index = record {
  attrs = attrs;
  text = [];
  children = [];
  descriptor_id = descriptor_id;
  index = index;
}

-- Whatever the pool holds, a context that it gives is the one that would be made anew: nothing of an
-- earlier element is seen in it.
pub acquire-eq-fresh :
    (pool : ContextPool) (id : NodeId) (attrs : Attrs) (index : ℕ)
    → (acquire pool id attrs index).0 ≡ fresh id attrs index
unfolding acquire
acquire-eq-fresh pool id attrs index = go pool.free
  where
    go : (free : Stack NodeContext) → (acquire_from free id attrs index).0 ≡ fresh id attrs index
    go [] = refl
    go (ctx ∷ free) = refl

pub acquire-descriptor_id :
    (pool : ContextPool) (id : NodeId) (attrs : Attrs) (index : ℕ)
    → (acquire pool id attrs index).0.descriptor_id ≡ id
acquire-descriptor_id pool id attrs index =
    ap (λ (c : NodeContext). c.descriptor_id) (acquire-eq-fresh pool id attrs index)

-- The empty pool gives empty attributes and stays empty.
pub acquire_attrs-empty : acquire_attrs empty_attr_pool ≡ ([], empty_attr_pool)
unfolding acquire_attrs
acquire_attrs-empty = refl
