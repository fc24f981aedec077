-- ===== src/Tree/Closed.antt =====
-- src/tree/descriptor.rs: the trees whose lookups stay within their nodes.
use xml_oxidator.Prelude.{ℕ, ◌<◌, ◌≡◌, Option, none, some, length}
use xml_oxidator.Text.{Str}
use xml_oxidator.Tree.Path.{NodeId}
use xml_oxidator.Tree.Descriptor.{DescriptorTree, child_of}

abbrev pub Below : ℕ → Option NodeId → Type 0
Below m none = Unit
Below m (some id) = id < m

module _ {R : Type 0} (t : DescriptorTree R) where
  abbrev pub Fits : NodeId → Type 0
  Fits id = id < length t.nodes

  abbrev pub FitsIfAny : Option NodeId → Type 0
  FitsIfAny = Below (length t.nodes)

  -- Lookups from inside the tree neither panic nor leave it.
  pub record IsClosed : Type 0 where
    pub root_fits : FitsIfAny t.root
    pub child_fits :
        (id : NodeId) (name : Str)
        → Fits id
        → (found : Option NodeId) × (child_of t id name ≡ some found) × FitsIfAny found
