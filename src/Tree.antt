-- ===== src/Tree.antt =====
-- src/tree: the descriptor tree, the declarative schema of the expected XML.
pub mod Path
pub mod Needs
pub mod Search
pub mod Descriptor
pub mod Closed
pub mod Builder
pub mod Build
pub mod Tests
