-- ===== src/View.antt =====
-- src/view.rs: what a rule sees of an element.
pub mod Results
pub mod Summary
pub mod Subtree
pub mod Descendants
pub mod Ancestors
pub mod Streaming
pub mod Captured
pub mod Answers
pub mod Parents
pub mod Tests
