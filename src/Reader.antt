-- ===== src/Reader.antt =====
-- src/reader: the event loop, its per-element contexts and the capture of subtrees.
pub mod Context
pub mod Capture
pub mod Events
pub mod Siblings
pub mod Sink
pub mod State
pub mod Start
pub mod End
pub mod Loop
pub mod Consistent
pub mod Tests
