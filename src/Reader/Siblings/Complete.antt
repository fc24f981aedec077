-- ===== src/Reader/Siblings/Complete.antt =====
-- The runs of Trace are all the runs of the event loop (src/reader/parser.rs).
use xml_oxidator.Rule.{Rule}
use xml_oxidator.Reader.Siblings.Trace.{Trace}
