-- ===== src/Reader/State.antt =====
-- src/reader/parser.rs: the mode and the local variables of `parse_file`.
use xml_oxidator.Prelude.{ℕ, [], Option, Stack}
use xml_oxidator.Tree.Path.{NodeId}
use xml_oxidator.Reader.Capture.{CaptureBuilder}
use xml_oxidator.Reader.Context.{NodeContext, ContextPool, empty_pool, AttrPool, empty_attr_pool}
use xml_oxidator.Reader.Siblings.{Counters}
use xml_oxidator.Reader.Sink.{Sink}

pub data ReaderMode : Type 0 where
  streaming : ReaderMode
  -- builder, depth, descriptor_id, context_stack_index
  capturing : CaptureBuilder → ℕ → NodeId → ℕ → ReaderMode

pub record ParserState : Type 0 where
  pub context_stack : Stack NodeContext
  pub descriptor_stack : Stack (Option NodeId)
  pub mode : ReaderMode
  pub skip_depth : ℕ
  pub sibling_counters : Stack Counters
  pub sibling_pool : Stack Counters
  pub ctx_pool : ContextPool
  pub attr_pool : AttrPool
  pub sink : Sink

-- The state before the first event; `sent` is what the channel holds.
abbrev pub init : ParserState
init = record {
  context_stack = [];
  descriptor_stack = [];
  mode = streaming;
  skip_depth = 0;
  sibling_counters = [];
  sibling_pool = [];
  ctx_pool = empty_pool;
  attr_pool = empty_attr_pool;
  sink = record { diag_buffer = []; sent = [] };
}
