-- ===== src/Lib.antt =====
-- xml-oxydizer validates XML files against a declared tree of expected elements. A `TreeBuilder`
-- (src/tree/builder.rs) collects declarations and checks them into a `DescriptorTree`; the parser
-- (src/reader/parser.rs) reads the events of a file, follows the tree with a stack of descriptors,
-- keeps a `NodeContext` per open element, or buffers a whole subtree where a node asks for it, and
-- evaluates the rules of an element when it closes. The diagnostics that the rules return go to a
-- channel.
--
-- The files and what they model:
--
--   Text, Text/Order, Text/Utf8   `str`: a text is the list of its bytes; comparison; from_utf8
--   Diagnostic, Errors, Rule      src/diagnostic.rs, src/error.rs, src/rule.rs
--   Tree/Path, Tree/Needs         src/tree/path.rs, and `NodeNeeds` of src/tree/descriptor.rs
--   Tree/Descriptor, Tree/Search  `DescriptorNode`, `DescriptorTree`, and the library's binary search
--   Tree/Builder                  the fluent methods of src/tree/builder.rs; Placed and Calls: chains
--   Tree/Build                    `TreeBuilder::build`; its children: what it accepts and returns
--   View/...                      src/view.rs, and `StreamingViewOwned` of src/reader/parser.rs
--   Reader/Context                src/reader/context.rs: stack frames and pools
--   Reader/Capture                src/reader/capture.rs; Replay, Arena, Roundtrip, Overflow: its tree
--   Reader/Events, Reader/State   what quick_xml returns, and the local variables of `parse_file`
--   Reader/Start, End, Loop       `handle_start`, `handle_end`, the text events and the loop
--   Reader/Loop/...               Skip, Empty, and Captured to Element: what single elements do
--   Reader/Sink, Reader/Siblings  the diagnostics buffer, the sibling counters; Trace to Index: in a run
--   Reader/Consistent             the invariant of the parser's state, and that nothing panics
--   Macros                        src/macros.rs: `build_tree!` as a chain of builder calls
--   Samples, */Tests              sample declarations, runs, and the theorems at concrete inputs
--
-- A value that is mutated in the program is passed on in the model. A panic (an index out of
-- bounds, an `unwrap`, an `assert!`) is a value: `panic` of `Outcome`, or `none` where a function
-- has no error. Where the result is itself an `Option`, as for the accesses to ancestors
-- (View/Ancestors), the outer `none` is the panic and `some none` the `None` of the program. `?`
-- is the bind of `Outcome`. Integers are natural numbers with the wrap-around of a release build
-- written out: `usize` and `u64` modulo 2^64, `u32` modulo 2^32. A `Vec` that is used as a stack
-- is a list with the last element first (Prelude/Vector).
--
-- What is outside the program is a parameter or an input. The type of quick_xml's errors and of
-- I/O errors is a parameter; `read_event_into` is the list of its results, with the results of
-- `decode` and of the attribute iterator inside the events, so that every theorem on the loop
-- holds for any reader. A rule is any record of the trait's operations; its `evaluate` is `none`
-- where it panics, and then the run panics; what is modelled of the channel after a panic is only
-- what the events before had sent. The theorems that exclude a panic of the parser take as a
-- hypothesis, `RulesBehave` (View/Answers), that the rules of the tree panic on no element whose
-- ancestors are answered for at every level below 2^64 - 1. At the level 2^64 - 1 itself `level +
-- 1` wraps to 0, and the accesses of the views of popped and captured elements panic, which a rule
-- that asks for it passes on. The channel is the list of what has been sent; a failed send is
-- ignored, as in the program. The arena of bumpalo is the tree that is allocated in it.
--
-- Fuel: the walk to a captured ancestor has the place of the declaration as fuel, which is enough
-- because a parent stands before its child (Tree/Build/Total); the binary search has the length of
-- the list; `find` and `find_all` have the size of the subtree (View/Descendants). All other
-- recursion is structural.
--
-- Not modelled: the pipeline over files (src/pipeline.rs), whose parallelism is that of rayon and
-- crossbeam; `Debug` and `Display` texts; capacities and inlining hints, which no result depends
-- on.
pub mod Prelude
pub mod Bits
pub mod Text
pub mod Diagnostic
pub mod Errors
pub mod Tree
pub mod View
pub mod Rule
pub mod Reader
pub mod Macros
pub mod Samples
