-- ===== src/Errors.antt =====
-- src/error.rs: the errors of the builder, of the reader and of the pipeline.
use xml_oxidator.Prelude.{ℕ}
use xml_oxidator.Text.{Str}
use xml_oxidator.Text.Utf8.{Utf8Error}

pub data BuilderError : Type 0 where
  no_root : BuilderError
  -- path, parent_path
  orphan_node : Str → Str → BuilderError
  -- node_path, rule_name
  incompatible_access_mode : Str → Str → BuilderError
  -- path
  duplicate_path : Str → BuilderError
  -- inner, outer
  nested_capture : Str → Str → BuilderError

-- `X` is `quick_xml::Error` and `I` is `std::io::Error`.
pub data ReaderError (X I : Type 0) : Type 0 where
  xml_parse : X → ReaderError X I
  io : I → ReaderError X I
  -- path, limit
  capture_overflow : Str → ℕ → ReaderError X I
  -- expected, found
  root_mismatch : Str → Str → ReaderError X I
  utf8 : Utf8Error → ReaderError X I

pub data PipelineError (X I : Type 0) : Type 0 where
  -- filename, source
  reader : Str → ReaderError X I → PipelineError X I
