-- ===== src/Diagnostic.antt =====
-- src/diagnostic.rs
use xml_oxidator.Prelude.{ℕ, List}
use xml_oxidator.Text.{Str}
use xml_oxidator.Tree.Path.{PathSegment}

pub data Severity : Type 0 where
  error warning info : Severity

pub record Diagnostic : Type 0 where
  pub rule_name : Str
  pub message : Str
  pub element_path : List PathSegment
  pub element_index : ℕ
  pub severity : Severity
