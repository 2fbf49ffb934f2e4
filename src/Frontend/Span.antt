-- ===== src/Frontend/Span.antt =====
-- Spans and diagnostics: src/frontend/syntax.rs and src/frontend/diagnostic.rs. A diagnostic keeps
-- its code, its span and its semantic path; its file is the one being read, its line and column are
-- computed from the span, and its message is not modelled.
use circuitc.Prelude.{ℕ, min, max, Option, Text, compare, Ordering}
use circuitc.Prelude.Sorting.{then_order, compare_text, compare_option}

pub record Span : Type 0 where
  pub start : ℕ
  pub end : ℕ

-- `Span::through`
unfoldable pub through : Span → Span → Span
through a b = record { start = min a.start b.start; end = max a.end b.end }

pub record Spanned (A : Type 0) : Type 0 where
  pub value : A
  pub span : Span

pub record SourceDiagnostic : Type 0 where
  pub code : Text
  pub span : Span
  pub semantic_path : Option Text

-- `compare_diagnostics`, for two diagnostics of one file; equal spans and codes have equal messages.
unfoldable pub compare_diagnostics : SourceDiagnostic → SourceDiagnostic → Ordering
unfolding compare_text
compare_diagnostics a b = then_order (compare a.span.start b.span.start) (
    then_order (compare a.span.end b.span.end)
      (then_order (compare_text a.code b.code) (compare_option a.semantic_path b.semantic_path)))
