-- ===== src/Frontend.antt =====
-- src/frontend: from source text to tokens and exact quantities.
pub mod Span
pub mod Lexer
pub mod Exact
