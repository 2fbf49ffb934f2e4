-- ===== src/Frontend/Lexer.antt =====
-- src/frontend/lexer.rs. A text is its list of code points; the lexer's byte offset is kept beside
-- the text that stands behind it.
pub mod Spans
mod Tests
use circuitc.Prelude.{
  ℕ, zero, suc, ◌+◌, ◌-◌, Bool, true, false, not, ◌&&◌, ◌||◌, List, [], ◌∷◌, ◌++◌, Option, none,
  some, Text, codes, length, if◌then◌else◌, ◌==◌, leb,
}
use circuitc.Prelude.Unicode.{
  len_utf8, byte_len, is_ascii_digit, is_ascii_alphabetic, is_control, is_whitespace,
}
use circuitc.Frontend.Span.{Span, SourceDiagnostic, compare_diagnostics}
use circuitc.Prelude.Sorting.{sort_by}

pub data TokenKind : Type 0 where
  word : Text → TokenKind
  number : Text → TokenKind
  string : Text → TokenKind
  left_brace right_brace left_paren right_paren comma semicolon end_of_text : TokenKind

pub record Token : Type 0 where
  pub kind : TokenKind
  pub span : Span

-- `remaining` is `source.text[offset..]`.
pub record Lexer : Type 0 where
  pub remaining : Text
  pub offset : ℕ
  pub tokens : List Token
  pub diagnostics : List SourceDiagnostic

abbrev span : ℕ → ℕ → Span
span start end = record { start = start; end = end }

abbrev push : Lexer → TokenKind → ℕ → Lexer
push l kind start = record l {
  tokens = l.tokens ++ record { kind = kind; span = span start l.offset } ∷ [];
}

abbrev diagnose : Text → ℕ → ℕ → SourceDiagnostic
diagnose code start end = record { code = code; span = span start end; semantic_path = none }

abbrev pub starts_comment : Text → Bool
starts_comment (a ∷ b ∷ _) = a == b'/' && b == b'/'
starts_comment (_ ∷ []) = false
starts_comment [] = false

unfoldable pub is_word_character : ℕ → Bool
is_word_character c =
    is_ascii_alphabetic c
    || is_ascii_digit c
    || (c == b'_' || c == b'+' || c == b'-' || c == b'.' || c == b'/')
    || (leb 0x80 c && not (is_control c) && not (is_whitespace c))

abbrev pub all_digits : Text → Bool
all_digits [] = true
all_digits (c ∷ cs) = is_ascii_digit c && all_digits cs

-- `strip_prefix('-').unwrap_or(value)`
abbrev pub strip_minus : Text → Text
strip_minus [] = []
strip_minus (c ∷ cs) = if c == b'-' then cs else c ∷ cs

-- `split_once('.')`
unfoldable pub split_once : Text → Option (Text × Text)
split_once [] = none
split_once (c ∷ cs) =
    if c == b'.'
    then some ([], cs)
    else elim (split_once cs) [ none ↦ none | some (a, b) ↦ some (c ∷ a, b) ]

abbrev pub is_empty : Text → Bool
is_empty [] = true
is_empty (_ ∷ _) = false

abbrev pub whole_and_fraction : Text → Option (Text × Text) → Text × Text
whole_and_fraction unsigned none = (unsigned, [])
whole_and_fraction unsigned (some parts) = parts

abbrev pub contains_point : Text → Bool
contains_point [] = false
contains_point (c ∷ cs) = c == b'.' || contains_point cs

unfoldable pub decimal_is_lexical : Text → Bool
unfolding split_once
decimal_is_lexical value =
    let unsigned = strip_minus value in
    let (whole, fractional) = whole_and_fraction unsigned (split_once unsigned) in
    not (is_empty whole)
    && all_digits whole
    && (not (contains_point value) || not (is_empty fractional))
    && all_digits fractional

-- The loop of `skip_comment`: it eats the newline that ends the comment.
unfoldable pub skip_line : ℕ → Text → ℕ × Text
skip_line offset [] = (offset, [])
skip_line offset (c ∷ cs) =
    let more = skip_line (offset + len_utf8 c) cs in
    if c == b'\n' then (offset + len_utf8 c, cs) else more

abbrev rest_of : Text → Text
rest_of [] = []
rest_of (_ ∷ cs) = cs

unfoldable pub skip_comment : Lexer → Lexer
skip_comment l =
    let (offset, remaining) = skip_line (l.offset + 2) (rest_of (rest_of l.remaining)) in
    record l { offset = offset; remaining = remaining }

-- The loop of `lex_atom`: the atom, the offset behind it, and the text behind it.
unfoldable pub atom : ℕ → Text → Text × ℕ × Text
atom offset [] = ([], offset, [])
atom offset (c ∷ cs) =
    let more = atom (offset + len_utf8 c) cs in
    if is_word_character c && not (starts_comment (c ∷ cs))
    then (c ∷ more.0, more.1, more.2)
    else ([], offset, c ∷ cs)

unfoldable pub lex_atom : Lexer → Lexer
lex_atom l =
    let (value, offset, remaining) = atom l.offset l.remaining in
    push (record l { offset = offset; remaining = remaining })
      (if decimal_is_lexical value then number value else word value) l.offset

-- Where the loop of `lex_string` stands when it stops.
pub record StringEnd : Type 0 where
  pub terminated : Bool
  pub value : Text
  pub offset : ℕ
  pub remaining : Text
  pub diagnostics : List SourceDiagnostic

abbrev string_end : Bool → Text → ℕ → Text → List SourceDiagnostic → StringEnd
string_end terminated value offset remaining diagnostics = record {
  terminated = terminated;
  value = value;
  offset = offset;
  remaining = remaining;
  diagnostics = diagnostics;
}

-- A character behind a backslash, and the diagnostic that it may give.
abbrev escape_diagnostics : ℕ → ℕ → List SourceDiagnostic
escape_diagnostics escaped offset =
    if escaped == b'"' || escaped == b'\\'
    then []
    else diagnose (codes "CC-LANG-LEX-003") (offset - len_utf8 escaped - 1) offset ∷ []

unfoldable pub string_loop : Text → ℕ → Text → List SourceDiagnostic → StringEnd
string_loop [] offset value ds = string_end false value offset [] ds
string_loop (c ∷ []) offset value ds =
    let offset = offset + len_utf8 c in
    if c == b'"'
    then string_end true value offset [] ds
    else if c == b'\\' || c == b'\n' || c == b'\r'
    then string_end false value offset [] ds
    else string_end false (value ++ c ∷ []) offset [] ds
string_loop (c ∷ e ∷ es) offset value ds =
    let offset = offset + len_utf8 c in
    let behind = offset + len_utf8 e in
    let escaped = string_loop es behind (value ++ e ∷ []) (ds ++ escape_diagnostics e behind) in
    let plain = string_loop (e ∷ es) offset (value ++ c ∷ []) ds in
    if c == b'"'
    then string_end true value offset (e ∷ es) ds
    else if c == b'\\'
    then escaped
    else if c == b'\n' || c == b'\r'
    then string_end false value offset (e ∷ es) ds
    else plain

unfoldable pub lex_string : Lexer → Lexer
lex_string l =
    let s = string_loop (rest_of l.remaining) (l.offset + 1) [] l.diagnostics in
    let unterminated =
      if s.terminated then [] else diagnose (codes "CC-LANG-LEX-002") l.offset s.offset ∷ [] in
    push
      (record l {
        offset = s.offset;
        remaining = s.remaining;
        diagnostics = s.diagnostics ++ unterminated;
      })
      (string s.value) l.offset

abbrev pub punctuation : ℕ → Option TokenKind
punctuation c =
    if c == b'{'
    then some left_brace
    else if c == b'}'
    then some right_brace
    else if c == b'('
    then some left_paren
    else if c == b')'
    then some right_paren
    else if c == b','
    then some comma
    else if c == b';'
    then some semicolon
    else none

abbrev advance : Lexer → ℕ → Text → Lexer
advance l c cs = record l { offset = l.offset + len_utf8 c; remaining = cs }

-- One round of the loop of `run`, at a character that is no comment and no whitespace.
lex_token : Lexer → ℕ → Text → Option TokenKind → Lexer
lex_token l c cs (some kind) = push (advance l c cs) kind l.offset
lex_token l c cs none =
    if c == b'"'
    then lex_string l
    else if is_word_character c
    then lex_atom l
    else record (advance l c cs) {
      diagnostics =
          l.diagnostics ++ diagnose (codes "CC-LANG-LEX-001") l.offset (l.offset + len_utf8 c) ∷ [];
    }

unfoldable pub step : Lexer → ℕ → Text → Lexer
unfolding lex_token
step l c cs =
    if starts_comment (c ∷ cs)
    then skip_comment l
    else if is_whitespace c
    then advance l c cs
    else lex_token l c cs (punctuation c)

-- The loop of `run`; every round reads a character, so the text's length is fuel enough.
unfoldable pub rounds : ℕ → Lexer → Text → Lexer
rounds zero l _ = l
rounds (suc fuel) l [] = l
rounds (suc fuel) l (c ∷ cs) = let next = step l c cs in rounds fuel next next.remaining

abbrev pub initial : Text → Lexer
initial text = record { remaining = text; offset = 0; tokens = []; diagnostics = [] }

unfoldable pub run : Text → Lexer
run text =
    let done = rounds (length text) (initial text) text in
    record done {
      tokens =
          done.tokens
          ++ record { kind = end_of_text; span = span (byte_len text) (byte_len text) } ∷ [];
    }

unfoldable pub lex : Text → List Token × List SourceDiagnostic
lex text = let done = run text in (done.tokens, sort_by compare_diagnostics done.diagnostics)
