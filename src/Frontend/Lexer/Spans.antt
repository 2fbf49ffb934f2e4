-- ===== src/Frontend/Lexer/Spans.antt =====
-- The spans of the tokens: in the order of the text, never overlapping, and inside the file.
use circuitc.Prelude.{
  ℕ, zero, suc, ◌+◌, ◌≤◌, ◌≡◌, inl, inr, refl, ap, ◌∙◌, arith, true, false, List, [], ◌∷◌, ◌++◌,
  Option, none, some, Text, length, ◌==◌, Bool-cases,
}
use circuitc.Prelude.Unicode.{len_utf8, byte_len, is_whitespace}
use circuitc.Frontend.Span.{SourceDiagnostic}
use circuitc.Frontend.Lexer.{
  Token, TokenKind, end_of_text, Lexer, lex, run, rounds, step, skip_comment, skip_line, lex_atom,
  lex_string, string_loop, atom, is_word_character, starts_comment, lex_token, punctuation, initial,
  escape_diagnostics,
}

-- The tokens lie between two offsets, each one behind the one before.
abbrev pub Spans : ℕ → List Token → ℕ → Type 0
Spans lo [] hi = lo ≤ hi
Spans lo (t ∷ ts) hi = (lo ≤ t.span.start) × (t.span.start ≤ t.span.end) × Spans t.span.end ts hi

Spans-mono : (lo hi hi' : ℕ) (ts : List Token) → hi ≤ hi' → Spans lo ts hi → Spans lo ts hi'
Spans-mono lo hi hi' [] h s = omega arith
Spans-mono lo hi hi' (t ∷ ts) h s = (s.0, s.1, Spans-mono t.span.end hi hi' ts h s.2)

Spans-append :
    (lo hi hi' : ℕ) (ts : List Token) (t : Token)
    → Spans lo ts hi
    → hi ≤ t.span.start
    → t.span.start ≤ t.span.end
    → t.span.end ≤ hi'
    → Spans lo (ts ++ t ∷ []) hi'
Spans-append lo hi hi' [] t s a b c = omega arith
Spans-append lo hi hi' (u ∷ ts) t s a b c =
    (s.0, s.1, Spans-append u.span.end hi hi' ts t s.2 a b c)

-- What the lexer has done with a text of `total` bytes.
record IsLexing (total : ℕ) (l : Lexer) : Type 0 where
  offset_is : l.offset + byte_len l.remaining ≡ total
  spans : Spans 0 l.tokens l.offset

skip_line_offset :
    (offset : ℕ) (cs : Text)
    → ((skip_line offset cs).0 + byte_len (skip_line offset cs).1 ≡ offset + byte_len cs)
      × (offset ≤ (skip_line offset cs).0)
      × (length (skip_line offset cs).1 ≤ length cs)
unfolding skip_line
skip_line_offset offset [] = omega arith
skip_line_offset offset (c ∷ cs) = ground (arith, skip_line_offset (offset + len_utf8 c) cs)

atom_offset :
    (offset : ℕ) (cs : Text)
    → ((atom offset cs).1 + byte_len (atom offset cs).2 ≡ offset + byte_len cs)
      × (offset ≤ (atom offset cs).1)
      × (length (atom offset cs).2 ≤ length cs)
unfolding atom
atom_offset offset [] = omega arith
atom_offset offset (c ∷ cs) = ground (arith, atom_offset (offset + len_utf8 c) cs)

string_loop_offset :
    (cs : Text) (offset : ℕ) (value : Text) (ds : List SourceDiagnostic)
    → ((string_loop cs offset value ds).offset + byte_len (string_loop cs offset value ds).remaining
        ≡ offset + byte_len cs)
      × (offset ≤ (string_loop cs offset value ds).offset)
      × (length (string_loop cs offset value ds).remaining ≤ length cs)
unfolding string_loop
string_loop_offset [] offset value ds = omega arith
string_loop_offset (c ∷ []) offset value ds = ground arith
string_loop_offset (c ∷ e ∷ es) offset value ds = ground (
  arith,
  string_loop_offset (e ∷ es) (offset + len_utf8 c) (value ++ c ∷ []) ds,
  string_loop_offset es (offset + len_utf8 c + len_utf8 e) (value ++ e ∷ [])
      (ds ++ escape_diagnostics e (offset + len_utf8 c + len_utf8 e)),
)

-- A round reads on: the invariant is kept and less is left.
abbrev Reads : ℕ → Lexer → ℕ → Type 0
Reads total l size = IsLexing total l × (length l.remaining ≤ size)

comment_bytes :
    (c d : ℕ) (cs : Text) → starts_comment (c ∷ d ∷ cs) ≡ true → (len_utf8 c ≡ 1) × (len_utf8 d ≡ 1)
unfolding len_utf8
comment_bytes c d cs h = ground arith

quote_byte : len_utf8 b'"' ≡ 1
unfolding len_utf8
quote_byte = refl

atom_reads :
    (offset c : ℕ) (cs : Text)
    → is_word_character c ≡ true
    → starts_comment (c ∷ cs) ≡ false
    → length (atom offset (c ∷ cs)).2 ≤ length cs
unfolding atom
atom_reads offset c cs w n = rw (w, n) (atom_offset (offset + len_utf8 c) cs).2

skip_comment-Reads :
    (total : ℕ) (l : Lexer) (c d : ℕ) (cs : Text)
    → l.remaining ≡ c ∷ d ∷ cs
    → starts_comment (c ∷ d ∷ cs) ≡ true
    → IsLexing total l
    → Reads total (skip_comment l) (length (d ∷ cs))
unfolding skip_comment
skip_comment-Reads total l c d cs e h v =
    let slashes = comment_bytes c d cs h in
    let skipped = skip_line_offset (l.offset + 2) cs in
    rw e (
      record {
        offset_is = omega (arith, v.offset_is, ap byte_len e);
        spans = Spans-mono 0 l.offset _ l.tokens (omega arith) v.spans;
      },
      omega arith,
    )

lex_atom-Reads :
    (total : ℕ) (l : Lexer) (c : ℕ) (cs : Text)
    → l.remaining ≡ c ∷ cs
    → is_word_character c ≡ true
    → starts_comment (c ∷ cs) ≡ false
    → IsLexing total l
    → Reads total (lex_atom l) (length cs)
unfolding lex_atom
lex_atom-Reads total l c cs e w n v =
    let read = atom_offset l.offset l.remaining in
    let less = atom_reads l.offset c cs w n in
    (
      record {
        offset_is = omega (arith, v.offset_is);
        spans =
            Spans-append 0 l.offset _ l.tokens _ v.spans (omega arith) (omega arith) (omega arith);
      },
      rw e less,
    )

lex_string-Reads :
    (total : ℕ) (l : Lexer) (cs : Text)
    → l.remaining ≡ b'"' ∷ cs
    → IsLexing total l
    → Reads total (lex_string l) (length cs)
unfolding lex_string
lex_string-Reads total l cs e v =
    let read = string_loop_offset cs (l.offset + 1) [] l.diagnostics in
    rw e (
      record {
        offset_is = omega (arith, v.offset_is, ap byte_len e, quote_byte);
        spans =
            Spans-append 0 l.offset _ l.tokens _ v.spans (omega arith) (omega arith) (omega arith);
      },
      omega arith,
    )

advance-Reads :
    (total : ℕ) (l : Lexer) (c : ℕ) (cs : Text)
    → l.remaining ≡ c ∷ cs
    → IsLexing total l
    → IsLexing total (record l { offset = l.offset + len_utf8 c; remaining = cs })
advance-Reads total l c cs e v = record {
  offset_is = omega (arith, v.offset_is, ap byte_len e);
  spans = Spans-mono 0 l.offset _ l.tokens (omega arith) v.spans;
}

lex_token-Reads :
    (total : ℕ) (l : Lexer) (c : ℕ) (cs : Text) (p : Option TokenKind)
    → l.remaining ≡ c ∷ cs
    → starts_comment (c ∷ cs) ≡ false
    → IsLexing total l
    → Reads total (lex_token l c cs p) (length cs)
unfolding lex_token
lex_token-Reads total l c cs (some kind) e n v = (
  record {
    offset_is = (advance-Reads total l c cs e v).offset_is;
    spans = Spans-append 0 l.offset _ l.tokens _ v.spans (omega arith) (omega arith) (omega arith);
  },
  omega arith,
)
lex_token-Reads total l c cs none e n v = elim (Bool-cases (c == b'"')) [
  | inl quote ↦
      let is_quote : c ≡ b'"' = ground arith in
      rw quote (lex_string-Reads total l cs (e ∙ ap (λ (t : ℕ). t ∷ cs) is_quote) v)
  | inr other ↦ elim (Bool-cases (is_word_character c)) [
    | inl w ↦ rw (other, w) (lex_atom-Reads total l c cs e w n v)
    | inr no_word ↦
        rw (other, no_word)
          (
            record {
              offset_is = (advance-Reads total l c cs e v).offset_is;
              spans = (advance-Reads total l c cs e v).spans;
            },
            omega arith,
          )
  ]
]

step-Reads :
    (total : ℕ) (l : Lexer) (c : ℕ) (cs : Text)
    → l.remaining ≡ c ∷ cs
    → IsLexing total l
    → Reads total (step l c cs) (length cs)
unfolding step
step-Reads total l c cs e v = elim (Bool-cases (starts_comment (c ∷ cs))) [
  | inl comment ↦ rw comment (comment_case cs e comment)
  | inr no_comment ↦ elim (Bool-cases (is_whitespace c)) [
    | inl blank ↦ rw (no_comment, blank) (advance-Reads total l c cs e v, omega arith)
    | inr solid ↦
        rw (no_comment, solid) (lex_token-Reads total l c cs (punctuation c) e no_comment v)
  ]
]
  where
    comment_case :
        (cs : Text)
        → l.remaining ≡ c ∷ cs
        → starts_comment (c ∷ cs) ≡ true
        → Reads total (skip_comment l) (length cs)
    comment_case [] e h = cc
    comment_case (d ∷ ds) e h = skip_comment-Reads total l c d ds e h v

-- With a round for each character the loop reads the whole text.
rounds_done :
    (total fuel : ℕ) (l : Lexer) (text : Text)
    → l.remaining ≡ text
    → length text ≤ fuel
    → IsLexing total l
    → IsLexing total (rounds fuel l text) × ((rounds fuel l text).remaining ≡ [])
unfolding rounds
rounds_done total zero l [] e h v = (v, e)
rounds_done total zero l (c ∷ cs) e h v = absurd (omega arith)
rounds_done total (suc fuel) l [] e h v = (v, e)
rounds_done total (suc fuel) l (c ∷ cs) e h v =
    let (next, less) = step-Reads total l c cs e v in
    rounds_done total fuel (step l c cs) (step l c cs).remaining refl (omega arith) next

initial-IsLexing : (text : Text) → IsLexing (byte_len text) (initial text)
initial-IsLexing text = record { offset_is = omega arith; spans = omega arith }

-- Whatever the text, the lexer's loop stops behind its last character.
pub run_reads_all :
    (text : Text) → ((run text).remaining ≡ []) × ((run text).offset ≡ byte_len text)
unfolding run
run_reads_all text =
    let (v, all_read) =
      rounds_done (byte_len text) (length text) (initial text) text refl (omega arith)
        (initial-IsLexing text) in
    (all_read, omega (arith, v.offset_is, ap byte_len all_read))

-- Whatever the text, the tokens lie inside it in order and never overlap, and behind them stands
-- the end token, at the end of the text.
pub lex-Spans :
    (text : Text)
    → (tokens : List Token) × ((lex text).0
        ≡ tokens
          ++ record {
            kind = end_of_text;
            span = record { start = byte_len text; end = byte_len text };
          }
            ∷ [])
      × Spans 0 tokens (byte_len text)
unfolding lex run
lex-Spans text =
    let (v, all_read) =
      rounds_done (byte_len text) (length text) (initial text) text refl (omega arith)
        (initial-IsLexing text) in
    (
      (rounds (length text) (initial text) text).tokens,
      refl,
      Spans-mono 0 _ _ _ (omega (arith, v.offset_is)) v.spans,
    )
