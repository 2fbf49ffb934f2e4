-- ===== src/Frontend/Lexer/Tests.antt =====
-- Runs of the lexer on the texts of its own tests, and the theorems at one of them.
use circuitc.Prelude.{◌≡◌, refl, [], ◌∷◌, ◌++◌, List, map, Text, codes}
use circuitc.Prelude.Unicode.{len_utf8}
use circuitc.Frontend.Lexer.{
  Token, TokenKind, word, number, string, semicolon, end_of_text, lex, run, rounds, step,
  skip_comment, skip_line, lex_atom, lex_string, string_loop, atom, is_word_character,
  decimal_is_lexical,
}
use circuitc.Prelude.Unicode.{byte_len}
use circuitc.Frontend.Lexer.Spans.{Spans, run_reads_all, lex-Spans}

abbrev kinds : Text → List TokenKind
kinds text = map (λ t. t.kind) (lex text).0

comment_behind_word :
    kinds (codes "ground GND// comment\n;")
    ≡ word (codes "ground") ∷ word (codes "GND") ∷ semicolon ∷ end_of_text ∷ []
unfolding lex run rounds step skip_comment skip_line lex_atom atom is_word_character
    decimal_is_lexical len_utf8
comment_behind_word = refl

digits_first :
    kinds (codes "1V 1-2 \"a\\\"b\" 1;")
    ≡ word (codes "1V")
      ∷ word (codes "1-2")
      ∷ string (codes "a\"b")
      ∷ number (codes "1")
      ∷ semicolon
      ∷ end_of_text
      ∷ []
unfolding lex run rounds step lex_atom lex_string string_loop atom is_word_character
    decimal_is_lexical len_utf8
digits_first = refl

abbrev broken : Text
broken = codes "net \"GND ;\n // end"

run_reads_all_example : ((run broken).remaining ≡ []) × ((run broken).offset ≡ byte_len broken)
run_reads_all_example = run_reads_all broken

lex-Spans_example :
    (tokens : List Token) × ((lex broken).0
      ≡ tokens
        ++ record {
          kind = end_of_text;
          span = record { start = byte_len broken; end = byte_len broken };
        }
          ∷ [])
    × Spans 0 tokens (byte_len broken)
lex-Spans_example = lex-Spans broken
