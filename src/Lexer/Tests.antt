-- ===== src/Lexer/Tests.antt =====
-- Runs of the lexer on small texts, and its theorems at these inputs.
use Prim.Native.Char.{code}
use Prim.Native.String.{String}
use millie.Prelude.{ℕ, ◌≡◌, refl, List, [], ◌∷◌, ◌++◌, none, some, arith, length, inl}
use millie.Errors.{ErrorReport}
use millie.Token.{
  TokenType, tok_eof, tok_id, tok_int_literal, tok_plus, tok_let, tok_in, tok_equals, MillieToken,
  MillieTokens,
}
use millie.Lexer.{
  Bytes, initial, lex_buffer, run, step, scan, scan_other, scan_equals, try_add_keyword,
  try_add_keywords, match_keyword, keyword_or_identifier, add_identifier_token, add_integer_literal,
  comment_length, span, is_digit, is_identifier_character, is_identifier_start, track_error,
}
use millie.Lexer.Round.{newlines}
use millie.Lexer.Output.{Reads, lex_buffer-lines, lex_buffer-Reads}
use millie.Lexer.Total.{IsReadable, lex_buffer-total}
use millie.Lexer.Faults.{run-open_comment}

-- The code points of a text, which are its bytes where it is ASCII.
abbrev codes : String → Bytes
codes String.[] = []
codes (String.◌∷◌ c s) = code c ∷ codes s

-- The lexer with all that it calls, for tests.
lexer : Bytes → ℕ
unfolding lex_buffer run step scan scan_other scan_equals try_add_keyword try_add_keywords
    match_keyword keyword_or_identifier add_identifier_token add_integer_literal comment_length span
    is_digit is_identifier_character is_identifier_start track_error
lexer = length

abbrev token : TokenType → ℕ → ℕ → MillieToken
token t pos len = record { type = t; start = pos; length = len }

abbrev sample : Bytes
sample = codes "let x1 = 12 # one\nin x1+lets"

abbrev sample_tokens : MillieTokens
sample_tokens = record {
  token_array =
      token tok_let 0 3
      ∷ token tok_id 4 2
      ∷ token tok_equals 7 1
      ∷ token tok_int_literal 9 2
      ∷ token tok_in 18 2
      ∷ token tok_id 21 2
      ∷ token tok_plus 23 1
      ∷ token tok_id 24 4
      ∷ token tok_eof 28 0
      ∷ [];
  line_array = 17 ∷ [];
  buffer = sample;
}

lex_buffer-sample : lex_buffer sample ≡ some (sample_tokens, [])
unfolding lexer
lex_buffer-sample = refl

-- Unexpected characters are one error, from the first of them to the next byte that is expected.
lex_buffer-unexpected :
    lex_buffer (codes "1 $$ 2")
    ≡ some (
      record {
        token_array =
            token tok_int_literal 0 1 ∷ token tok_int_literal 5 1 ∷ token tok_eof 6 0 ∷ [];
        line_array = [];
        buffer = codes "1 $$ 2";
      },
      record { message = "Unexpected characters"; start_pos = 2; end_pos = 4 } ∷ [],
    )
unfolding lexer
lex_buffer-unexpected = refl

-- At the end of the text they are no error.
lex_buffer-junk :
    lex_buffer (codes "1 $$")
    ≡ some (
      record {
        token_array = token tok_int_literal 0 1 ∷ token tok_eof 4 0 ∷ [];
        line_array = [];
        buffer = codes "1 $$";
      },
      [],
    )
unfolding lexer
lex_buffer-junk = refl

lex_buffer-lines_example : sample_tokens.line_array ≡ newlines 0 sample
lex_buffer-lines_example = lex_buffer-lines sample lex_buffer-sample

lex_buffer-Reads_example :
    (ts : List MillieToken) × (sample_tokens.token_array ≡ ts ++ token tok_eof 28 0 ∷ [])
    × Reads sample 0 ts 28
lex_buffer-Reads_example = lex_buffer-Reads sample lex_buffer-sample

commented : IsReadable (codes "1#\n")
commented = (
  omega arith,
  λ e. absurd (omega arith),
  (omega arith, λ _. inl refl, (omega arith, λ e. absurd (omega arith), tt)),
)

lex_buffer-total_example :
    (tokens : MillieTokens) × (errors : List ErrorReport) × (lex_buffer (codes "1#\n")
      ≡ some (tokens, errors))
lex_buffer-total_example = lex_buffer-total (codes "1#\n") commented

run-open_comment_example : run 3 (initial (codes "#12")) ≡ none
run-open_comment_example =
    run-open_comment 3 (initial (codes "#12")) (codes "12") refl (λ h. ground arith)
