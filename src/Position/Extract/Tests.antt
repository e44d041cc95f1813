-- ===== src/Position/Extract/Tests.antt =====
-- The lines of small texts.
use millie.Prelude.{ℕ, ◌+◌, ◌≡◌, refl, [], ◌∷◌, none, some, arith, get_elem?}
use millie.Token.{tok_id, tok_eof, MillieTokens}
use millie.Lexer.{
  Bytes, lex_buffer, run, step, scan, scan_other, add_identifier_token, span, is_digit,
  is_identifier_character, is_identifier_start, track_error,
}
use millie.Position.{get_line_column_for_position}
use millie.Position.Extract.{extract_line, extract_token}
use millie.Position.Extract.Lines.{line_of, extract_line-line_of}
use millie.Position.Extract.Columns.{extract_line-column}

-- "a\n bc\n", and the same without its last newline
abbrev text : Bytes
text = b'a' ∷ b'\n' ∷ b' ' ∷ b'b' ∷ b'c' ∷ b'\n' ∷ []

abbrev unended : Bytes
unended = b'a' ∷ b'\n' ∷ b' ' ∷ b'b' ∷ b'c' ∷ []

abbrev tokens : MillieTokens
tokens = record {
  token_array =
      record { type = tok_id; start = 0; length = 1 }
      ∷ record { type = tok_id; start = 3; length = 2 }
      ∷ record { type = tok_eof; start = 6; length = 0 }
      ∷ [];
  line_array = 1 ∷ 5 ∷ [];
  buffer = text;
}

read : lex_buffer text ≡ some (tokens, [])
unfolding lex_buffer run step scan scan_other add_identifier_token span is_digit
    is_identifier_character is_identifier_start track_error
read = refl

extract_token-bc : extract_token tokens 1 ≡ some (b'b' ∷ b'c' ∷ [])
unfolding extract_token
extract_token-bc = refl

-- The second line has no newline behind it, and its end is read behind the line array.
extract_line-unended :
    extract_line (record tokens { buffer = unended; line_array = 1 ∷ [] }) 2 ≡ none
unfolding extract_line
extract_line-unended = refl

extract_line-line_of_example : extract_line tokens 2 ≡ line_of text 1
extract_line-line_of_example = extract_line-line_of text 1 read (omega arith)

extract_line-column_example :
    (line column : ℕ) × (contents : Bytes) × (get_line_column_for_position tokens 3
      ≡ (line, column + 1))
    × (extract_line tokens line ≡ some contents)
    × (get_elem? contents column ≡ some b'b')
extract_line-column_example =
    extract_line-column text 3 5 b'b' read (omega arith) refl refl refl (omega arith)
