-- ===== src/Position/Tests.antt =====
-- Lines and columns of a small text.
use millie.Prelude.{◌≡◌, refl, [], ◌∷◌, some}
use millie.Token.{tok_id, tok_eof, MillieTokens}
use millie.Lexer.{
  Bytes, lex_buffer, run, step, scan, scan_other, add_identifier_token, span, is_digit,
  is_identifier_character, is_identifier_start, track_error,
}
use millie.Position.{get_line_column_for_position, search}
use millie.Position.Walk.{walk, get_line_column-walk}

-- "a\n bc"
abbrev text : Bytes
text = b'a' ∷ b'\n' ∷ b' ' ∷ b'b' ∷ b'c' ∷ []

abbrev tokens : MillieTokens
tokens = record {
  token_array =
      record { type = tok_id; start = 0; length = 1 }
      ∷ record { type = tok_id; start = 3; length = 2 }
      ∷ record { type = tok_eof; start = 5; length = 0 }
      ∷ [];
  line_array = 1 ∷ [];
  buffer = text;
}

read : lex_buffer text ≡ some (tokens, [])
unfolding lex_buffer run step scan scan_other add_identifier_token span is_digit
    is_identifier_character is_identifier_start track_error
read = refl

get_line_column-bc : get_line_column_for_position tokens 3 ≡ (2, 2)
unfolding get_line_column_for_position search
get_line_column-bc = refl

get_line_column-walk_example : get_line_column_for_position tokens 3 ≡ walk text 3 1 1
get_line_column-walk_example = get_line_column-walk text 3 read
