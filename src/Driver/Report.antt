-- ===== src/Driver/Report.antt =====
-- millie.c, `PrintErrors`: what is printed for each report.
pub mod Marks
use Prim.Native.String.{String}
use millie.Prelude.{
  ℕ, zero, suc, ◌+◌, List, [], ◌∷◌, Option, none, some, ◌>>=◌, ltb, leb, ◌==◌, if◌then◌else◌,
  length,
}
use millie.Errors.{Errors, ErrorReport}
use millie.Token.{MillieTokens}
use millie.Lexer.{Bytes}
use millie.Position.{get_line_column_for_position}
use millie.Position.Extract.{extract_line}

pub record PrintedError : Type 0 where
  pub start_line : ℕ
  pub start_col : ℕ
  pub message : String
  pub line : Bytes
  pub marks : Bytes

abbrev pub mark : ℕ → ℕ → ℕ → ℕ
mark start_col end_col i =
    if ltb i start_col
    then b' '
    else if i == start_col
    then b'^'
    else if ltb i end_col
    then b'~'
    else b' '

-- The loop over the columns, from `i` on for `n` columns.
abbrev pub marks_from : ℕ → ℕ → ℕ → ℕ → Bytes
marks_from start_col end_col i zero = []
marks_from start_col end_col i (suc n) =
    mark start_col end_col i ∷ marks_from start_col end_col (i + 1) n

-- A string as `%s` prints it: up to its first NUL.
abbrev pub c_string : Bytes → Bytes
c_string [] = []
c_string (c ∷ cs) = if c == 0 then [] else c ∷ c_string cs

unfoldable pub print_error : MillieTokens → ErrorReport → Option PrintedError
print_error tokens error =
    let start = get_line_column_for_position tokens error.start_pos in
    let end = get_line_column_for_position tokens error.end_pos in
    extract_line tokens start.0 >>= λ line. some (record {
      start_line = start.0;
      start_col = start.1;
      message = error.message;
      line = c_string line;
      marks = marks_from start.1 (if end.0 == start.0 then end.1 else length line) 1 (length line);
    })

unfoldable pub print_errors : MillieTokens → Errors → Option (List PrintedError)
print_errors tokens [] = some []
print_errors tokens (error ∷ errors) = do
  printed ← print_error tokens error
  others ← print_errors tokens errors
  some (printed ∷ others)
