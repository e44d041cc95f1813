-- ===== src/Position/Extract.antt =====
-- lexer.c, `ExtractLine` and `ExtractToken`: parts of the text as strings.
pub mod Cut
pub mod Lines
pub mod Columns
mod Tests
use millie.Prelude.{
  ℕ, ◌+◌, ◌-◌, ◌%◌, ◌^◌, List, Option, none, some, ◌>>=◌, ltb, leb, ◌==◌, if◌then◌else◌, length,
  get_elem?, take, drop,
}
use millie.Token.{MillieTokens}
use millie.Lexer.{Bytes}

-- `MStringCreateN(MStringData(text) + start, length)`; `none` where it reads behind the text.
abbrev pub create_n : Bytes → ℕ → ℕ → Option Bytes
create_n text start size =
    if leb (start + size) (length text) then some (take size (drop start text)) else none

abbrev pub start_of_line : List ℕ → ℕ → Option ℕ
start_of_line line_ends line_index =
    if ltb 0 line_index
    then (get_elem? line_ends (line_index - 1) >>= λ end_before. some (end_before + 1))
    else some 0

-- `none` is a call of `Fail`, or a read behind the end of the line array or of the text.
unfoldable pub extract_line : MillieTokens → ℕ → Option Bytes
extract_line tokens line =
    let line_ends = tokens.line_array in
    if line == 0
    then none
    else if length line_ends == 0
    then some tokens.buffer
    else let line_index = line - 1 in
      do
        line_start ← start_of_line line_ends line_index
        line_end ← get_elem? line_ends line_index
        create_n tokens.buffer line_start ((line_end + 2 ^ 32 - line_start) % 2 ^ 32)

unfoldable pub extract_token : MillieTokens → ℕ → Option Bytes
extract_token tokens pos =
    get_elem? tokens.token_array pos >>= λ token. create_n tokens.buffer token.start token.length
