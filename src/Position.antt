-- ===== src/Position.antt =====
-- lexer.c, `GetLineColumnForPosition`: from a position in the buffer to a line and a column.
mod Search
pub mod Walk
pub mod Extract
mod Tests
use millie.Prelude.{ℕ, zero, suc, ◌+◌, ◌-◌, ◌/◌, List, ltb, ◌==◌, if◌then◌else◌, length, get_or}
use millie.Token.{MillieTokens}

-- The binary search over the line array. `top` is `max + 1`, since `max` may be -1.
unfoldable pub search : ℕ → List ℕ → ℕ → ℕ → ℕ → ℕ
search zero lines position min top = min
search (suc fuel) lines position min top =
    let mid = (top - 1 + min) / 2 in
    let line_position = get_or lines mid 0 in
    let above = search fuel lines position (mid + 1) top in
    let below = search fuel lines position min mid in
    if ltb min top
    then (if line_position == position
        then mid
        else if ltb line_position position
        then above
        else below)
    else min

-- `*line` and `*col`. The interval shrinks in each round, so a round for each line is enough.
unfoldable pub get_line_column_for_position : MillieTokens → ℕ → ℕ × ℕ
get_line_column_for_position tokens position =
    let lines = tokens.line_array in
    let min = search (length lines) lines position 0 (length lines) in
    (min + 1, if ltb 0 min then position - get_or lines (min - 1) 0 else position + 1)
