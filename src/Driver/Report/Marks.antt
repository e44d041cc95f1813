-- ===== src/Driver/Report/Marks.antt =====
-- The marks below a line.
use millie.Prelude.{◌≡◌, false, ◌==◌, All}
use millie.Errors.{Errors}
use millie.Lexer.{Bytes}

abbrev pub HasNoNul : Bytes → Type 0
HasNoNul = All (λ b. (b == 0) ≡ false)
