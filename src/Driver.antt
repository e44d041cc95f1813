-- ===== src/Driver.antt =====
-- millie.c: the driver. Its output is what it prints, as values; the reading of the file is left
-- out, and the program's text is an argument.
pub mod Arguments
pub mod Report
pub mod Value
pub mod Stages
mod Tests
use Prim.Native.String as String
use Prim.Native.Char.{code}
use Prim.Native.String.{String}
use millie.Prelude.{
  ℕ, zero, suc, ◌-◌, ◌*◌, ◌/◌, ◌%◌, ◌+◌, ◌^◌, List, [], ◌∷◌, ◌++◌, ltb, if◌then◌else◌,
}
use millie.Lexer.{Bytes}

-- A literal of the C code.
abbrev pub bytes : String → Bytes
bytes String.[] = []
bytes (String.◌∷◌ c s) = code c ∷ bytes s

-- The digits of a number, by the number of digits there may be.
abbrev pub digits : ℕ → ℕ → Bytes
digits zero n = []
digits (suc fuel) n =
    let front = digits fuel (n / 10) in
    if ltb n 10 then (b'0' + n) ∷ [] else front ++ ((b'0' + n % 10) ∷ [])

-- `printf` with `%lld`, of the 64 bits of an unsigned number.
abbrev pub format_signed : ℕ → Bytes
format_signed value =
    if ltb value (2 ^ 63) then digits 20 value else b'-' ∷ digits 20 (2 ^ 64 - value)
