-- ===== src/Errors.antt =====
-- errors.c: the list of error reports. The linked list with its tail pointer is a list in the
-- order of reporting; `NULL`, which the driver tests for, is the empty list.
use Prim.Native.String.{String}
use millie.Prelude.{ℕ, List, [], ◌∷◌, ◌++◌, Option, none, some}

pub record ErrorReport : Type 0 where
  pub message : String
  pub start_pos : ℕ
  pub end_pos : ℕ

abbrev pub Errors : Type 0
Errors = List ErrorReport

abbrev pub add_error : Errors → ℕ → ℕ → String → Errors
add_error errors start_pos end_pos message =
    errors ++ (record { message = message; start_pos = start_pos; end_pos = end_pos } ∷ [])

abbrev pub first_error : Errors → Option ErrorReport
first_error [] = none
first_error (report ∷ _) = some report
