-- ===== src/Driver/Stages.antt =====
-- millie.c, `main`: the stages from the text of a program to what is printed, over the symbol
-- table's operation. The walks over types take `fuel`, and the machine takes `run_fuel`.
pub mod Accepted
use Prim.Native.String.{String}
use millie.Prelude.{ℕ, Bool, List, [], ◌∷◌, Option, none, some, ◌>>=◌, if◌then◌else◌}
use millie.Errors.{Errors}
use millie.Token.{MillieTokens}
use millie.Ast.{Symbol, Expression}
use millie.Bytecode.{Module, module_init}
use millie.Lexer.{Bytes, lex_buffer}
use millie.Parser.Grammar.{parse_expression}
use millie.Types.{Address, Outcome, done, stopped, World, static_types}
use millie.Types.Format.{format_type_expression}
use millie.Typecheck.{get_expression_type}
use millie.Compiler.Context.{CompileBinding}
use millie.Compiler.Expressions.{compile_expression}
use millie.Runtime.{num}
use millie.Runtime.Step.{evaluate_code}
use millie.Driver.Report.{PrintedError, print_errors}
use millie.Driver.Value.{format_value}

-- What is printed: the errors, with the exit code 1, or a type or a value, with 0.
pub data Printed : Type 0 where
  errors_found : List PrintedError → Printed
  type_found : String → Printed
  value_found : Bytes → Printed

-- A check that ended, as a partial result.
abbrev pub ended_check : {A : Type 0} → Outcome A → Option A
ended_check (done a) = some a
ended_check (stopped _) = none

-- `if (errors) { PrintErrors(...); return 1; }`
abbrev pub unless_errors : MillieTokens → Errors → Option Printed → Option Printed
unless_errors tokens [] next = next
unless_errors tokens (error ∷ errors) next =
    print_errors tokens (error ∷ errors) >>= λ printed. some (errors_found printed)

module _ (fuel run_fuel : ℕ) (garbage : ℕ → List CompileBinding) where
  -- The last stage: the type is printed, or the program is compiled and run.
  unfoldable pub finish : Bool → MillieTokens → Expression → Address → World → Option Printed
  finish print_type tokens expression type w =
      if print_type
      then (ended_check (format_type_expression fuel type w) >>= λ r. some (type_found r.0))
      else compile_expression garbage expression tokens.token_array [] module_init >>= λ c.
          unless_errors tokens c.2 (
            evaluate_code run_fuel c.1 c.0 (num 0) (num 0) [] >>= λ r.
            ended_check (format_value c.1 r.1 fuel r.0 type w) >>= λ s. some (value_found s.0))

  module _ {Table : Type 0} (find_or_create_symbol : Table → Bytes → Symbol × Table) where
    unfoldable pub run_program : Bool → Table → Bytes → Option Printed
    unfolding finish
    run_program print_type symbol_table buffer = lex_buffer buffer >>= λ l. unless_errors l.0 l.1 (
        parse_expression find_or_create_symbol l.0 symbol_table [] >>= λ p.
        unless_errors l.0 p.1.errors (
          ended_check (
            get_expression_type fuel l.0.token_array p.0
              (record { nodes = static_types; errors = [] }))
          >>= λ t. unless_errors l.0 t.1.errors (finish print_type l.0 p.0 t.0 t.1)))
