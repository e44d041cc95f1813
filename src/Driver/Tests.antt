-- ===== src/Driver/Tests.antt =====
-- Command lines, reports and a program that is run.
use millie.Prelude.{
  ℕ, ◌+◌, ◌≡◌, ◌-◌, ◌^◌, refl, true, false, List, [], ◌∷◌, ◌≢◌, All, All-replicate, none, some,
  arith, length, replicate,
}
use millie.Errors.{ErrorReport}
use millie.Token.{
  TokenType, tok_id, tok_int_literal, tok_let, tok_in, tok_equals, tok_star, tok_eof, MillieToken,
  MillieTokens,
}
use millie.Ast.{Symbol, Expression, exp_identifier, exp_let, exp_integer_constant, exp_binary}
use millie.Lexer.{
  Bytes, lex_buffer, run, step, scan, scan_other, scan_equals, try_add_keyword, try_add_keywords,
  match_keyword, keyword_or_identifier, add_identifier_token, add_integer_literal, comment_length,
  span, is_digit, is_identifier_character, is_identifier_start, track_error,
}
use millie.Parser.{
  literal_value, match_token, match_either, expect, parse_symbol, syntax_error, syntax_error_token,
  ParseContext,
}
use millie.Parser.Grammar.{Parse, parse_int_literal, parse_identifier, parse_expr, parse_expression}
use millie.Types.{done, is_error_type}
use millie.Types.Copy.{make_fresh_type_exp, make_generic_type_exp}
use millie.Unify.{unify}
use millie.Typecheck.{get_expression_type}
use millie.Typecheck.Reported.{world}
use millie.Bytecode.{CompiledExpression, Module, module_init}
use millie.Compiler.Context.{
  CompileBinding, binding_room, add_function, get_free_int_register, write_code_u8, write_code_u16,
  write_code_u32, write_code_u64, reserve_u16, patch_u16, push_binding, pop_binding, finish_compile,
  store_function,
}
use millie.Compiler.Emit.{
  write_load_literal, write_immediate, compile_identifier_impl, find_binding, find_closure,
  closure_offset, write_closure_load,
}
use millie.Compiler.Expressions.{
  compile_expression, compile, compile_if, write_operator, write_binary, write_two, find_operation,
}
use millie.Typecheck.Simple.{Simple, HasType}
use millie.Execution.Meaning.{meaning, identifiers}
use millie.Execution.Programs.{IsApartFrom}
use millie.Position.{get_line_column_for_position, search}
use millie.Position.Extract.{extract_line}
use millie.Driver.{bytes, format_signed}
use millie.Driver.Arguments.Asks.{any_asks, file_names}
use millie.Driver.Arguments.Accepted.{read_arguments-described}
use millie.Driver.Value.Digits.{literal_value-format_signed}
use millie.Driver.Report.{print_error, print_errors}
use millie.Driver.Stages.{run_program, value_found}
use millie.Driver.Stages.Accepted.{shown, run_program-shown}
use millie.Driver.Arguments.{go_on, usage, rejected, read_arguments, no_settings}

arguments-type :
    read_arguments (bytes "-tv" ∷ bytes "a.millie" ∷ []) no_settings
    ≡ go_on (record { fname = some (bytes "a.millie"); print_type = true; verbose = true })
unfolding read_arguments
arguments-type = refl

arguments-none : read_arguments (bytes "--verbose" ∷ []) no_settings ≡ rejected
unfolding read_arguments
arguments-none = refl

arguments-usage : read_arguments (bytes "-t?x" ∷ []) no_settings ≡ usage
unfolding read_arguments
arguments-usage = refl

arguments-two : read_arguments (bytes "a" ∷ bytes "b" ∷ []) no_settings ≡ rejected
unfolding read_arguments
arguments-two = refl

format_signed-negative : format_signed (2 ^ 64 - 42) ≡ bytes "-42"
format_signed-negative = refl

-- A symbol table that gives every name its first byte as its number.
abbrev first_byte : ℕ → Bytes → Symbol × ℕ
first_byte table [] = (0, table)
first_byte table (c ∷ _) = (c, table + 1)

abbrev token : TokenType → ℕ → ℕ → MillieToken
token t pos len = record { type = t; start = pos; length = len }

abbrev program : Bytes
program = bytes "let x=4 in x*x"

abbrev tokens : MillieTokens
tokens = record {
  token_array =
      token tok_let 0 3
      ∷ token tok_id 4 1
      ∷ token tok_equals 5 1
      ∷ token tok_int_literal 6 1
      ∷ token tok_in 8 2
      ∷ token tok_id 11 1
      ∷ token tok_star 12 1
      ∷ token tok_id 13 1
      ∷ token tok_eof 14 0
      ∷ [];
  line_array = [];
  buffer = program;
}

lexed : lex_buffer program ≡ some (tokens, [])
unfolding lex_buffer run step scan scan_other scan_equals try_add_keyword try_add_keywords
    match_keyword keyword_or_identifier add_identifier_token add_integer_literal comment_length span
    is_digit is_identifier_character is_identifier_start track_error
lexed = refl

unfoldable parse : MillieTokens → Parse first_byte
unfolding parse_expression parse_expr parse_int_literal parse_identifier literal_value match_token
    match_either expect parse_symbol syntax_error syntax_error_token
parse t = parse_expression first_byte t 0 []

-- let x = 4 in x * x
abbrev squared : Expression
squared =
    exp_let 0 7 b'x' (exp_integer_constant 3 3 4)
      (exp_binary 5 7 tok_star (exp_identifier 5 5 b'x') (exp_identifier 7 7 b'x'))

abbrev at_end : ParseContext ℕ
at_end = record {
  buffer = program;
  tokens = tokens.token_array;
  table = 3;
  errors = [];
  pos = 8;
  lost_count = 0;
}

parsed : parse_expression first_byte tokens 0 [] ≡ some (squared, at_end)
unfolding parse
parsed = refl

abbrev noise : ℕ → List CompileBinding
noise _ = replicate binding_room (record { symbol = 9999; reg = 0 })

abbrev squared_function : CompiledExpression
squared_function = record {
  code = 1 ∷ 4 ∷ 0 ∷ 12 ∷ 0 ∷ 0 ∷ 1 ∷ 0 ∷ [];
  register_count = 2;
  closure = [];
  static_function_id = 0;
  result_register = 1;
}

abbrev squared_module : Module
squared_module = record { functions = squared_function ∷ []; function_capacity = 10 }

compiled :
    compile_expression noise squared tokens.token_array [] module_init
    ≡ some (0, squared_module, [])
unfolding compile_expression compile compile_if add_function get_free_int_register
    write_load_literal write_immediate write_code_u8 write_code_u16 write_code_u32 write_code_u64
    reserve_u16 patch_u16 push_binding pop_binding compile_identifier_impl find_binding find_closure
    closure_offset write_closure_load write_operator write_binary write_two finish_compile
    store_function find_operation
compiled = refl

typed : get_expression_type 3 tokens.token_array squared (world [] []) ≡ done (0, world [] [])
unfolding get_expression_type make_fresh_type_exp make_generic_type_exp is_error_type unify
typed = refl

squared-IsApartFrom : IsApartFrom (noise 0) (identifiers squared)
squared-IsApartFrom = (all, (all, tt))
  where
    apart : ◌≢◌ {A = ℕ} 9999 b'x'
    apart h = absurd (omega (arith, h))

    all : All (λ (b : CompileBinding). b.symbol ≢ b'x') (noise 0)
    all =
        All-replicate (λ (b : CompileBinding). b.symbol ≢ b'x') binding_room
          (record { symbol = 9999; reg = 0 }) apart

run_program-shown_example :
    (run_fuel : ℕ) × (t : Simple) × (value : ℕ) × HasType [] squared t
    × (meaning squared (λ _. none) ≡ some value)
    × (run_program 3 run_fuel noise first_byte false 0 program ≡ some (value_found (shown t value)))
run_program-shown_example =
    run_program-shown first_byte 0 0 noise program tokens squared at_end 0 squared_module 0
      squared_function lexed parsed refl typed compiled (tt, (refl, tt, tt)) (omega arith)
      (refl, ((λ q. cc), tt, tt)) (tt, (tt, tt, (tt, tt)), (tt, (tt, tt))) squared-IsApartFrom refl
      (omega arith) (omega arith) (omega arith)

literal_value-format_signed_example : literal_value (format_signed 1234) 0 ≡ (1234, false)
literal_value-format_signed_example = literal_value-format_signed 1234 (omega arith)

-- "let x=4\n"
abbrev open_text : Bytes
open_text = bytes "let x=4\n"

abbrev open_tokens : MillieTokens
open_tokens = record {
  token_array =
      token tok_let 0 3
      ∷ token tok_id 4 1
      ∷ token tok_equals 5 1
      ∷ token tok_int_literal 6 1
      ∷ token tok_eof 8 0
      ∷ [];
  line_array = 7 ∷ [];
  buffer = open_text;
}

abbrev report : ErrorReport
report = record { message = "here"; start_pos = 4; end_pos = 6 }

printed_report :
    print_errors open_tokens (report ∷ [])
    ≡ some (
        record {
          start_line = 1;
          start_col = 5;
          message = "here";
          line = bytes "let x=4";
          marks = bytes "    ^~ ";
        }
        ∷ [])
unfolding print_errors print_error extract_line get_line_column_for_position search
printed_report = refl

read_arguments-described_example :
    (name : Bytes) × (file_names (bytes "-tv" ∷ bytes "a.millie" ∷ []) ≡ name ∷ [])
    × (some (bytes "a.millie") ≡ some name)
    × (true ≡ any_asks b't' (bytes "--print-type") (bytes "-tv" ∷ bytes "a.millie" ∷ []))
    × (true ≡ any_asks b'v' (bytes "--verbose") (bytes "-tv" ∷ bytes "a.millie" ∷ []))
read_arguments-described_example =
    read_arguments-described (bytes "-tv" ∷ bytes "a.millie" ∷ [])
      (record { fname = some (bytes "a.millie"); print_type = true; verbose = true }) arguments-type
