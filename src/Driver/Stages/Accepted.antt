-- ===== src/Driver/Stages/Accepted.antt =====
-- A program that every stage accepts, from its text to what is printed.
use millie.Prelude.{
  ℕ, suc, ◌≤◌, ◌^◌, ◌≡◌, refl, sym, ◌∙◌, false, List, [], none, some, ◌==◌, if◌then◌else◌, length,
  get_elem?,
}
use millie.Errors.{Errors}
use millie.Token.{MillieToken, MillieTokens}
use millie.Ast.{Symbol, Expression}
use millie.Bytecode.{CompiledExpression, Module, module_init}
use millie.Lexer.{Bytes, lex_buffer}
use millie.Parser.{ParseContext}
use millie.Parser.Grammar.{parse_expression}
use millie.Types.{Address, done, World, Outcome, load}
use millie.Typecheck.{get_expression_type}
use millie.Typecheck.Simple.{Simple, int_type, bool_type, ill_typed, HasType, IsMonomorphic}
use millie.Typecheck.Reported.{address, world, HasTokens}
use millie.Typecheck.Monomorphic.{get_expression_type-HasType}
use millie.Typecheck.Values.{IsRunnable, accepted-meaning}
use millie.Compiler.Context.{CompileBinding}
use millie.Compiler.Expressions.{compile_expression}
use millie.Execution.Meaning.{meaning, identifiers, IsApart}
use millie.Execution.Programs.{IsApartFrom, compile_expression-evaluates}
use millie.Runtime.{num, Heap, is_zero}
use millie.Runtime.Step.{evaluate_code}
use millie.Driver.{bytes, format_signed}
use millie.Driver.Value.{format_value, follow_instances}
use millie.Driver.Stages.{value_found, run_program, finish}

-- How a value of a type is printed.
abbrev pub shown : Simple → ℕ → Bytes
shown int_type value = format_signed value
shown bool_type value = if value == 0 then bytes "false" else bytes "true"
shown ill_typed value = bytes "<<Invalid>>"

format_value-shown :
    (m : Module) (heap : Heap) (n value : ℕ) (t : Simple)
    → format_value m heap (suc (suc n)) (num value) (address t) (world [] [])
      ≡ done (shown t value, world [] [])
unfolding format_value follow_instances load is_zero
format_value-shown m heap n value int_type = refl
format_value-shown m heap n value bool_type = refl
format_value-shown m heap n value ill_typed = refl

finish-shown :
    (n run_fuel : ℕ) (garbage : ℕ → List CompileBinding) (tokens : MillieTokens) (e : Expression)
    (t : Simple) (id value : ℕ) (m : Module)
    → compile_expression garbage e tokens.token_array [] module_init ≡ some (id, m, [])
    → evaluate_code run_fuel m id (num 0) (num 0) [] ≡ some (num value, [])
    → finish (suc (suc n)) run_fuel garbage false tokens e (address t) (world [] [])
      ≡ some (value_found (shown t value))
unfolding finish
finish-shown n run_fuel garbage tokens e t id value m compiled ran =
    rw (compiled, ran, format_value-shown m [] n value t) refl

-- What the type checker's acceptance says of its type: the address that it gives is a simple type's.
accepted-HasType :
    (n : ℕ) (tokens : List MillieToken) (e : Expression) (type : Address)
    → IsMonomorphic e
    → HasTokens tokens e
    → get_expression_type (suc (suc (suc n))) tokens e (world [] []) ≡ done (type, world [] [])
    → (t : Simple) × HasType [] e t × (type ≡ address t)
accepted-HasType n tokens e type m h accepted =
    let r = get_expression_type-HasType n tokens e [] [] m h in
    let same = sym r.2 ∙ accepted in (r.0, r.3.0 (new_of same), sym (type_of_result same))
  where
    new_of :
        {a b : Address} {xs ys : Errors}
        → ◌≡◌ {A = Outcome (Address × World)} (done (a, world [] xs)) (done (b, world [] ys))
        → xs ≡ ys
    new_of same = cc

    type_of_result :
        {a b : Address} {xs ys : Errors}
        → ◌≡◌ {A = Outcome (Address × World)} (done (a, world [] xs)) (done (b, world [] ys))
        → a ≡ b
    type_of_result same = cc

-- A program without functions and tuples that every stage accepts is run by `main` to its end, and
-- what is printed is its value, in the form of its type: a number with its sign, or `true` or
-- `false`. The conditions: the text is read, parsed, type checked and compiled without a report;
-- its operators are in the table, it has no division, no unary operator but `-` and no literal that
-- does not fit into a word; its tokens are in the array; no name is used behind a scope that bound
-- it, no `if` has a name for its first arm, and the fresh block of bindings does not name an
-- identifier of the program by chance; its code has between 2 and 2 ^ 8 registers and at most
-- 2 ^ 15 bytes.
pub run_program-shown :
    {Table : Type 0} (find_or_create_symbol : Table → Bytes → Symbol × Table) (symbol_table : Table)
    (n : ℕ) (garbage : ℕ → List CompileBinding) (text : Bytes) (tokens : MillieTokens)
    (e : Expression) (c : ParseContext Table) (type : Address) (m : Module) (id : ℕ)
    (fn : CompiledExpression)
    → lex_buffer text ≡ some (tokens, [])
    → parse_expression find_or_create_symbol tokens symbol_table [] ≡ some (e, c)
    → c.errors ≡ []
    → get_expression_type (suc (suc (suc n))) tokens.token_array e (world [] [])
      ≡ done (type, world [] [])
    → compile_expression garbage e tokens.token_array [] module_init ≡ some (id, m, [])
    → IsMonomorphic e
    → HasTokens tokens.token_array e
    → IsRunnable e
    → IsApart e
    → IsApartFrom (garbage 0) (identifiers e)
    → get_elem? m.functions id ≡ some fn
    → 2 ≤ fn.register_count
    → fn.register_count ≤ 2 ^ 8
    → length fn.code ≤ 2 ^ 15
    → (run_fuel : ℕ) × (t : Simple) × (value : ℕ) × HasType [] e t
      × (meaning e (λ _. none) ≡ some value)
      × (run_program
            (suc (suc (suc n)))
            run_fuel
            garbage
            find_or_create_symbol
            false
            symbol_table
            text
          ≡ some (value_found (shown t value)))
unfolding run_program
run_program-shown find_or_create_symbol symbol_table n garbage text tokens e c type m id fn lexed
      parsed clean accepted compiled mono h runs apart apart_from found two few short =
    let v = accepted-meaning n tokens.token_array e [] [] type mono h runs accepted in
    let typed = accepted-HasType n tokens.token_array e type mono h accepted in
    let ran =
      compile_expression-evaluates garbage e tokens.token_array [] [] module_init m id v.0 fn
        (num 0) (num 0) [] apart apart_from v.1 compiled found two few short in
    (
      ran.0,
      typed.0,
      v.0,
      typed.1,
      v.1,
      rw (lexed, parsed, clean, accepted, typed.2)
          (finish-shown (suc n) ran.0 garbage tokens e typed.0 id v.0 m compiled ran.1),
    )
