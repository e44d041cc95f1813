-- ===== src/Compiler/Context.antt =====
-- compiler.c: the module's functions, the compile context, errors, and writing code.
use Prim.Native.String.{String}
use millie.Prelude.{
  ℕ, ◌+◌, ◌-◌, ◌*◌, ◌%◌, ◌^◌, ltb, ◌==◌, if◌then◌else◌, List, [], ◌∷◌, ◌++◌, Option, none, some,
  length, set, take, drop, get_elem?, ◌>>=◌,
}
use millie.Errors.{Errors, add_error}
use millie.Token.{MillieToken}
use millie.Ast.{Symbol, Expression, start_token, end_token}
use millie.Bytecode.{
  Code, CompiledExpression, Module, Opcode, number, op_ret, bytes_u8, bytes_u16, bytes_u32,
  bytes_u64,
}

-- What the block for a function holds before `_FinishCompile` fills it.
abbrev pub unfinished : CompiledExpression
unfinished = record {
  code = [];
  register_count = 0;
  closure = [];
  static_function_id = 0;
  result_register = 0;
}

-- `_AddFunction`: the number of the new function, and the module.
unfoldable pub add_function : Module → ℕ × Module
add_function m =
    let count = length m.functions in
    let new_cap =
      if count == m.function_capacity
      then (if m.function_capacity == 0 then 10 else m.function_capacity * 2)
      else m.function_capacity in
    (count, record { functions = m.functions ++ (unfinished ∷ []); function_capacity = new_cap })

pub record CompileBinding : Type 0 where
  pub symbol : Symbol
  pub reg : ℕ

-- `struct CompileContext`. `bindings` is the memory of the bindings, `binding_top` the count of
-- those in use. The parent is not kept: the code reads it only to begin a child.
pub record CompileContext : Type 0 where
  pub code : Code
  pub code_capacity : ℕ
  pub integer_registers : ℕ
  pub max_registers : ℕ
  pub bindings : List CompileBinding
  pub binding_top : ℕ
  pub closure_symbols : List Symbol
  pub module_ : Module
  pub tokens : List MillieToken
  pub errors : Errors

abbrev pub initial_code_capacity : ℕ
initial_code_capacity = 64

-- `malloc(INITIAL_BINDING_CAPACITY)` gives 64 bytes: room for 8 bindings of 8 bytes and for 16
-- symbols of 4 bytes, though both capacities are taken to be 64. So the branches that `realloc`
-- at 64 entries come after the end of the block, and are not reached before a fault.
abbrev pub binding_room : ℕ
binding_room = 8

abbrev pub symbol_room : ℕ
symbol_room = 16

-- `_InitCompileContext`. `garbage` is what `malloc` leaves in the block of the bindings.
abbrev pub init_compile_context :
    List CompileBinding → Module → List MillieToken → Errors → CompileContext
init_compile_context garbage m tokens errors = record {
  code = [];
  code_capacity = initial_code_capacity;
  integer_registers = 0;
  max_registers = 0;
  bindings = garbage;
  binding_top = 0;
  closure_symbols = [];
  module_ = m;
  tokens = tokens;
  errors = errors;
}

-- `GetToken`; a read outside of the array is a fault.
abbrev pub get_token : List MillieToken → ℕ → Option MillieToken
get_token tokens pos = get_elem? tokens pos

-- The report of `_ReportCompileError`, from the first to the last token of the expression.
abbrev pub report_between : MillieToken → MillieToken → String → CompileContext → CompileContext
report_between first last error c = record c {
  errors = add_error c.errors first.start (last.start + last.length) error;
}

unfoldable pub report_compile_error : CompileContext → Expression → String → Option CompileContext
report_compile_error c expression error = do
  first ← get_token c.tokens (start_token expression)
  last ← get_token c.tokens (end_token expression)
  some (report_between first last error c)

-- `_EnsureCodeCapacity`, which doubles the block at most once.
abbrev pub ensure_code_capacity : CompileContext → ℕ → CompileContext
ensure_code_capacity c more = record c {
  code_capacity =
      if ltb (c.code_capacity - length c.code) more then c.code_capacity * 2 else c.code_capacity;
}

-- Bytes at the end of the code.
abbrev pub append_code : CompileContext → Code → CompileContext
append_code c bytes = record c { code = c.code ++ bytes }

unfoldable pub write_code_u8 : CompileContext → ℕ → CompileContext
write_code_u8 c value = append_code (ensure_code_capacity c 1) (bytes_u8 value)

unfoldable pub write_code_u16 : CompileContext → ℕ → CompileContext
write_code_u16 c value = append_code (ensure_code_capacity c 4) (bytes_u16 value)

unfoldable pub write_code_u32 : CompileContext → ℕ → CompileContext
write_code_u32 c value = append_code (ensure_code_capacity c 4) (bytes_u32 value)

unfoldable pub write_code_u64 : CompileContext → ℕ → CompileContext
write_code_u64 c value = append_code (ensure_code_capacity c 8) (bytes_u64 value)

abbrev pub write_opcode : CompileContext → Opcode → CompileContext
write_opcode c op = write_code_u8 c (number op)

-- `code_write += 2`, over bytes that are patched later.
unfoldable pub reserve_u16 : CompileContext → CompileContext
reserve_u16 c = append_code (ensure_code_capacity c 2) (0 ∷ 0 ∷ [])

-- Two bytes in the midst of code.
abbrev pub overwrite_u16 : Code → ℕ → ℕ → Code
overwrite_u16 code loc value = take loc code ++ (bytes_u16 value ++ drop (loc + 2) code)

-- `code_write` is set back to `loc`, the offset is written, and `code_write` is set to the end.
unfoldable pub patch_u16 : CompileContext → ℕ → ℕ → CompileContext
patch_u16 c loc value = record c {
  code = overwrite_u16 c.code loc value;
  code_capacity = if ltb (c.code_capacity - loc) 4 then c.code_capacity * 2 else c.code_capacity;
}

-- `_GetFreeIntRegister`: registers are counted in eight bits.
unfoldable pub get_free_int_register : CompileContext → ℕ × CompileContext
get_free_int_register c =
    let next = (c.integer_registers + 1) % 2 ^ 8 in
    (
      (next + 2 ^ 8 - 1) % 2 ^ 8,
      record c { integer_registers = next; max_registers = c.max_registers + 1 },
    )

-- `_PushBinding`
unfoldable pub push_binding : CompileContext → Symbol → ℕ → Option CompileContext
push_binding c symbol reg =
    if ltb c.binding_top (length c.bindings)
    then some (record c {
      bindings = set c.bindings c.binding_top (record { symbol = symbol; reg = reg });
      binding_top = c.binding_top + 1;
    })
    else none

-- `_PopBinding`. What the entry holds stays in memory.
unfoldable pub pop_binding : CompileContext → CompileContext
pop_binding c = record c { binding_top = c.binding_top - 1 }

-- `_FinishCompile`, without the write through the pointer to the module's entry.
unfoldable pub finish_compile : CompileContext → ℕ → ℕ → CompiledExpression
finish_compile c result_register func_id = record {
  code = (write_opcode c op_ret).code;
  register_count = c.max_registers;
  closure = c.closure_symbols;
  static_function_id = func_id;
  result_register = result_register;
}

-- That write. The pointer was taken when the functions' block had this capacity; if the block has
-- grown since then, it may have moved.
unfoldable pub store_function : Module → ℕ → ℕ → CompiledExpression → Option Module
store_function m capacity func_id compiled =
    if m.function_capacity == capacity
    then some (record m { functions = set m.functions func_id compiled })
    else none
