-- ===== src/Compiler/Emit.antt =====
-- compiler.c: literals and identifiers.
use millie.Prelude.{
  ℕ, zero, suc, ◌+◌, ◌-◌, ◌%◌, ◌^◌, ltb, leb, ◌==◌, if◌then◌else◌, List, [], ◌∷◌, ◌++◌, Option,
  none, some, length, get_elem?, ◌>>=◌,
}
use millie.Ast.{Symbol}
use millie.Bytecode.{op_loadi_8, op_loadi_16, op_loadi_32, op_loadi_64, op_loada_64}
use millie.Compiler.Context.{
  CompileBinding, CompileContext, symbol_room, write_opcode, write_code_u8, write_code_u16,
  write_code_u32, write_code_u64, get_free_int_register,
}

-- The opcode and the immediate of a load, by the size of the value.
unfoldable pub write_immediate : CompileContext → ℕ → CompileContext
write_immediate c value =
    if leb value (2 ^ 8 - 1)
    then write_code_u8 (write_opcode c op_loadi_8) value
    else if leb value (2 ^ 16 - 1)
    then write_code_u16 (write_opcode c op_loadi_16) value
    else if leb value (2 ^ 32 - 1)
    then write_code_u32 (write_opcode c op_loadi_32) value
    else write_code_u64 (write_opcode c op_loadi_64) value

-- `_WriteLoadLiteral`
unfoldable pub write_load_literal : CompileContext → ℕ → ℕ × CompileContext
write_load_literal c value =
    let r = get_free_int_register c in (r.0, write_code_u8 (write_immediate r.1 value) r.0)

-- The search through the bindings, from index `i` down to 0. A read outside of the block is a
-- fault; `some none` is that no entry has the symbol.
unfoldable pub find_binding : List CompileBinding → ℕ → Symbol → Option (Option ℕ)
find_binding bindings zero id = do
  b ← get_elem? bindings 0
  some (if b.symbol == id then some b.reg else none)
find_binding bindings (suc i) id =
    let rest = find_binding bindings i id in
    get_elem? bindings (suc i) >>= λ b. if b.symbol == id then some (some b.reg) else rest

-- The search through the closure's symbols.
unfoldable pub find_closure : List Symbol → Symbol → Option ℕ
find_closure [] id = none
find_closure (s ∷ symbols) id =
    if s == id then some 0 else (find_closure symbols id >>= λ i. some (i + 1))

-- The offset of a symbol in the closure, to which it is added if it is not there.
unfoldable pub closure_offset : CompileContext → Symbol → Option (ℕ × CompileContext)
closure_offset c id = elim (find_closure c.closure_symbols id) [
  | some offset ↦ some (offset, c)
  | none ↦
      if ltb (length c.closure_symbols) symbol_room
      then some
          (length c.closure_symbols, record c { closure_symbols = c.closure_symbols ++ id ∷ [] })
      else none
]

-- The load from the closure, which is in register 0.
unfoldable pub write_closure_load : CompileContext → ℕ → ℕ × CompileContext
write_closure_load c offset =
    let r = get_free_int_register c in
    let c₁ = write_code_u8 (write_opcode r.1 op_loada_64) 0 in
    (r.0, write_code_u8 (write_code_u16 c₁ ((offset + 1) % 2 ^ 16)) r.0)

-- `_CompileIdentifierImpl`. The search begins at `binding_top`, one past the last entry in use.
unfoldable pub compile_identifier_impl : CompileContext → Symbol → Option (ℕ × CompileContext)
compile_identifier_impl c id = find_binding c.bindings c.binding_top id >>= λ found. elim found [
  | some reg ↦ some (reg, c)
  | none ↦ closure_offset c id >>= λ r. some (write_closure_load r.1 r.0)
]
