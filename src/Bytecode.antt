-- ===== src/Bytecode.antt =====
-- opcodes.inc, platform.h and the ends of compiler.c and runtime.c that meet: the opcodes, how
-- numbers are written into code and read back, and what compiling a function leaves behind.
pub mod Codec
use millie.Prelude.{
  ℕ, ◌+◌, ◌*◌, ◌/◌, ◌%◌, ◌^◌, ◌==◌, if◌then◌else◌, List, [], ◌∷◌, Option, none, some, get_elem?,
  ◌>>=◌,
}
use millie.Ast.{Symbol}

abbrev pub Code : Type 0
Code = List ℕ

-- `MILLIE_OPCODE`, in the order of opcodes.inc.
pub data Opcode : Type 0 where
  op_ret op_loadi_8 op_loadi_16 op_loadi_32 op_loadi_64 op_loada_64 op_storea_64 : Opcode
  op_new_closure op_new_tuple op_call op_add op_sub op_mul op_neg op_eq op_jmp op_jz : Opcode
  op_mov : Opcode

abbrev pub number : Opcode → ℕ
number op_ret = 0
number op_loadi_8 = 1
number op_loadi_16 = 2
number op_loadi_32 = 3
number op_loadi_64 = 4
number op_loada_64 = 5
number op_storea_64 = 6
number op_new_closure = 7
number op_new_tuple = 8
number op_call = 9
number op_add = 10
number op_sub = 11
number op_mul = 12
number op_neg = 13
number op_eq = 14
number op_jmp = 15
number op_jz = 16
number op_mov = 17

-- The bytes that `_WriteCodeU8` to `_WriteCodeU64` write, the lowest first.
abbrev pub bytes_u8 : ℕ → Code
bytes_u8 value = value % 256 ∷ []

abbrev pub bytes_u16 : ℕ → Code
bytes_u16 value = value % 256 ∷ value / 256 % 256 ∷ []

abbrev pub bytes_u32 : ℕ → Code
bytes_u32 value =
    value % 256 ∷ value / 2 ^ 8 % 256 ∷ value / 2 ^ 16 % 256 ∷ value / 2 ^ 24 % 256 ∷ []

abbrev pub bytes_u64 : ℕ → Code
bytes_u64 value =
    value % 256
    ∷ value / 2 ^ 8 % 256
    ∷ value / 2 ^ 16 % 256
    ∷ value / 2 ^ 24 % 256
    ∷ value / 2 ^ 32 % 256
    ∷ value / 2 ^ 40 % 256
    ∷ value / 2 ^ 48 % 256
    ∷ value / 2 ^ 56 % 256
    ∷ []

-- `_ReadU8` to `_ReadU64` at a position in the code: the value. The caller moves on. The bytes are
-- below 256, so that their disjoint bits are joined by `+`. `none` is a read past the code's end.
unfoldable pub read_u8 : Code → ℕ → Option ℕ
read_u8 code ip = get_elem? code ip

unfoldable pub read_u16 : Code → ℕ → Option ℕ
unfolding read_u8
read_u16 code ip = do b₀ ← read_u8 code ip; b₁ ← read_u8 code (ip + 1); some (b₀ + b₁ * 2 ^ 8)

unfoldable pub read_u32 : Code → ℕ → Option ℕ
unfolding read_u8
read_u32 code ip = do
  b₀ ← read_u8 code ip
  b₁ ← read_u8 code (ip + 1)
  b₂ ← read_u8 code (ip + 2)
  b₃ ← read_u8 code (ip + 3)
  some (b₀ + b₁ * 2 ^ 8 + b₂ * 2 ^ 16 + b₃ * 2 ^ 24)

unfoldable pub read_u64 : Code → ℕ → Option ℕ
unfolding read_u8
read_u64 code ip = do
  b₀ ← read_u8 code ip
  b₁ ← read_u8 code (ip + 1)
  b₂ ← read_u8 code (ip + 2)
  b₃ ← read_u8 code (ip + 3)
  b₄ ← read_u8 code (ip + 4)
  b₅ ← read_u8 code (ip + 5)
  b₆ ← read_u8 code (ip + 6)
  b₇ ← read_u8 code (ip + 7)
  some (
      b₀
      + b₁ * 2 ^ 8
      + b₂ * 2 ^ 16
      + b₃ * 2 ^ 24
      + b₄ * 2 ^ 32
      + b₅ * 2 ^ 40
      + b₆ * 2 ^ 48
      + b₇ * 2 ^ 56)

-- `struct CompiledExpression`. The length of the closure is that of its list of symbols; where it
-- is 0 the function has a static closure, which holds the function's number.
pub record CompiledExpression : Type 0 where
  pub code : Code
  pub register_count : ℕ
  pub closure : List Symbol
  pub static_function_id : ℕ
  pub result_register : ℕ

-- `struct Module`. The count of the functions is the list's length.
pub record Module : Type 0 where
  pub functions : List CompiledExpression
  pub function_capacity : ℕ

abbrev pub module_init : Module
module_init = record { functions = []; function_capacity = 0 }
