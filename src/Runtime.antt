-- ===== src/Runtime.antt =====
-- runtime.c: the virtual machine. A 64-bit word is a number, the address of a block of the heap, or
-- that of a function's static closure; the two kinds of address are apart from numbers, since a
-- typed program does no arithmetic on them. `none` is an access outside of a block, a read of a
-- slot that was not written, an operation on words of the wrong kind, or the end of the fuel.
pub mod Step
use millie.Prelude.{
  ℕ, zero, suc, ◌+◌, ◌-◌, ◌*◌, ◌%◌, ◌^◌, Bool, true, false, ltb, ◌==◌, if◌then◌else◌, List, [], ◌∷◌,
  ◌++◌, Option, none, some, length, get_elem?, set, replicate, ◌>>=◌,
}
use millie.Bytecode.{Code, CompiledExpression, Module}

pub data Word : Type 0 where
  num : ℕ → Word
  block : ℕ → Word
  static_closure : ℕ → Word

-- The blocks that `malloc` gave, each with its slots; a slot is `none` until it is written.
abbrev pub Heap : Type 0
Heap = List (List (Option Word))

-- The registers of `struct Frame`, zeroed by `calloc`.
abbrev pub Registers : Type 0
Registers = List Word

-- `frame.registers[reg] = value`
unfoldable pub write_register : Registers → ℕ → Word → Option Registers
write_register registers reg value =
    if ltb reg (length registers) then some (set registers reg value) else none

unfoldable pub read_number : Word → Option ℕ
read_number (num n) = some n
read_number _ = none

-- `arr[offset]`, for the address of an array of words.
unfoldable pub load : Module → Heap → Word → ℕ → Option Word
load m heap (num _) offset = none
load m heap (block b) offset = get_elem? heap b >>= λ slots. get_elem? slots offset >>= λ v. v
load m heap (static_closure f) zero = some (num f)
load m heap (static_closure f) (suc _) = none

-- `arr[offset] = value`
unfoldable pub store : Heap → Word → ℕ → Word → Option Heap
store heap (block b) offset value = get_elem? heap b >>= λ slots.
    if ltb offset (length slots) then some (set heap b (set slots offset (some value))) else none
store heap _ offset value = none

-- `_AllocateClosure`, behind the test for a static closure, and `_AllocateTuple`.
unfoldable pub allocate_closure : Heap → ℕ → ℕ → Word × Heap
allocate_closure heap func_id slot_count =
    (block (length heap), heap ++ ((some (num func_id) ∷ replicate slot_count none) ∷ []))

unfoldable pub allocate_tuple : Heap → ℕ → Word × Heap
allocate_tuple heap size = (block (length heap), heap ++ (replicate size none ∷ []))

-- The case `OP_NEW_CLOSURE`.
unfoldable pub new_closure : Module → Heap → ℕ → Option (Word × Heap)
new_closure m heap func_id = get_elem? m.functions func_id >>= λ target.
    if ltb 0 (length target.closure)
    then some (allocate_closure heap func_id (length target.closure))
    else some (static_closure target.static_function_id, heap)

-- `==` on words. A number and an address are not compared in a typed program.
unfoldable pub same_word : Word → Word → Option Bool
same_word (num a) (num b) = some (a == b)
same_word (block a) (block b) = some (a == b)
same_word (static_closure a) (static_closure b) = some (a == b)
same_word (block a) (static_closure b) = some false
same_word (static_closure a) (block b) = some false
same_word _ _ = none

-- Whether a word is 0; addresses are not.
unfoldable pub is_zero : Word → Bool
is_zero (num n) = n == 0
is_zero _ = false

-- `ip + (int16_t)offset`
unfoldable pub jump : ℕ → ℕ → Option ℕ
jump ip offset =
    if ltb offset (2 ^ 15)
    then some (ip + offset)
    else if ltb ip (2 ^ 16 - offset)
    then none
    else some (ip - (2 ^ 16 - offset))

-- The arithmetic of `uint64_t`.
abbrev pub add64 : ℕ → ℕ → ℕ
add64 a b = (a + b) % 2 ^ 64

abbrev pub sub64 : ℕ → ℕ → ℕ
sub64 a b = (a + 2 ^ 64 - b) % 2 ^ 64

abbrev pub mul64 : ℕ → ℕ → ℕ
mul64 a b = a * b % 2 ^ 64

abbrev pub neg64 : ℕ → ℕ
neg64 a = (2 ^ 64 - a) % 2 ^ 64
