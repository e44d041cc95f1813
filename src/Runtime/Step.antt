-- ===== src/Runtime/Step.antt =====
-- runtime.c, `EvaluateCode`: the loop over instructions, with the calls of `OP_CALL`.
use millie.Prelude.{
  ℕ, zero, suc, ◌+◌, ◌^◌, ltb, ◌==◌, if◌then◌else◌, Option, none, some, get_elem?, replicate, ◌>>=◌,
}
use millie.Bytecode.{Code, CompiledExpression, Module, read_u8, read_u16, read_u32, read_u64}
use millie.Runtime.{
  Word, num, Heap, Registers, write_register, read_number, load, store, allocate_tuple, new_closure,
  same_word, is_zero, jump, add64, sub64, mul64, neg64,
}

-- The variables of the loop, and the heap.
pub record Frame : Type 0 where
  pub registers : Registers
  pub ip : ℕ
  pub heap : Heap

-- A call of `EvaluateCode`: function, closure, argument, heap; the value and the heap.
abbrev pub Evaluates : Type 0
Evaluates = ℕ → Word → Word → Heap → Option (Word × Heap)

-- What an instruction leads to.
pub data Outcome : Type 0 where
  halt : Frame → Outcome
  go_on : Frame → Outcome

-- The next instruction stands `size` bytes on, and register `reg` has the value.
unfoldable pub assign : Frame → ℕ → ℕ → Word → Option Outcome
assign f size reg value = write_register f.registers reg value >>= λ registers.
    some (go_on (record f { registers = registers; ip = f.ip + size }))

-- `OP_ADD`, `OP_SUB` and `OP_MUL`
unfoldable pub arithmetic : Code → Frame → (ℕ → ℕ → ℕ) → Option Outcome
arithmetic code f op = do
  left_reg ← read_u8 code (f.ip + 1)
  right_reg ← read_u8 code (f.ip + 2)
  ret_reg ← read_u8 code (f.ip + 3)
  left ← get_elem? f.registers left_reg >>= read_number
  right ← get_elem? f.registers right_reg >>= read_number
  assign f 4 ret_reg (num (op left right))

unfoldable pub step_neg : Code → Frame → Option Outcome
step_neg code f = do
  arg_reg ← read_u8 code (f.ip + 1)
  ret_reg ← read_u8 code (f.ip + 2)
  arg ← get_elem? f.registers arg_reg >>= read_number
  assign f 3 ret_reg (num (neg64 arg))

unfoldable pub step_eq : Code → Frame → Option Outcome
step_eq code f = do
  left_reg ← read_u8 code (f.ip + 1)
  right_reg ← read_u8 code (f.ip + 2)
  ret_reg ← read_u8 code (f.ip + 3)
  left ← get_elem? f.registers left_reg
  right ← get_elem? f.registers right_reg
  same ← same_word left right
  assign f 4 ret_reg (num (if same then 1 else 0))

-- The loads of immediates, by their size.
unfoldable pub step_loadi : Code → Frame → ℕ → (Code → ℕ → Option ℕ) → Option Outcome
step_loadi code f size read = do
  val ← read code (f.ip + 1)
  reg ← read_u8 code (f.ip + 1 + size)
  assign f (size + 2) reg (num val)

unfoldable pub step_call : Evaluates → Module → Code → Frame → Option Outcome
step_call evaluate m code f = do
  func_reg ← read_u8 code (f.ip + 1)
  arg_reg ← read_u8 code (f.ip + 2)
  ret_reg ← read_u8 code (f.ip + 3)
  closure ← get_elem? f.registers func_reg
  function_id ← load m f.heap closure 0 >>= read_number
  arg_val ← get_elem? f.registers arg_reg
  (retval, heap) ← evaluate function_id closure arg_val f.heap
  assign (record f { heap = heap }) 4 ret_reg retval

unfoldable pub step_jz : Code → Frame → Option Outcome
step_jz code f = do
  test_reg ← read_u8 code (f.ip + 1)
  offset ← read_u16 code (f.ip + 2)
  test ← get_elem? f.registers test_reg
  ip ← if is_zero test then jump (f.ip + 4) offset else some (f.ip + 4)
  some (go_on (record f { ip = ip }))

unfoldable pub step_jmp : Code → Frame → Option Outcome
step_jmp code f = do
  offset ← read_u16 code (f.ip + 1)
  ip ← jump (f.ip + 3) offset
  some (go_on (record f { ip = ip }))

unfoldable pub step_mov : Code → Frame → Option Outcome
step_mov code f = do
  src_reg ← read_u8 code (f.ip + 1)
  dst_reg ← read_u8 code (f.ip + 2)
  value ← get_elem? f.registers src_reg
  assign f 3 dst_reg value

-- `(int)frame.registers[funcid_reg]`, for a number of a function.
unfoldable pub step_new_closure : Module → Code → Frame → Option Outcome
step_new_closure m code f = do
  funcid_reg ← read_u8 code (f.ip + 1)
  dst_reg ← read_u8 code (f.ip + 2)
  func_id ← get_elem? f.registers funcid_reg >>= read_number
  (closure, heap) ← new_closure m f.heap func_id
  assign (record f { heap = heap }) 3 dst_reg closure

unfoldable pub step_new_tuple : Code → Frame → Option Outcome
step_new_tuple code f = do
  len_reg ← read_u8 code (f.ip + 1)
  dst_reg ← read_u8 code (f.ip + 2)
  size ← get_elem? f.registers len_reg >>= read_number
  let r = allocate_tuple f.heap size
  assign (record f { heap = r.1 }) 3 dst_reg r.0

-- A negative offset is outside of the block.
unfoldable pub step_loada : Module → Code → Frame → Option Outcome
step_loada m code f = do
  src_reg ← read_u8 code (f.ip + 1)
  offset ← read_u16 code (f.ip + 2)
  dst_reg ← read_u8 code (f.ip + 4)
  array ← get_elem? f.registers src_reg
  result ← if ltb offset (2 ^ 15) then load m f.heap array offset else none
  assign f 5 dst_reg result

unfoldable pub step_storea : Code → Frame → Option Outcome
step_storea code f = do
  src_reg ← read_u8 code (f.ip + 1)
  offset ← read_u16 code (f.ip + 2)
  val_reg ← read_u8 code (f.ip + 4)
  array ← get_elem? f.registers src_reg
  value ← get_elem? f.registers val_reg
  heap ← if ltb offset (2 ^ 15) then store f.heap array offset value else none
  some (go_on (record f { heap = heap; ip = f.ip + 5 }))

-- The `switch`, in the numbers of the opcodes. An unknown instruction is reported and halts.
unfoldable pub step_op : Evaluates → Module → Code → ℕ → Frame → Option Outcome
step_op evaluate m code op f =
    if op == 0
    then some (halt f)
    else if op == 1
    then step_loadi code f 1 read_u8
    else if op == 2
    then step_loadi code f 2 read_u16
    else if op == 3
    then step_loadi code f 4 read_u32
    else if op == 4
    then step_loadi code f 8 read_u64
    else if op == 5
    then step_loada m code f
    else if op == 6
    then step_storea code f
    else if op == 7
    then step_new_closure m code f
    else if op == 8
    then step_new_tuple code f
    else if op == 9
    then step_call evaluate m code f
    else if op == 10
    then arithmetic code f add64
    else if op == 11
    then arithmetic code f sub64
    else if op == 12
    then arithmetic code f mul64
    else if op == 13
    then step_neg code f
    else if op == 14
    then step_eq code f
    else if op == 15
    then step_jmp code f
    else if op == 16
    then step_jz code f
    else if op == 17
    then step_mov code f
    else some (halt f)

unfoldable pub step : Evaluates → Module → Code → Frame → Option Outcome
step evaluate m code f = read_u8 code f.ip >>= λ op. step_op evaluate m code op f

-- The loop, with the calls of a smaller depth.
unfoldable pub run : Evaluates → Module → Code → ℕ → Frame → Option Frame
run evaluate m code zero f = none
run evaluate m code (suc fuel) f = step evaluate m code f >>= λ r. elim r [
  | halt f' ↦ some f'
  | go_on f' ↦ run evaluate m code fuel f'
]

-- What stands before the loop: the frame of a function, of which register 0 is the closure and
-- register 1 the argument.
unfoldable pub enter : CompiledExpression → Word → Word → Heap → Option Frame
enter code closure arg0 heap = do
  r₁ ← write_register (replicate code.register_count (num 0)) 0 closure
  r₂ ← write_register r₁ 1 arg0
  some (record { registers = r₂; ip = 0; heap = heap })

-- `EvaluateCode`, with a bound on the depth of calls and on the instructions of each.
unfoldable pub evaluate_code : ℕ → Module → Evaluates
evaluate_code zero m func_id closure arg0 heap = none
evaluate_code (suc fuel) m func_id closure arg0 heap = do
  code ← get_elem? m.functions func_id
  f ← enter code closure arg0 heap
  f' ← run (evaluate_code fuel m) m code.code fuel f
  result ← get_elem? f'.registers code.result_register
  some (result, f'.heap)
