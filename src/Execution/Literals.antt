-- ===== src/Execution/Literals.antt =====
-- `_WriteLoadLiteral` of compiler.c, run by the loads of immediates of runtime.c.
use millie.Prelude.{
  ℕ, ◌+◌, ◌-◌, ◌%◌, ◌^◌, ◌<◌, ◌≡◌, refl, ltb, leb, true, Bool-cases, inl, inr, [], ◌∷◌, ◌++◌,
  Option, some, length, arith, ap, sym, subst, ◌∙◌, length-append, append_assoc,
}
use millie.Bytecode.{
  Code, Module, Opcode, number, op_loadi_8, op_loadi_16, op_loadi_32, op_loadi_64, bytes_u8,
  bytes_u16, bytes_u32, bytes_u64, read_u8, read_u16, read_u32, read_u64,
}
use millie.Bytecode.Codec.{
  At, At-behind, At-front, read_u8-bytes, read_u16-bytes, read_u32-bytes, read_u64-bytes,
}
use millie.Compiler.Context.{
  CompileContext, write_code_u8, write_code_u16, write_code_u32, write_code_u64,
  get_free_int_register,
}
use millie.Compiler.Emit.{write_immediate, write_load_literal}
use millie.Runtime.{num}
use millie.Runtime.Step.{Frame, Evaluates, step_loadi, step_op}
use millie.Execution.Steps.{StepsTo}
use millie.Execution.Instructions.{written, loadi-step}
use millie.Execution.Covers.{Covers, Covers-At}

-- The instruction for a value: its opcode, its bytes and how they are read.
record Immediate (value : ℕ) : Type 0 where
  op : Opcode
  bytes : Code
  read : Code → ℕ → Option ℕ
  reads : (code : Code) (ip : ℕ) → At code ip bytes → read code ip ≡ some value
  case :
      (evaluate : Evaluates) (m : Module) (code : Code) (f : Frame)
      → step_op evaluate m code (number op % 256) f ≡ step_loadi code f (length bytes) read
  writes :
      (c : CompileContext) → (write_immediate c value).code ≡ c.code ++ (number op % 256 ∷ bytes)

immediate : (value : ℕ) → value < 2 ^ 64 → Immediate value
unfolding write_immediate write_code_u8 write_code_u16 write_code_u32 write_code_u64 step_op
immediate value h = elim (Bool-cases (leb value (2 ^ 8 - 1))) [
  | inl e ↦ record {
    op = op_loadi_8;
    bytes = bytes_u8 value;
    read = read_u8;
    reads = λ code ip at. read_u8-bytes code value ip (ground (arith, e)) at;
    case = λ evaluate m code f. refl;
    writes = λ c. rw e (simp append_assoc refl);
  }
  | inr e ↦ elim (Bool-cases (leb value (2 ^ 16 - 1))) [
    | inl e' ↦ record {
      op = op_loadi_16;
      bytes = bytes_u16 value;
      read = read_u16;
      reads = λ code ip at. read_u16-bytes code value ip (ground (arith, e')) at;
      case = λ evaluate m code f. refl;
      writes = λ c. rw (e, e') (simp append_assoc refl);
    }
    | inr e' ↦ elim (Bool-cases (leb value (2 ^ 32 - 1))) [
      | inl e'' ↦ record {
        op = op_loadi_32;
        bytes = bytes_u32 value;
        read = read_u32;
        reads = λ code ip at. read_u32-bytes code value ip (ground (arith, e'')) at;
        case = λ evaluate m code f. refl;
        writes = λ c. rw (e, e', e'') (simp append_assoc refl);
      }
      | inr e'' ↦ record {
        op = op_loadi_64;
        bytes = bytes_u64 value;
        read = read_u64;
        reads = λ code ip at. read_u64-bytes code value ip (h) at;
        case = λ evaluate m code f. refl;
        writes = λ c. rw (e, e', e'') (simp append_assoc refl);
      }
    ]
  ]
]

-- One step over the code of a literal loads its value into its register.
pub load_literal-step :
    (m : Module) (code : Code) (f : Frame) (c : CompileContext) (value : ℕ)
    → value < 2 ^ 64
    → (write_load_literal c value).0 < 2 ^ 8
    → ltb (write_load_literal c value).0 (length f.registers) ≡ true
    → f.ip ≡ length c.code
    → Covers code c (write_load_literal c value).1
    → (size : ℕ) × (length (write_load_literal c value).1.code ≡ length c.code + size)
      × StepsTo m code f (written f size (write_load_literal c value).0 (num value))
unfolding write_load_literal get_free_int_register write_code_u8
load_literal-step m code f c value small low room here covers =
    let i = immediate value small in
    let r = (write_load_literal c value).0 in
    let low' : r % 2 ^ 8 ≡ r = omega (arith, low) in
    let written_code : (write_load_literal c value).1.code
        ≡ c.code ++ (number i.op % 256 ∷ (i.bytes ++ (r ∷ []))) =
      rw (low', i.writes (get_free_int_register c).1)
        (append_assoc c.code (number i.op % 256 ∷ i.bytes) (r ∷ [])) in
    let at = Covers-At c (write_load_literal c value).1 _ written_code covers in
    let op = number i.op % 256 in
    let at' = subst (λ ip. At code ip (op ∷ (i.bytes ++ (r ∷ [])))) (sym here) at in
    let operand =
      At-front code i.bytes (r ∷ []) (f.ip + 1)
        (At-behind code (op ∷ []) (i.bytes ++ (r ∷ [])) f.ip at') in
    let size : length (write_load_literal c value).1.code ≡ length c.code + (length i.bytes + 2) =
      ap length written_code
      ∙ omega (
        arith,
        length-append c.code (op ∷ (i.bytes ++ (r ∷ []))),
        length-append i.bytes (r ∷ []),
      ) in
    (
      length i.bytes + 2,
      size,
      λ evaluate.
          loadi-step evaluate m code f op (length i.bytes) value r i.bytes i.read
            (i.case evaluate m code f) refl (i.reads code (f.ip + 1) operand) room at',
    )
