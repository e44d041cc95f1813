-- ===== src/Execution/Instructions.antt =====
-- runtime.c: what each instruction does where its bytes stand in the code.
use millie.Prelude.{
  ℕ, ◌+◌, ◌<◌, ◌≡◌, refl, ltb, ◌==◌, true, if◌then◌else◌, [], ◌∷◌, ◌++◌, Option, some, length,
  get_elem?, set, arith, ◌^◌, Bool-cases, inl, inr,
}
use millie.Bytecode.{Code, Module, bytes_u16, read_u8}
use millie.Bytecode.Codec.{At, At-op, At-behind, read_u16-bytes}
use millie.Runtime.{
  Word, num, write_register, read_number, same_word, is_zero, jump, add64, sub64, mul64, neg64,
}
use millie.Runtime.Step.{
  Frame, Evaluates, go_on, assign, arithmetic, step_neg, step_eq, step_mov, step_jz, step_jmp,
  step_loadi, step_op, step,
}

-- The frame behind an instruction of some bytes that writes a register.
abbrev pub written : Frame → ℕ → ℕ → Word → Frame
written f size reg value = record f { registers = set f.registers reg value; ip = f.ip + size }

module _ (evaluate : Evaluates) (m : Module) (code : Code) (f : Frame) where
  module _ (l r d a b : ℕ) (left : get_elem? f.registers l ≡ some (num a))
      (right : get_elem? f.registers r ≡ some (num b))
      (room : ltb d (length f.registers) ≡ true) where
    pub add-step :
        At code f.ip (10 ∷ l ∷ r ∷ d ∷ [])
        → step evaluate m code f ≡ some (go_on (written f 4 d (num (add64 a b))))
    unfolding step step_op arithmetic read_u8 read_number assign write_register
    add-step at =
        rw
          (
            At-op code (l ∷ r ∷ d ∷ []) 10 f.ip at,
            at 1 (omega arith),
            at 2 (omega arith),
            at 3 (omega arith),
            left,
            right,
            room,
          )
          refl

    pub sub-step :
        At code f.ip (11 ∷ l ∷ r ∷ d ∷ [])
        → step evaluate m code f ≡ some (go_on (written f 4 d (num (sub64 a b))))
    unfolding step step_op arithmetic read_u8 read_number assign write_register
    sub-step at =
        rw
          (
            At-op code (l ∷ r ∷ d ∷ []) 11 f.ip at,
            at 1 (omega arith),
            at 2 (omega arith),
            at 3 (omega arith),
            left,
            right,
            room,
          )
          refl

    pub mul-step :
        At code f.ip (12 ∷ l ∷ r ∷ d ∷ [])
        → step evaluate m code f ≡ some (go_on (written f 4 d (num (mul64 a b))))
    unfolding step step_op arithmetic read_u8 read_number assign write_register
    mul-step at =
        rw
          (
            At-op code (l ∷ r ∷ d ∷ []) 12 f.ip at,
            at 1 (omega arith),
            at 2 (omega arith),
            at 3 (omega arith),
            left,
            right,
            room,
          )
          refl

    pub eq-step :
        At code f.ip (14 ∷ l ∷ r ∷ d ∷ [])
        → step evaluate m code f ≡ some (go_on (written f 4 d (num (if a == b then 1 else 0))))
    unfolding step step_op step_eq read_u8 same_word assign write_register
    eq-step at =
        rw
          (
            At-op code (l ∷ r ∷ d ∷ []) 14 f.ip at,
            at 1 (omega arith),
            at 2 (omega arith),
            at 3 (omega arith),
            left,
            right,
            room,
          )
          refl

  module _ (l d a : ℕ) (arg : get_elem? f.registers l ≡ some (num a))
      (room : ltb d (length f.registers) ≡ true) where
    pub neg-step :
        At code f.ip (13 ∷ l ∷ d ∷ [])
        → step evaluate m code f ≡ some (go_on (written f 3 d (num (neg64 a))))
    unfolding step step_op step_neg read_u8 read_number assign write_register
    neg-step at =
        rw (At-op code (l ∷ d ∷ []) 13 f.ip at, at 1 (omega arith), at 2 (omega arith), arg, room)
          refl

    pub mov-step :
        At code f.ip (17 ∷ l ∷ d ∷ [])
        → step evaluate m code f ≡ some (go_on (written f 3 d (num a)))
    unfolding step step_op step_mov read_u8 assign write_register
    mov-step at =
        rw (At-op code (l ∷ d ∷ []) 17 f.ip at, at 1 (omega arith), at 2 (omega arith), arg, room)
          refl

  pub jmp-step :
      (offset : ℕ)
      → offset < 2 ^ 15
      → At code f.ip (15 ∷ bytes_u16 offset)
      → step evaluate m code f ≡ some (go_on (record f { ip = f.ip + 3 + offset }))
  unfolding step step_op step_jmp read_u8 jump
  jmp-step offset h at =
      let read =
        read_u16-bytes code offset (f.ip + 1) (omega (arith, h))
          (At-behind code (15 ∷ []) (bytes_u16 offset) f.ip at) in
      let short : ltb offset (2 ^ 15) ≡ true = ground (arith, h) in
      rw (At-op code (bytes_u16 offset) 15 f.ip at, read, short) refl

  -- Where the test is 0, the jump is taken.
  pub jz-step :
      (t v offset : ℕ)
      → offset < 2 ^ 15
      → get_elem? f.registers t ≡ some (num v)
      → At code f.ip (16 ∷ t ∷ bytes_u16 offset)
      → step evaluate m code f
        ≡ some (go_on (record f { ip = if v == 0 then f.ip + 4 + offset else f.ip + 4 }))
  unfolding step step_op step_jz read_u8 jump is_zero
  jz-step t v offset h test at =
      let read =
        read_u16-bytes code offset (f.ip + 2) (omega (arith, h))
          (At-behind code (16 ∷ t ∷ []) (bytes_u16 offset) f.ip at) in
      let short : ltb offset (2 ^ 15) ≡ true = ground (arith, h) in
      elim (Bool-cases (v == 0)) [
        | inl e ↦
            rw
              (
                At-op code (t ∷ bytes_u16 offset) 16 f.ip at,
                at 1 (omega arith),
                read,
                test,
                short,
                e,
              )
              refl
        | inr e ↦
            rw (At-op code (t ∷ bytes_u16 offset) 16 f.ip at, at 1 (omega arith), read, test, e)
              refl
      ]

  -- The loads of immediates, by the bytes of the immediate and their reading.
  pub loadi-step :
      (op size value d : ℕ) (bytes : Code) (read : Code → ℕ → Option ℕ)
      → step_op evaluate m code op f ≡ step_loadi code f size read
      → length bytes ≡ size
      → read code (f.ip + 1) ≡ some value
      → ltb d (length f.registers) ≡ true
      → At code f.ip (op ∷ (bytes ++ (d ∷ [])))
      → step evaluate m code f ≡ some (go_on (written f (size + 2) d (num value)))
  unfolding step step_loadi read_u8 assign write_register
  loadi-step op size value d bytes read case size_eq value_eq room at =
      let target = At-behind code (op ∷ bytes) (d ∷ []) f.ip at 0 (omega arith) in
      let where_ : f.ip + 1 + size ≡ f.ip + length (op ∷ bytes) + 0 = omega (arith, size_eq) in
      rw (At-op code (bytes ++ (d ∷ [])) op f.ip at, case, value_eq, where_, target, room) refl
