-- ===== src/Execution/Layout.antt =====
-- compiler.c, `_CompileIf`: where its parts and its two jumps stand in the code.
use millie.Prelude.{
  ℕ, ◌+◌, ◌%◌, ◌^◌, ◌≤◌, ◌≡◌, refl, ◌==◌, if◌then◌else◌, [], ◌∷◌, ◌++◌, length, arith, ap, subst,
  ◌∙◌, append_assoc, length-append,
}
use millie.Bytecode.{Code, bytes_u16, op_jz, op_jmp, op_mov}
use millie.Bytecode.Codec.{At, At-join}
use millie.Compiler.Context.{CompileContext, write_opcode, write_code_u8, reserve_u16, patch_u16}
use millie.Compiler.Expressions.{write_two, jump_offset}
use millie.Compiler.Growth.{Extends, ◌▸◌, longer, write_code_u8-Extends, reserve_u16-Extends}
use millie.Compiler.Stability.{
  write_opcode-Extends, patch_u16-Extends, length-reserve_u16, length-patch_u16,
}
use millie.Compiler.Invariant.{move-Extends}
use millie.Execution.Covers.{Covers, Covers-At, Covers-front, Covers-back}
use millie.Execution.Patches.{overwrite_u16-front, patched-front, patched-back, patched-At}

-- The contexts that `_CompileIf` goes through, from those behind its three parts.
module _ (t taken other : ℕ × CompileContext) where
  abbrev pub tested : CompileContext
  tested = write_code_u8 (write_opcode t.1 op_jz) t.0

  abbrev pub jumped : CompileContext
  jumped = write_opcode taken.1 op_jmp

  abbrev pub false_loc : ℕ
  false_loc = length tested.code

  abbrev pub end_loc : ℕ
  end_loc = length jumped.code

  abbrev pub false_offset : ℕ
  false_offset = jump_offset (length (reserve_u16 jumped).code) false_loc

  abbrev pub otherwise : CompileContext
  otherwise = patch_u16 (reserve_u16 jumped) false_loc false_offset

  abbrev pub moved : CompileContext
  moved = if other.0 == taken.0 then other.1 else write_two other.1 op_mov other.0 taken.0

  abbrev pub end_offset : ℕ
  end_offset = jump_offset (length moved.code) end_loc

  abbrev pub ended : CompileContext
  ended = patch_u16 moved end_loc end_offset

  -- The code before the second offset, with the first one patched.
  abbrev bare : CompileContext
  bare = patch_u16 jumped false_loc false_offset

  module _ (c : CompileContext) (x : Extends c t.1) (y : Extends (reserve_u16 tested) taken.1)
      (z : Extends otherwise other.1) where
    pub to_tested : Extends t.1 tested
    to_tested = write_opcode-Extends t.1 op_jz ▸ write_code_u8-Extends _ t.0

    pub arm : Extends (reserve_u16 tested) jumped
    arm = y ▸ write_opcode-Extends taken.1 op_jmp

    pub more : Extends otherwise moved
    more = z ▸ move-Extends other.0 taken.0 other.1

    pub arm_inside : false_loc + 2 ≤ end_loc
    arm_inside = omega (arith, longer arm, length-reserve_u16 tested)

    both_inside : false_loc + 2 ≤ length (reserve_u16 jumped).code
    both_inside = omega (arith, arm_inside, length-reserve_u16 jumped)

    pub otherwise-length : length otherwise.code ≡ end_loc + 2
    otherwise-length =
        length-patch_u16 (reserve_u16 jumped) false_loc false_offset both_inside
        ∙ length-reserve_u16 jumped

    pub end_inside : end_loc + 2 ≤ length moved.code
    end_inside = omega (arith, longer more, otherwise-length)

    pub to_otherwise : Extends c otherwise
    to_otherwise =
        patch_u16-Extends false_loc false_offset
          (x ▸ to_tested ▸ reserve_u16-Extends tested ▸ arm ▸ reserve_u16-Extends jumped)
          (longer (x ▸ to_tested)) both_inside

    pub to_ended : Extends c ended
    to_ended =
        patch_u16-Extends end_loc end_offset (to_otherwise ▸ more)
          (longer (x ▸ to_tested ▸ reserve_u16-Extends tested ▸ arm)) end_inside

    pub ended-length : length ended.code ≡ length moved.code
    ended-length = length-patch_u16 moved end_loc end_offset end_inside

    ended-max : ended.max_registers ≡ moved.max_registers
    unfolding patch_u16
    ended-max = refl

    otherwise-max : otherwise.max_registers ≡ taken.1.max_registers
    unfolding patch_u16 reserve_u16 write_code_u8
    otherwise-max = refl

    pub tested-max : (reserve_u16 tested).max_registers ≡ t.1.max_registers
    unfolding reserve_u16 write_code_u8
    tested-max = refl

    pub taken-max : taken.1.max_registers ≤ ended.max_registers
    taken-max = omega (arith, ended-max, otherwise-max, more.more_registers)

    pub other-max : other.1.max_registers ≤ ended.max_registers
    other-max = omega (arith, ended-max, (move-Extends other.0 taken.0 other.1).more_registers)

    tested-code : tested.code ≡ t.1.code ++ (16 ∷ t.0 % 2 ^ 8 ∷ [])
    unfolding write_code_u8
    tested-code = append_assoc t.1.code (16 ∷ []) (t.0 % 2 ^ 8 ∷ [])

    jumped-code : jumped.code ≡ taken.1.code ++ (15 ∷ [])
    unfolding write_code_u8
    jumped-code = refl

    pub tested-length : false_loc ≡ length t.1.code + 2
    tested-length = ap length tested-code ∙ length-append t.1.code (16 ∷ t.0 % 2 ^ 8 ∷ [])

    pub jumped-length : end_loc ≡ length taken.1.code + 1
    jumped-length = ap length jumped-code ∙ length-append taken.1.code (15 ∷ [])

    module _ (code : Code) (covers : Covers code c ended) where
      pub other-Covers : Covers code otherwise moved
      other-Covers =
          patched-back c moved end_loc end_offset covers end_inside otherwise (longer to_otherwise)
            (omega (arith, otherwise-length))

      bare-length : length bare.code ≡ end_loc
      bare-length = length-patch_u16 jumped false_loc false_offset arm_inside

      bare-Covers : Covers code c bare
      unfolding patch_u16 reserve_u16
      bare-Covers =
          patched-front c moved end_loc end_offset covers end_inside c bare
            ((0 ∷ 0 ∷ []) ++ more.emitted.0) (omega arith)
            (more.emitted.1
              ∙ ap (λ xs. xs ++ more.emitted.0)
                  (overwrite_u16-front jumped.code false_loc false_offset arm_inside (0 ∷ 0 ∷ []))
              ∙ append_assoc bare.code (0 ∷ 0 ∷ []) more.emitted.0)
            (omega (arith, bare-length))

      tested-Covers : Covers code c tested
      unfolding reserve_u16
      tested-Covers =
          patched-front c jumped false_loc false_offset bare-Covers arm_inside c tested
            ((0 ∷ 0 ∷ []) ++ arm.emitted.0) (omega arith)
            (arm.emitted.1 ∙ append_assoc tested.code (0 ∷ 0 ∷ []) arm.emitted.0) (omega arith)

      pub test-Covers : Covers code c t.1
      test-Covers = Covers-front to_tested tested-Covers

      jumped-Covers : Covers code (reserve_u16 tested) jumped
      jumped-Covers =
          patched-back c jumped false_loc false_offset bare-Covers arm_inside (reserve_u16 tested)
            (longer (x ▸ to_tested ▸ reserve_u16-Extends tested))
            (omega (arith, length-reserve_u16 tested))

      pub arm-Covers : Covers code (reserve_u16 tested) taken.1
      arm-Covers = Covers-front (write_opcode-Extends taken.1 op_jmp) jumped-Covers

      pub jz-At : At code (length t.1.code) (16 ∷ t.0 % 2 ^ 8 ∷ bytes_u16 false_offset)
      jz-At =
          At-join code (16 ∷ t.0 % 2 ^ 8 ∷ []) (bytes_u16 false_offset) (length t.1.code)
            (Covers-At t.1 tested _ tested-code (Covers-back x tested-Covers))
            (subst (λ n. At code n (bytes_u16 false_offset)) tested-length
              (patched-At c jumped false_loc false_offset bare-Covers arm_inside
                (longer (x ▸ to_tested))))

      pub jmp-At : At code (length taken.1.code) (15 ∷ bytes_u16 end_offset)
      jmp-At =
          At-join code (15 ∷ []) (bytes_u16 end_offset) (length taken.1.code)
            (Covers-At taken.1 jumped _ jumped-code (Covers-back y jumped-Covers))
            (subst (λ n. At code n (bytes_u16 end_offset)) jumped-length
              (patched-At c moved end_loc end_offset covers end_inside
                (longer (x ▸ to_tested ▸ reserve_u16-Extends tested ▸ arm))))
