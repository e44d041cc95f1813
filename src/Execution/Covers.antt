-- ===== src/Execution/Covers.antt =====
-- The part of the code that an expression was compiled to, as the machine meets it.
use millie.Prelude.{
  ℕ, ◌+◌, ◌%◌, ◌≤◌, ◌<◌, ◌≡◌, refl, [], ◌∷◌, ◌++◌, length, get_elem?, arith, ap, ◌∙◌, length-append,
  append_assoc,
}
use millie.Bytecode.{Code, Opcode, number}
use millie.Bytecode.Codec.{At, get_elem?-append, get_elem?-front}
use millie.Compiler.Context.{CompileContext, write_code_u8}
use millie.Compiler.Expressions.{write_two, write_three}
use millie.Compiler.Growth.{Extends, longer}

-- The code holds what was written from one context to a later one.
pub record Covers (code : Code) (c c' : CompileContext) : Type 0 where
  pub covered :
      (i : ℕ) → length c.code ≤ i → i < length c'.code → get_elem? code i ≡ get_elem? c'.code i

module _ {code : Code} where
  pub Covers-At :
      (c c' : CompileContext) (bytes : Code)
      → c'.code ≡ c.code ++ bytes
      → Covers code c c'
      → At code (length c.code) bytes
  Covers-At c c' bytes e covers k h =
      let same : length c'.code ≡ length c.code + length bytes =
        ap length e ∙ length-append c.code bytes in
      covers.covered (length c.code + k) (omega arith) (omega (arith, h, same))
      ∙ ap (λ xs. get_elem? xs (length c.code + k)) e
      ∙ get_elem?-append c.code bytes k

  pub Covers-front :
      {c c₁ c₂ : CompileContext} → Extends c₁ c₂ → Covers code c c₂ → Covers code c c₁
  Covers-front {c} {c₁} {c₂} x covers = record {
    covered = λ i h h'.
        covers.covered i h (omega (arith, h', longer x))
        ∙ ap (λ xs. get_elem? xs i) x.emitted.1
        ∙ get_elem?-front c₁.code x.emitted.0 i h';
  }

  pub Covers-back : {c c₁ c₂ : CompileContext} → Extends c c₁ → Covers code c c₂ → Covers code c₁ c₂
  Covers-back x covers = record {
    covered = λ i h h'. covers.covered i (omega (arith, h, longer x)) h';
  }

pub write_two-code :
    (c : CompileContext) (op : Opcode) (a b : ℕ)
    → (write_two c op a b).code ≡ c.code ++ (number op % 256 ∷ a % 256 ∷ b % 256 ∷ [])
unfolding write_two write_code_u8
write_two-code c op a b = simp append_assoc refl

pub write_three-code :
    (c : CompileContext) (op : Opcode) (a b d : ℕ)
    → (write_three c op a b d).code ≡ c.code ++ (number op % 256 ∷ a % 256 ∷ b % 256 ∷ d % 256 ∷ [])
unfolding write_three write_two write_code_u8
write_three-code c op a b d = simp append_assoc refl
