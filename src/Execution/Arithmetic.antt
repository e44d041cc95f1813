-- ===== src/Execution/Arithmetic.antt =====
-- compiler.c, `_CompileBinary` and `_CompileUnary`, and the instructions that they end in.
use millie.Prelude.{
  ℕ, ◌%◌, ◌≡◌, refl, ltb, true, [], ◌∷◌, ◌++◌, some, length, get_elem?, append_assoc, subst, Option,
}
use mathlib.Core.Option.{some-injective}
use millie.Token.{TokenType, tok_plus, tok_minus, tok_star, tok_equals}
use millie.Ast.{Expression}
use millie.Bytecode.{Code, Module, Opcode, number, op_add, op_sub, op_mul, op_eq, op_neg}
use millie.Bytecode.Codec.{At}
use millie.Compiler.Context.{CompileContext, write_code_u8, get_free_int_register}
use millie.Compiler.Expressions.{
  binary_opcode, unary_opcode, known, write_operator, write_binary, write_unary, Operation,
  find_operation,
}
use millie.Runtime.{num}
use millie.Runtime.Step.{Frame}
use millie.Execution.Steps.{StepsTo}
use millie.Execution.Instructions.{written, add-step, sub-step, mul-step, eq-step, neg-step}
use millie.Execution.Meaning.{operate, negate}

module _ (m : Module) (code : Code) where
  -- The opcode of an operator does what the operator means.
  pub record Operates (operator : TokenType) (a b value : ℕ) : Type 0 where
    pub op : Opcode
    pub is_op : binary_opcode operator ≡ some op
    pub does :
        (f : Frame) (l r d : ℕ)
        → get_elem? f.registers l ≡ some (num a)
        → get_elem? f.registers r ≡ some (num b)
        → ltb d (length f.registers) ≡ true
        → At code f.ip (number op % 256 ∷ l ∷ r ∷ d ∷ [])
        → StepsTo m code f (written f 4 d (num value))

  pub operate-Operates :
      (operator : TokenType) (a b value : ℕ)
      → operate operator a b ≡ some value
      → Operates operator a b value
  operate-Operates tok_plus a b value e =
      subst (Operates tok_plus a b) (some-injective _ _ e) (record {
        op = op_add;
        is_op = refl;
        does = λ f l r d x y z at evaluate. add-step evaluate m code f l r d a b x y z at;
      })
  operate-Operates tok_minus a b value e =
      subst (Operates tok_minus a b) (some-injective _ _ e) (record {
        op = op_sub;
        is_op = refl;
        does = λ f l r d x y z at evaluate. sub-step evaluate m code f l r d a b x y z at;
      })
  operate-Operates tok_star a b value e =
      subst (Operates tok_star a b) (some-injective _ _ e) (record {
        op = op_mul;
        is_op = refl;
        does = λ f l r d x y z at evaluate. mul-step evaluate m code f l r d a b x y z at;
      })
  operate-Operates tok_equals a b value e =
      subst (Operates tok_equals a b) (some-injective _ _ e) (record {
        op = op_eq;
        is_op = refl;
        does = λ f l r d x y z at evaluate. eq-step evaluate m code f l r d a b x y z at;
      })
  operate-Operates _ a b value e = cc

  pub negate-step :
      (operator : TokenType) (a value : ℕ) (f : Frame) (l d : ℕ)
      → negate operator a ≡ some value
      → get_elem? f.registers l ≡ some (num a)
      → ltb d (length f.registers) ≡ true
      → (op : Opcode) × (unary_opcode operator ≡ some op)
        × (At code f.ip (number op % 256 ∷ l ∷ d ∷ [])
            → StepsTo m code f (written f 3 d (num value)))
  negate-step tok_minus a value f l d e x z = (
    op_neg,
    refl,
    λ at.
        subst (λ v. StepsTo m code f (written f 3 d (num v))) (some-injective _ _ e)
          (λ evaluate. neg-step evaluate m code f l d a x z at),
  )
  negate-step _ a value f l d e x z = cc

-- For an operator that has an opcode no token is read.
pub find_operation-known :
    (c : CompileContext) (e : Expression) {found : Option Opcode} {op : Opcode} {o : Operation}
    → found ≡ some op
    → find_operation c e found ≡ some o
    → known op ≡ o
unfolding find_operation
find_operation-known c e {found} {op} is_op h = some-injective _ _ (rw is_op at h)

pub write_binary-code :
    (op : Opcode) (l r : ℕ) (c : CompileContext)
    → (write_binary (known op) l r c).1.code
      ≡ c.code ++ (number op % 256 ∷ l % 256 ∷ r % 256 ∷ (get_free_int_register c).0 % 256 ∷ [])
unfolding write_binary write_operator write_code_u8 get_free_int_register
write_binary-code op l r c = simp append_assoc refl

pub write_unary-code :
    (op : Opcode) (a : ℕ) (c : CompileContext)
    → (write_unary (known op) a c).1.code
      ≡ c.code ++ (number op % 256 ∷ a % 256 ∷ (get_free_int_register c).0 % 256 ∷ [])
unfolding write_unary write_operator write_code_u8 get_free_int_register
write_unary-code op a c = simp append_assoc refl
