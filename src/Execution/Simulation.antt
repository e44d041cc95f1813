-- ===== src/Execution/Simulation.antt =====
-- compiler.c and runtime.c: the code of an expression computes its value.
use millie.Prelude.{
  ℕ, ◌+◌, ◌%◌, ◌^◌, ◌<◌, ◌≡◌, ◌≢◌, refl, ltb, true, List, [], ◌∷◌, ◌++◌, some, length,
  length-append, get_elem?, arith, ap, sym, subst, ◌∙◌, >>=-eq-some, All,
}
use millie.Token.{TokenType}
use millie.Ast.{Symbol, Expression, exp_binary, exp_unary}
use millie.Bytecode.{Code, Module, number}
use millie.Bytecode.Codec.{At}
use millie.Compiler.Context.{CompileContext, get_free_int_register}
use millie.Compiler.Emit.{write_load_literal}
use millie.Compiler.Expressions.{
  Operation, known, find_operation, binary_opcode, unary_opcode, write_binary, write_unary,
}
use millie.Compiler.Growth.{Extends, ◌▸◌, Extends-refl}
use millie.Compiler.Stability.{
  write_load_literal-Extends, write_binary-Extends, write_unary-Extends,
}
use millie.Runtime.{num}
use millie.Runtime.Step.{Frame}
use millie.Execution.Meaning.{Env, meaning, operate, own_register}
use millie.Execution.Steps.{StepsTo, stay, ◌then◌}
use millie.Execution.Instructions.{written}
use millie.Execution.Covers.{Covers-At}
use millie.Execution.Literals.{load_literal-step}
use millie.Execution.Bindings.{Stale}
use millie.Execution.Frames.{
  Starts, Computes, Starts-front, Starts-next, Computes-write, get_free_int_register-fresh,
}
use millie.Execution.Arithmetic.{
  operate-Operates, negate-step, write_binary-code, write_unary-code, find_operation-known,
}
use millie.Execution.Registers.{
  Fresh, TakesOne, TakesOne-Fresh, write_load_literal-TakesOne, write_binary-TakesOne,
  write_unary-TakesOne,
}

-- None of the names stands in an entry that is not in force.
abbrev pub Unused : List Symbol → CompileContext → Type 0
Unused ids c = All (λ id. Stale (λ s. s ≢ id) c) ids

module _ (m : Module) (code : Code) where
  -- What compiling an expression to a result gives.
  pub record Works (e : Expression) (c : CompileContext) (r : ℕ × CompileContext) : Type 0 where
    pub extends : Extends c r.1
    pub own : own_register e ≡ true → Fresh c r
    pub runs :
        (env : Env) (f : Frame) (value : ℕ)
        → meaning e env ≡ some value
        → Starts m code env c r.1 f
        → Computes m code c r.1 f r.0 value

  literal-Computes :
      (env : Env) (f : Frame) (value : ℕ) (c : CompileContext)
      → value < 2 ^ 64
      → Starts m code env c (write_load_literal c value).1 f
      → Computes m code c (write_load_literal c value).1 f (write_load_literal c value).0 value
  literal-Computes env f value c small s =
      let t = write_load_literal-TakesOne c value in
      let own = TakesOne-Fresh (write_load_literal c value) (Extends-refl c) t s.counted s.few in
      let low : (write_load_literal c value).0 < 2 ^ 8 = omega (arith, own.1, s.few) in
      let room : ltb (write_load_literal c value).0 (length f.registers) ≡ true =
        ground (arith, own.1, s.room) in
      let x = load_literal-step m code f c value small low room s.here s.covers in
      Computes-write m code x.0 stay refl refl (λ i h. refl) x.2 (omega (arith, x.1, s.here)) own.0
        own.1 s.room

  pub literal-Works :
      (e : Expression) (value : ℕ) (c : CompileContext)
      → ((env : Env) (v : ℕ) → meaning e env ≡ some v → (value < 2 ^ 64) × (value ≡ v))
      → Works e c (write_load_literal c value)
  literal-Works e value c means = record {
    extends = write_load_literal-Extends c value;
    own = λ _.
        TakesOne-Fresh (write_load_literal c value) (Extends-refl c)
          (write_load_literal-TakesOne c value);
    runs = λ env f v h s.
        let k = means env v h in
        subst
          (λ w. Computes m code c (write_load_literal c value).1 f (write_load_literal c value).0 w)
          k.1 (literal-Computes env f value c k.0 s);
  }

  -- The instruction of an operator, behind its operands.
  binary-last :
      (ex : Expression) (operator : TokenType) (o : Operation) (l r a b value : ℕ)
      (c d : CompileContext) (env : Env) (g : Frame)
      → operate operator a b ≡ some value
      → find_operation d ex (binary_opcode operator) ≡ some o
      → Starts m code env c (write_binary o l r c).1 g
      → (l < c.max_registers) × (get_elem? g.registers l ≡ some (num a))
      → (r < c.max_registers) × (get_elem? g.registers r ≡ some (num b))
      → StepsTo m code g (written g 4 (write_binary o l r c).0 (num value))
        × (g.ip + 4 ≡ length (write_binary o l r c).1.code)
  binary-last ex operator o l r a b value c d env g h found s left right =
      let out = write_binary o l r c in
      let does = operate-Operates m code operator a b value h in
      let o_is : known does.op ≡ o = find_operation-known d ex does.is_op found in
      let t = write_binary-TakesOne o l r c in
      let n = get_free_int_register-fresh c s.counted (omega (arith, t.1, s.few)) in
      let l_low : l % 2 ^ 8 ≡ l = omega (arith, left.0, t.1, s.few) in
      let r_low : r % 2 ^ 8 ≡ r = omega (arith, right.0, t.1, s.few) in
      let d_low : out.0 % 2 ^ 8 ≡ out.0 = omega (arith, n, t.0, t.1, s.few) in
      let d_is : (get_free_int_register c).0 % 2 ^ 8 ≡ out.0 = rw (sym t.0) d_low in
      let room : ltb out.0 (length g.registers) ≡ true = ground (arith, n, t.0, t.1, s.room) in
      let bytes : Code = number does.op % 2 ^ 8 ∷ l ∷ r ∷ out.0 ∷ [] in
      let written_code : out.1.code ≡ c.code ++ bytes =
        rw (l_low, r_low, d_is) at
          (subst
            (λ (x : Operation).
              (write_binary x l r c).1.code
              ≡ c.code
                ++ (number does.op % 256
                    ∷ l % 256
                    ∷ r % 256
                    ∷ (get_free_int_register c).0 % 256
                    ∷ []))
            o_is (write_binary-code does.op l r c)) in
      let at : At code g.ip bytes =
        subst (λ ip. At code ip bytes) (sym s.here)
          (Covers-At c out.1 bytes written_code s.covers) in
      (
        does.does g l r out.0 left.1 right.1 room at,
        omega (arith, s.here, ap length written_code, length-append c.code bytes),
      )

  pub binary-Works :
      (s e : ℕ) (operator : TokenType) (left right : Expression) (c : CompileContext)
      (l r : ℕ × CompileContext) (o : Operation)
      → Works left c l
      → Works right l.1 r
      → find_operation r.1 (exp_binary s e operator left right) (binary_opcode operator) ≡ some o
      → Works (exp_binary s e operator left right) c (write_binary o l.0 r.0 r.1)
  unfolding meaning
  binary-Works s e operator left right c l r o x y found = record {
    extends = x.extends ▸ y.extends ▸ w;
    own = λ _. TakesOne-Fresh out (x.extends ▸ y.extends) takes;
    runs = λ env f value h st.
        let va = >>=-eq-some (meaning left env) _ h in
        let vb = >>=-eq-some (meaning right env) _ va.2 in
        let d₁ = x.runs env f va.0 va.1 (Starts-front m code (y.extends ▸ w) st) in
        let st₁ = Starts-next m code st x.extends d₁ in
        let d₂ = y.runs env d₁.after vb.0 vb.1 (Starts-front m code w st₁) in
        let st₂ = Starts-next m code st₁ y.extends d₂ in
        let last =
          binary-last ex operator o l.0 r.0 va.0 vb.0 value r.1 r.1 env d₂.after vb.2 found st₂
            (omega (arith, d₁.low, y.extends.more_registers), d₂.kept l.0 d₁.low ∙ d₁.result)
            (d₂.low, d₂.result) in
        let own = TakesOne-Fresh out (x.extends ▸ y.extends) takes st.counted st.few in
        Computes-write m code 4 (d₁.steps then d₂.steps) (d₂.same_heap ∙ d₁.same_heap)
          (d₂.same_room ∙ d₁.same_room)
          (λ i low. d₂.kept i (omega (arith, low, x.extends.more_registers)) ∙ d₁.kept i low) last.0
          last.1 own.0 own.1 st.room;
  }
    where
      ex : Expression
      ex = exp_binary s e operator left right

      out : ℕ × CompileContext
      out = write_binary o l.0 r.0 r.1

      w : Extends r.1 out.1
      w = write_binary-Extends o l.0 r.0 r.1

      takes : TakesOne r.1 out
      takes = write_binary-TakesOne o l.0 r.0 r.1

  pub unary-Works :
      (s e : ℕ) (operator : TokenType) (arg : Expression) (c : CompileContext)
      (a : ℕ × CompileContext) (o : Operation)
      → Works arg c a
      → find_operation a.1 (exp_unary s e operator arg) (unary_opcode operator) ≡ some o
      → Works (exp_unary s e operator arg) c (write_unary o a.0 a.1)
  unfolding meaning
  unary-Works s e operator arg c a o x found = record {
    extends = x.extends ▸ w;
    own = λ _. TakesOne-Fresh out x.extends takes;
    runs = λ env f value h st.
        let va = >>=-eq-some (meaning arg env) _ h in
        let d = x.runs env f va.0 va.1 (Starts-front m code w st) in
        let st₁ = Starts-next m code st x.extends d in
        let own = TakesOne-Fresh out x.extends takes st.counted st.few in
        let room : ltb out.0 (length d.after.registers) ≡ true = ground (arith, own.1, st₁.room) in
        let n = negate-step m code operator va.0 value d.after a.0 out.0 va.2 d.result room in
        let a_low : a.0 % 2 ^ 8 ≡ a.0 = omega (arith, d.low, takes.1, st.few) in
        let d_is : (get_free_int_register a.1).0 % 2 ^ 8 ≡ out.0 =
          omega (arith, takes.0, own.1, st.few) in
        let bytes : Code = number n.0 % 2 ^ 8 ∷ a.0 ∷ out.0 ∷ [] in
        let written_code : out.1.code ≡ a.1.code ++ bytes =
          rw (a_low, d_is) at
            (subst
              (λ (x : Operation).
                (write_unary x a.0 a.1).1.code
                ≡ a.1.code
                  ++ (number n.0 % 256 ∷ a.0 % 256 ∷ (get_free_int_register a.1).0 % 256 ∷ []))
              (find_operation-known a.1 ex n.1 found) (write_unary-code n.0 a.0 a.1)) in
        let at : At code d.after.ip bytes =
          subst (λ ip. At code ip bytes) (sym st₁.here)
            (Covers-At a.1 out.1 bytes written_code st₁.covers) in
        Computes-write m code 3 d.steps d.same_heap d.same_room d.kept (n.2 at)
          (omega (arith, d.there, ap length written_code, length-append a.1.code bytes)) own.0 own.1
          st.room;
  }
    where
      ex : Expression
      ex = exp_unary s e operator arg

      out : ℕ × CompileContext
      out = write_unary o a.0 a.1

      w : Extends a.1 out.1
      w = write_unary-Extends o a.0 a.1

      takes : TakesOne a.1 out
      takes = write_unary-TakesOne o a.0 a.1
