-- ===== src/Execution/Correct.antt =====
-- compiler.c and runtime.c: the code of every expression without functions and tuples works.
use millie.Prelude.{
  ℕ, ◌^◌, ◌<◌, ◌≡◌, ◌≢◌, refl, ltb, if◌then◌else◌, List, [], ◌∷◌, ◌++◌, Option, none, some, length,
  get_elem?, arith, sym, subst, ◌∙◌, ◌>>=◌, >>=-eq-some, Bool-cases, inl, inr, All-front, All-back,
  Holds, holds, Holds-at, Holds-bind, Holds-any,
}
use mathlib.Core.Option.{some-injective}
use mathlib.Core.Bool.{false≢true}
use millie.Ast.{
  Symbol, Expression, exp_lambda, exp_identifier, exp_let, exp_integer_constant, exp_true,
  exp_false, exp_if, exp_binary, exp_unary,
}
use millie.Bytecode.{Code, Module, op_jz}
use millie.Compiler.Context.{
  CompileBinding, CompileContext, write_code_u8, write_opcode, reserve_u16, patch_u16, push_binding,
  pop_binding,
}
use millie.Compiler.Emit.{find_binding, closure_offset, write_closure_load, compile_identifier_impl}
use millie.Compiler.Expressions.{compile, compile_if, find_operation}
use millie.Compiler.Growth.{Extends, ◌▸◌, Extends-refl, pushed, push_binding-eq-some, scoped}
use millie.Compiler.Stability.{write_closure_load-Extends}
use millie.Compiler.Invariant.{closure_offset-Keeps}
use millie.Runtime.{num}
use millie.Execution.Meaning.{extend, meaning, identifiers, binders, Disjoint, IsApart}
use millie.Execution.Steps.{stay, ◌then◌}
use millie.Execution.Bindings.{Stale, Bound-push, find_binding-Binds}
use millie.Execution.Scopes.{SameBindings, Stale-same, Stale-pushed, compile-Stale}
use millie.Execution.Frames.{Starts-front, Starts-next}
use millie.Execution.Simulation.{Unused, Works, literal-Works, binary-Works, unary-Works}
use millie.Execution.Branches.{if-Works}
use millie.Execution.Layout.{otherwise}

Unused-same :
    (ids : List Symbol) (c c' : CompileContext) → SameBindings c c' → Unused ids c → Unused ids c'
Unused-same [] c c' s u = tt
Unused-same (id ∷ ids) c c' s u = (Stale-same (λ x. x ≢ id) s u.0, Unused-same ids c c' s u.1)

Unused-pushed :
    (ids : List Symbol) (c : CompileContext) (id reg : ℕ) {c₁ : CompileContext}
    → push_binding c id reg ≡ some c₁
    → Unused ids c
    → Unused ids c₁
Unused-pushed [] c id reg h u = tt
Unused-pushed (x ∷ ids) c id reg h u =
    (Stale-pushed (λ s. s ≢ x) c id reg h u.0, Unused-pushed ids c id reg h u.1)

-- Compiling an expression leaves only its own names behind.
Unused-compile :
    (garbage : ℕ → List CompileBinding) (e : Expression) (ids : List Symbol) (c : CompileContext)
    {r : ℕ × CompileContext}
    → IsApart e
    → Disjoint (binders e) ids
    → compile garbage e c ≡ some r
    → Unused ids c
    → Unused ids r.1
Unused-compile garbage e [] c a d h u = tt
Unused-compile garbage e (id ∷ ids) c a d h u = (
  Holds-at (compile-Stale (λ s. s ≢ id) garbage e c a d.0 u.0) h,
  Unused-compile garbage e ids c a d.1 h u.1,
)

module _ (m : Module) (code : Code) where
  identifier-Works :
      (s e : ℕ) (id : Symbol) (c : CompileContext)
      → Stale (λ x. x ≢ id) c
      → Holds (Works m code (exp_identifier s e id) c) (compile_identifier_impl c id)
  unfolding compile_identifier_impl meaning
  identifier-Works s e id c u =
      Holds-any (find_binding c.bindings c.binding_top id) _ λ found eq. go found eq
    where
      go :
          (found : Option ℕ)
          → find_binding c.bindings c.binding_top id ≡ some found
          → Holds (Works m code (exp_identifier s e id) c) (elim found [
            | some reg ↦ some (reg, c)
            | none ↦ closure_offset c id >>= λ r. some (write_closure_load r.1 r.0)
          ])
      go (some reg) eq = holds (record {
        extends = Extends-refl c;
        own = λ no_own. absurd (false≢true no_own);
        runs = λ env f value h st.
            let b = st.bound.binds id value h in
            let same : b.reg ≡ reg =
              sym (
                some-injective _ _ (find_binding-Binds c id value f.registers (some reg) b u eq)) in
            record {
              after = f;
              steps = stay;
              there = st.here;
              same_heap = refl;
              same_room = refl;
              kept = λ i low. refl;
              low = omega (arith, b.low, same);
              result = subst (λ n. get_elem? f.registers n ≡ some (num value)) same b.has_value;
            };
      })
      go none eq = Holds-bind _ (closure_offset-Keeps c id) λ r x. holds (record {
        extends = x ▸ write_closure_load-Extends r.1 r.0;
        own = λ no_own. absurd (false≢true no_own);
        runs = λ env f value h st.
            let b = st.bound.binds id value h in
            absurd (none_ne (find_binding-Binds c id value f.registers none b u eq));
      })
        where
          none_ne : {n : ℕ} → none ≡ some n → ⊥
          none_ne q = cc

  let-Works :
      (s e : ℕ) (id : Symbol) (value body : Expression) (c : CompileContext)
      (v b : ℕ × CompileContext)
      → v.1.binding_top < length v.1.bindings
      → Extends v.1 (pop_binding b.1)
      → Works m code value c v
      → Works m code body (pushed v.1 id v.0) b
      → Works m code (exp_let s e id value body) c (b.0, pop_binding b.1)
  unfolding meaning pop_binding
  let-Works s e id value body c v b room to x y = record {
    extends = x.extends ▸ to;
    own = λ own counted few.
        let o = y.own own (x.extends.counted counted) few in
        (omega (arith, o.0, x.extends.more_registers), o.1);
    runs = λ env f w h st.
        let means = >>=-eq-some (meaning value env) _ h in
        let d₁ = x.runs env f means.0 means.1 (Starts-front m code to st) in
        let st₁ = Starts-next m code st x.extends d₁ in
        let d₂ = y.runs (extend env id means.0) d₁.after w means.2 (record {
          counted = st₁.counted;
          few = st₁.few;
          room = st₁.room;
          short = st₁.short;
          covers = record { covered = st₁.covers.covered };
          here = st₁.here;
          bound = Bound-push id v.0 means.0 room d₁.low d₁.result st₁.bound;
        }) in
        record {
          after = d₂.after;
          steps = d₁.steps then d₂.steps;
          there = d₂.there;
          same_heap = d₂.same_heap ∙ d₁.same_heap;
          same_room = d₂.same_room ∙ d₁.same_room;
          kept = λ i low. d₂.kept i (omega (arith, low, x.extends.more_registers)) ∙ d₁.kept i low;
          low = d₂.low;
          result = d₂.result;
        };
  }

  module _ (garbage : ℕ → List CompileBinding) where
    means :
        (value : ℕ) (v : ℕ)
        → (if ltb value (2 ^ 64) then some value else none) ≡ some v
        → (value < 2 ^ 64) × (value ≡ v)
    means value v h = elim (Bool-cases (ltb value (2 ^ 64))) [
      | inl t ↦ (ground (arith, t), some-injective _ _ (rw t at h))
      | inr t ↦ absurd (none_ne (rw t at h))
    ]
      where
        none_ne : {n : ℕ} → none ≡ some n → ⊥
        none_ne q = cc

    pub compile-Works :
        (e : Expression) (c : CompileContext)
        → IsApart e
        → Unused (identifiers e) c
        → Holds (Works m code e c) (compile garbage e c)
    unfolding compile compile_if meaning reserve_u16 patch_u16 write_code_u8
    compile-Works (exp_integer_constant s e value) c a u =
        holds
          (literal-Works m code (exp_integer_constant s e value) value c λ env v h. means value v h)
    compile-Works (exp_true s e) c a u =
        holds
          (literal-Works m code (exp_true s e) 1 c λ env v h. (omega arith, some-injective _ _ h))
    compile-Works (exp_false s e) c a u =
        holds
          (literal-Works m code (exp_false s e) 0 c λ env v h. (omega arith, some-injective _ _ h))
    compile-Works (exp_identifier s e id) c a u = identifier-Works s e id c u.0
    compile-Works (exp_let s e id value body) c a u =
        let uv = All-front _ (identifiers value) (identifiers body) u in
        let ub = All-back _ (identifiers value) (identifiers body) u in
        Holds-any (compile garbage value c) _ λ v v_eq.
          let x = Holds-at (compile-Works value c a.0 uv) v_eq in
          let ub' = Unused-compile garbage value (identifiers body) c a.0 a.2 v_eq ub in
          Holds-any (push_binding v.1 id v.0) _ λ c₁ p.
            let q = push_binding-eq-some v.1 id v.0 p in
            Holds-bind _
              (compile-Works body c₁ a.1 (Unused-pushed (identifiers body) v.1 id v.0 p ub'))
              λ b y. holds (
                let-Works s e id value body c v b q.0 (scoped v.1 id v.0 p y.extends) x
                  (subst (λ (d : CompileContext). Works m code body d b) (sym q.1) y))
    compile-Works (exp_binary s e operator left right) c a u =
        let ul = All-front _ (identifiers left) (identifiers right) u in
        let ur = All-back _ (identifiers left) (identifiers right) u in
        Holds-any (compile garbage left c) _ λ l l_eq.
          let x = Holds-at (compile-Works left c a.0 ul) l_eq in
          let ur' = Unused-compile garbage left (identifiers right) c a.0 a.2 l_eq ur in
          Holds-bind _ (compile-Works right l.1 a.1 ur') λ r y.
            Holds-any (find_operation r.1 _ _) _
              λ o found. holds (binary-Works m code s e operator left right c l r o x y found)
    compile-Works (exp_unary s e operator arg) c a u = Holds-bind _ (compile-Works arg c a u) λ r x.
        Holds-any (find_operation r.1 _ _) _
          λ o found. holds (unary-Works m code s e operator arg c r o x found)
    compile-Works (exp_if s e test then_arm else_arm) c a u =
        let it = identifiers test in
        let ia = identifiers then_arm in
        let ie = identifiers else_arm in
        let arms = All-back _ it (ia ++ ie) u in
        Holds-any (compile garbage test c) _ λ t t_eq.
          let x = Holds-at (compile-Works test c a.0 (All-front _ it (ia ++ ie) u)) t_eq in
          let arms' = Unused-compile garbage test (ia ++ ie) c a.0 a.4 t_eq arms in
          let c_arm = reserve_u16 (write_code_u8 (write_opcode t.1 op_jz) t.0) in
          let ua = Unused-same ia t.1 c_arm (refl, refl) (All-front _ ia ie arms') in
          let ue = Unused-same ie t.1 c_arm (refl, refl) (All-back _ ia ie arms') in
          Holds-any (compile garbage then_arm c_arm) _ λ taken taken_eq.
            let y = Holds-at (compile-Works then_arm c_arm a.1 ua) taken_eq in
            let ue' = Unused-compile garbage then_arm ie c_arm a.1 a.5 taken_eq ue in
            let c_else = otherwise t taken taken in
            let ue'' = Unused-same ie taken.1 c_else (refl, refl) ue' in
            Holds-bind _ (compile-Works else_arm c_else a.2 ue'') λ other z.
              holds (if-Works m code s e test then_arm else_arm c t taken other x y z a.3)
    compile-Works (exp_lambda _ _ _ _) c a u = absurd a
    compile-Works _ c a u = absurd a
