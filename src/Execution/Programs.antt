-- ===== src/Execution/Programs.antt =====
-- `CompileExpression` of compiler.c and `EvaluateCode` of runtime.c, one behind the other.
use millie.Prelude.{
  ℕ, suc, ◌+◌, ◌^◌, ◌≤◌, ◌<◌, ◌≡◌, ◌≢◌, refl, ltb, ◌==◌, true, List, [], ◌∷◌, ◌++◌, none, some,
  length, get_elem?, set, replicate, arith, ap, sym, subst, ◌∙◌, >>=-eq-some, Bool-cases, inl, inr,
  All, All-get_elem?, length-append, length-set, length-replicate, get_elem?-set_read, Holds-at,
}
use mathlib.Core.Option.{some-injective}
use millie.Errors.{Errors}
use millie.Token.{MillieToken}
use millie.Ast.{Symbol, Expression}
use millie.Bytecode.{CompiledExpression, Module, read_u8}
use millie.Bytecode.Codec.{get_elem?-append, get_elem?-front}
use millie.Compiler.Context.{
  CompileBinding, CompileContext, add_function, init_compile_context, write_code_u8, finish_compile,
  store_function,
}
use millie.Compiler.Expressions.{compile, compile_expression}
use millie.Runtime.{Word, num, Heap, write_register}
use millie.Runtime.Step.{Frame, Evaluates, halt, step_op, step, enter, evaluate_code}
use millie.Execution.Meaning.{meaning, identifiers, IsApart}
use millie.Execution.Steps.{count, run-Steps}
use millie.Execution.Simulation.{Unused}
use millie.Execution.Correct.{compile-Works}

-- What `malloc` left in a block of bindings does not name an identifier of the program.
abbrev pub IsApartFrom : List CompileBinding → List Symbol → Type 0
IsApartFrom garbage ids = All (λ id. All (λ (b : CompileBinding). b.symbol ≢ id) garbage) ids

init_compile_context-Unused :
    (garbage : List CompileBinding) (ids : List Symbol) (m : Module) (tokens : List MillieToken)
    (errors : Errors)
    → IsApartFrom garbage ids
    → Unused ids (init_compile_context garbage m tokens errors)
init_compile_context-Unused garbage [] m tokens errors h = tt
init_compile_context-Unused garbage (id ∷ ids) m tokens errors h = (
  record {
    stale = λ i b l e. All-get_elem? (λ (x : CompileBinding). x.symbol ≢ id) garbage i h.0 e;
  },
  init_compile_context-Unused garbage ids m tokens errors h.1,
)

store_function-read :
    (m : Module) (capacity id : ℕ) (fn fn' : CompiledExpression) (m' : Module)
    → store_function m capacity id fn ≡ some m'
    → get_elem? m'.functions id ≡ some fn'
    → fn ≡ fn'
unfolding store_function
store_function-read m capacity id fn fn' m' h e =
    elim (Bool-cases (m.function_capacity == capacity)) [
      | inl t ↦
          let same : record m { functions = set m.functions id fn } ≡ m' =
            some-injective _ _ (rw t at h) in
          get_elem?-set_read m.functions id fn
            (subst (λ (x : Module). get_elem? x.functions id ≡ some fn') (sym same) e)
      | inr t ↦ absurd (none_ne (rw t at h))
    ]
  where
    none_ne : none ≡ some m' → ⊥
    none_ne q = cc

-- The frame in which a function begins.
entered :
    (fn : CompiledExpression) (closure arg0 : Word) (heap : Heap)
    → 2 ≤ fn.register_count
    → (f : Frame) × (enter fn closure arg0 heap ≡ some f)
      × (f.ip ≡ 0)
      × (f.heap ≡ heap)
      × (length f.registers ≡ fn.register_count)
unfolding enter write_register
entered fn closure arg0 heap two =
    let zeros = replicate fn.register_count (num 0) in
    let n = length-replicate fn.register_count (num 0) in
    let n' = length-set zeros 0 closure in
    let first : ltb 0 (length zeros) ≡ true = ground (arith, two, n) in
    let second : ltb 1 (length (set zeros 0 closure)) ≡ true = ground (arith, two, n, n') in
    (
      record { registers = set (set zeros 0 closure) 1 arg0; ip = 0; heap = heap },
      rw (first, second) refl,
      refl,
      refl,
      length-set (set zeros 0 closure) 1 arg0 ∙ n' ∙ n,
    )

-- The code of a finished function ends in the instruction that halts.
ret-step :
    (evaluate : Evaluates) (m : Module) (c : CompileContext) (r id : ℕ) (f : Frame)
    → f.ip ≡ length c.code
    → step evaluate m (finish_compile c r id).code f ≡ some (halt f)
unfolding finish_compile write_code_u8 step step_op read_u8
ret-step evaluate m c r id f here =
    let at : f.ip ≡ length c.code + 0 = omega (arith, here) in
    let op : get_elem? (c.code ++ (0 ∷ [])) f.ip ≡ some 0 =
      ap (get_elem? (c.code ++ (0 ∷ []))) at ∙ get_elem?-append c.code (0 ∷ []) 0 in
    rw op refl

-- A compiled expression, run as a function, gives its value.
evaluates :
    (garbage : ℕ → List CompileBinding) (e : Expression) (c : CompileContext)
    (r : ℕ × CompileContext) (id value : ℕ) (m : Module) (closure arg0 : Word) (heap : Heap)
    → c.code ≡ []
    → c.integer_registers ≡ 0
    → c.max_registers ≡ 0
    → IsApart e
    → Unused (identifiers e) c
    → meaning e (λ _. none) ≡ some value
    → compile garbage e c ≡ some r
    → get_elem? m.functions id ≡ some (finish_compile r.1 r.0 id)
    → 2 ≤ r.1.max_registers
    → r.1.max_registers ≤ 2 ^ 8
    → length r.1.code < 2 ^ 15
    → (fuel : ℕ) × (evaluate_code fuel m id closure arg0 heap ≡ some (num value, heap))
unfolding evaluate_code finish_compile write_code_u8
evaluates garbage e c r id value m closure arg0 heap no_code none_taken no_registers a u means
      compiled found two few short =
    let fn = finish_compile r.1 r.0 id in
    let start = entered fn closure arg0 heap two in
    let f = start.0 in
    let w = Holds-at (compile-Works m fn.code garbage e c a u) compiled in
    let d =
      w.runs (λ _. none) f value means
        (record {
          counted = omega (arith, none_taken, no_registers);
          few = few;
          room = omega (arith, start.4);
          short = short;
          covers = record { covered = λ i l h. get_elem?-front r.1.code (0 ∷ []) i h };
          here = omega (arith, start.2, ap length no_code);
          bound = record { binds = λ name v h. absurd (none_ne h) };
        }) in
    let k = suc (count d.steps) in
    let evaluate = evaluate_code k m in
    let ends =
      run-Steps evaluate d.steps k (omega arith) (ret-step evaluate m r.1 r.0 id d.after d.there) in
    (suc k, rw (found, start.1, ends, d.result, d.same_heap, start.3) refl)
  where
    none_ne : {n : ℕ} → none ≡ some n → ⊥
    none_ne q = cc

-- A program without functions and tuples, compiled and run, gives its value and leaves the heap as
-- it was. The conditions: no name is used behind a scope that bound it, no `if` has a name for its
-- first arm, the fresh block of bindings does not name an identifier of the program by chance, the
-- program has a value, compiling it accesses nothing outside of a block, and its code has between
-- 2 and 2 ^ 8 registers and at most 2 ^ 15 bytes.
pub compile_expression-evaluates :
    (garbage : ℕ → List CompileBinding) (e : Expression) (tokens : List MillieToken)
    (errors errors' : Errors) (m m' : Module) (id value : ℕ) (fn : CompiledExpression)
    (closure arg0 : Word) (heap : Heap)
    → IsApart e
    → IsApartFrom (garbage (length m.functions)) (identifiers e)
    → meaning e (λ _. none) ≡ some value
    → compile_expression garbage e tokens errors m ≡ some (id, m', errors')
    → get_elem? m'.functions id ≡ some fn
    → 2 ≤ fn.register_count
    → fn.register_count ≤ 2 ^ 8
    → length fn.code ≤ 2 ^ 15
    → (fuel : ℕ) × (evaluate_code fuel m' id closure arg0 heap ≡ some (num value, heap))
unfolding compile_expression add_function finish_compile write_code_u8
compile_expression-evaluates garbage e tokens errors errors' m m' id value fn closure arg0 heap a
      apart means compiled found two few short =
    let added = add_function m in
    let c = init_compile_context (garbage added.0) added.1 tokens errors in
    let r = >>=-eq-some (compile garbage e c) _ compiled in
    let s =
      >>=-eq-some
        (store_function r.0.1.module_ added.1.function_capacity added.0
          (finish_compile r.0.1 r.0.0 added.0))
        _ r.2 in
    let done = finish_compile r.0.1 r.0.0 added.0 in
    let all = some-injective _ _ s.2 in
    let id_is : added.0 ≡ id = ap (λ (p : ℕ × Module × Errors). p.0) all in
    let m_is : s.0 ≡ m' = ap (λ (p : ℕ × Module × Errors). p.1) all in
    let there : get_elem? m'.functions added.0 ≡ some fn =
      ap (get_elem? m'.functions) id_is ∙ found in
    let fn_is : done ≡ fn =
      store_function-read r.0.1.module_ added.1.function_capacity added.0 done fn m'
        (s.1 ∙ ap some m_is) there in
    let size = length-append r.0.1.code (0 ∷ []) in
    let result =
      evaluates garbage e c r.0 added.0 value m' closure arg0 heap refl refl refl a
        (init_compile_context-Unused (garbage added.0) (identifiers e) added.1 tokens errors apart)
        means r.1 (there ∙ ap some (sym fn_is))
        (subst (λ (x : CompiledExpression). 2 ≤ x.register_count) (sym fn_is) two)
        (subst (λ (x : CompiledExpression). x.register_count ≤ 2 ^ 8) (sym fn_is) few)
        (omega (
          arith,
          size,
          subst (λ (x : CompiledExpression). length x.code ≤ 2 ^ 15) (sym fn_is) short,
        )) in
    subst (λ n. (fuel : ℕ) × (evaluate_code fuel m' n closure arg0 heap ≡ some (num value, heap)))
      id_is result
