-- ===== src/Execution/Scopes.antt =====
-- compiler.c: what compiling leaves in the entries that are not in force.
use millie.Prelude.{
  ℕ, zero, suc, ◌-◌, ◌≤◌, ◌<◌, ◌≡◌, refl, ltb, ◌==◌, if◌then◌else◌, List, [], ◌∷◌, ◌++◌, Option,
  none, some, get_elem?, length, arith, ap, sym, subst, ◌∙◌, ◌>>=◌, Bool-cases, inl, inr, All,
  All-front, All-back, Holds, holds, at_fault, Holds-bind, Holds-any, Holds-elim, Holds-if,
  Holds-map, Holds-both, set, ==_iff,
}
use Prim.Native.String.{String}
use millie.Compiler.Stability.{write_immediate-writes, write_operator-writes}
use millie.Ast.{
  Symbol, Expression, exp_lambda, exp_identifier, exp_let, exp_integer_constant, exp_true,
  exp_false, exp_if, exp_binary, exp_unary,
}
use millie.Bytecode.{op_mov}
use millie.Compiler.Context.{
  CompileBinding, CompileContext, write_code_u8, write_code_u16, reserve_u16, patch_u16,
  get_free_int_register, push_binding, pop_binding, symbol_room,
}
use millie.Compiler.Emit.{
  find_binding, find_closure, closure_offset, write_closure_load, compile_identifier_impl,
  write_immediate, write_load_literal,
}
use millie.Compiler.Expressions.{
  write_two, write_operator, write_binary, write_unary, compile_if, compile, Operation,
  find_operation,
}
use millie.Compiler.Growth.{pushed, push_binding-eq-some, Extends}
use millie.Compiler.Stale.{get_elem?-set_same}
use mathlib.Core.Option.{some-injective}
use millie.Compiler.Invariant.{compile-Keeps}
use millie.Execution.Meaning.{binders, IsApart}
use millie.Execution.Bindings.{Stale}

-- The bindings are untouched.
abbrev pub SameBindings : CompileContext → CompileContext → Type 0
SameBindings c c' = (c'.bindings ≡ c.bindings) × (c'.binding_top ≡ c.binding_top)

write_immediate-SameBindings : (c : CompileContext) (v : ℕ) → SameBindings c (write_immediate c v)
write_immediate-SameBindings c v =
    write_immediate-writes (SameBindings c) c v λ code capacity. (refl, refl)

write_load_literal-SameBindings :
    (c : CompileContext) (v : ℕ) → SameBindings c (write_load_literal c v).1
unfolding write_load_literal write_code_u8 get_free_int_register
write_load_literal-SameBindings c v = write_immediate-SameBindings (get_free_int_register c).1 v

write_operator-SameBindings :
    (c : CompileContext) (error : String) (o : Operation)
    → SameBindings c (write_operator c error o)
write_operator-SameBindings c error o =
    write_operator-writes (SameBindings c) c error o λ code capacity errors. (refl, refl)

write_binary-SameBindings :
    (o : Operation) (l r : ℕ) (c : CompileContext) → SameBindings c (write_binary o l r c).1
unfolding write_binary write_code_u8 get_free_int_register
write_binary-SameBindings o l r c =
    write_operator-SameBindings (get_free_int_register c).1 "Unsupported binary operator" o

write_unary-SameBindings :
    (o : Operation) (a : ℕ) (c : CompileContext) → SameBindings c (write_unary o a c).1
unfolding write_unary write_code_u8 get_free_int_register
write_unary-SameBindings o a c =
    write_operator-SameBindings (get_free_int_register c).1 "Unsupported unary operator" o

closure_offset-SameBindings :
    (c : CompileContext) (id : Symbol) → Holds (λ r. SameBindings c r.1) (closure_offset c id)
unfolding closure_offset
closure_offset-SameBindings c id =
    Holds-elim (find_closure c.closure_symbols id) (λ offset _. holds (refl, refl))
      λ _.
        Holds-if (ltb (length c.closure_symbols) symbol_room) (λ _. holds (refl, refl))
          (λ _. at_fault)

identifier-SameBindings :
    (c : CompileContext) (id : Symbol)
    → Holds (λ r. SameBindings c r.1) (compile_identifier_impl c id)
unfolding compile_identifier_impl write_closure_load write_code_u8 write_code_u16
    get_free_int_register
identifier-SameBindings c id =
    Holds-any (find_binding c.bindings c.binding_top id) _ λ found _. go found
  where
    go :
        (found : Option ℕ)
        → Holds
            (λ r. SameBindings c r.1)
            (elim found [
              | some reg ↦ some (reg, c)
              | none ↦ closure_offset c id >>= λ r. some (write_closure_load r.1 r.0)
            ])
    go (some reg) = holds (refl, refl)
    go none = Holds-bind _ (closure_offset-SameBindings c id) λ r x. holds x

move-SameBindings :
    (a b : ℕ) (c : CompileContext) → SameBindings c (if a == b then c else write_two c op_mov a b)
unfolding write_two write_code_u8
move-SameBindings a b c = elim (Bool-cases (a == b)) [
  | inl e ↦ rw e (refl, refl)
  | inr e ↦ rw e (refl, refl)
]

pub get_elem?-set_above {ℓ} :
    {A : Type ℓ} (xs : List A) (i j : ℕ) (v : A) → j < i → get_elem? (set xs j v) i ≡ get_elem? xs i
get_elem?-set_above [] i j v h = refl
get_elem?-set_above (x ∷ xs) zero j v h = absurd (omega arith)
get_elem?-set_above (x ∷ xs) (suc i) zero v h = refl
get_elem?-set_above (x ∷ xs) (suc i) (suc j) v h = get_elem?-set_above xs i j v (omega (arith, h))

module _ (P : Symbol → Type 0) where
  pub Stale-same : {c c' : CompileContext} → SameBindings c c' → Stale P c → Stale P c'
  Stale-same {c} {c'} s st = record {
    stale =
        λ i b h e. st.stale i b (omega (arith, h, s.1)) (ap (λ bs. get_elem? bs i) (sym s.0) ∙ e);
  }

  pub Stale-pushed :
      (c : CompileContext) (id reg : ℕ) {c₁ : CompileContext}
      → push_binding c id reg ≡ some c₁
      → Stale P c
      → Stale P c₁
  Stale-pushed c id reg h st = subst (Stale P) (push_binding-eq-some c id reg h).1 (record {
    stale = λ i b l e. st.stale i b (omega (arith, l)) (
        sym (
          get_elem?-set_above c.bindings i c.binding_top (record { symbol = id; reg = reg })
            (omega (arith, l)))
        ∙ e);
  })

  Stale-pop :
      (c : CompileContext) (id reg : ℕ) {c₁ c₂ : CompileContext}
      → P id
      → push_binding c id reg ≡ some c₁
      → Extends c₁ c₂
      → Stale P c₂
      → Stale P (pop_binding c₂)
  unfolding pop_binding
  Stale-pop c id reg {c₁} {c₂} p h x st = record { stale = gone }
    where
      q : (c.binding_top < length c.bindings) × (pushed c id reg ≡ c₁)
      q = push_binding-eq-some c id reg h

      y : Extends (pushed c id reg) c₂
      y = subst (λ (d : CompileContext). Extends d c₂) (sym q.1) x

      gone :
          (i : ℕ) (b : CompileBinding)
          → c₂.binding_top - 1 ≤ i
          → get_elem? c₂.bindings i ≡ some b
          → P b.symbol
      gone i b l e = elim (Bool-cases (i == c.binding_top)) [
        | inl t ↦
            let top : i ≡ c.binding_top = (==_iff i c.binding_top).0 t in
            let entry =
              y.same_bindings c.binding_top (omega arith)
              ∙ get_elem?-set_same c.bindings c.binding_top (record { symbol = id; reg = reg })
                  q.0 in
            let is : record { symbol = id; reg = reg } ≡ b =
              some-injective _ _
                (sym entry ∙ subst (λ n. get_elem? c₂.bindings n ≡ some b) top e) in
            subst (λ (z : CompileBinding). P z.symbol) is p
        | inr t ↦ st.stale i b (ground (arith, l, t, y.same_top)) e
      ]

  module _ (garbage : ℕ → List CompileBinding) where
    pub compile-Stale :
        (e : Expression) (c : CompileContext)
        → IsApart e
        → All P (binders e)
        → Stale P c
        → Holds (λ r. Stale P r.1) (compile garbage e c)
    unfolding compile compile_if write_two write_code_u8 reserve_u16 patch_u16
    compile-Stale (exp_integer_constant _ _ value) c a h st =
        holds (Stale-same (write_load_literal-SameBindings c value) st)
    compile-Stale (exp_true _ _) c a h st =
        holds (Stale-same (write_load_literal-SameBindings c 1) st)
    compile-Stale (exp_false _ _) c a h st =
        holds (Stale-same (write_load_literal-SameBindings c 0) st)
    compile-Stale (exp_identifier _ _ id) c a h st =
        Holds-map (λ r s. Stale-same s st) (identifier-SameBindings c id)
    compile-Stale (exp_let _ _ id value body) c a h st =
        let hv = All-front P (binders value) (binders body) h.1 in
        let hb = All-back P (binders value) (binders body) h.1 in
        Holds-bind _ (compile-Stale value c a.0 hv st) λ v sv.
          Holds-any (push_binding v.1 id v.0) _ λ c₁ e.
            Holds-bind _
              (Holds-both (compile-Keeps garbage body c₁)
                (compile-Stale body c₁ a.1 hb (Stale-pushed v.1 id v.0 e sv)))
              λ b s. holds (Stale-pop v.1 id v.0 h.0 e s.0 s.1)
    compile-Stale (exp_binary s e operator left right) c a h st =
        Holds-bind _ (compile-Stale left c a.0 (All-front P (binders left) (binders right) h) st)
          λ l sl.
            Holds-bind _
              (compile-Stale right l.1 a.1 (All-back P (binders left) (binders right) h) sl)
              λ r sr.
                Holds-any (find_operation r.1 _ _) _
                  λ o _. holds (Stale-same (write_binary-SameBindings o l.0 r.0 r.1) sr)
    compile-Stale (exp_unary s e operator arg) c a h st =
        Holds-bind _ (compile-Stale arg c a h st) λ r sr.
          Holds-any (find_operation r.1 _ _) _
            λ o _. holds (Stale-same (write_unary-SameBindings o r.0 r.1) sr)
    compile-Stale (exp_if _ _ test then_arm else_arm) c a h st =
        let bt = binders test in
        let ba = binders then_arm in
        let be = binders else_arm in
        let arms = All-back P bt (ba ++ be) h in
        Holds-bind _ (compile-Stale test c a.0 (All-front P bt (ba ++ be) h) st) λ t s₁.
          Holds-bind _
            (compile-Stale then_arm _ a.1 (All-front P ba be arms) (Stale-same (refl, refl) s₁))
            λ taken s₂.
              Holds-bind _
                (compile-Stale else_arm _ a.2 (All-back P ba be arms) (Stale-same (refl, refl) s₂))
                λ other s₃. holds (Stale-same (move-SameBindings other.0 taken.0 other.1) s₃)
    compile-Stale (exp_lambda _ _ _ _) c a h st = absurd a
    compile-Stale _ c a h st = absurd a
