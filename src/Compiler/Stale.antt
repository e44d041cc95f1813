-- ===== src/Compiler/Stale.antt =====
-- compiler.c, `_CompileIdentifierImpl` behind `_PopBinding`: the entry that was given up is found.
use millie.Prelude.{
  ℕ, zero, suc, ◌+◌, ◌-◌, ◌<◌, ◌≡◌, refl, ◌==◌, true, List, [], ◌∷◌, some, get_elem?, set, length,
  arith, subst, ==_iff,
}
use millie.Ast.{Symbol}
use millie.Compiler.Context.{CompileBinding, CompileContext, push_binding, pop_binding}
use millie.Compiler.Emit.{find_binding, compile_identifier_impl}
use millie.Compiler.Growth.{pushed, push_binding-eq-some}

pub get_elem?-set_same {ℓ} :
    {A : Type ℓ} (xs : List A) (i : ℕ) (v : A) → i < length xs → get_elem? (set xs i v) i ≡ some v
get_elem?-set_same [] i v h = absurd (omega arith)
get_elem?-set_same (x ∷ xs) zero v h = refl
get_elem?-set_same (x ∷ xs) (suc i) v h = get_elem?-set_same xs i v (omega (arith, h))

==_refl : (n : ℕ) → (n == n) ≡ true
==_refl n = (==_iff n n).1 refl

pub find_binding-at :
    (bindings : List CompileBinding) (i : ℕ) (id : Symbol) (reg : ℕ)
    → get_elem? bindings i ≡ some (record { symbol = id; reg = reg })
    → find_binding bindings i id ≡ some (some reg)
unfolding find_binding
find_binding-at bindings zero id reg h = rw (h, ==_refl id) refl
find_binding-at bindings (suc i) id reg h = rw (h, ==_refl id) refl

-- Behind a scope, the name that was bound in it is still compiled to the register that it had
-- there, instead of the one that an outer scope or the closure gives it.
pub popped-found :
    (c : CompileContext) (id : Symbol) (reg : ℕ) (c₁ : CompileContext)
    → push_binding c id reg ≡ some c₁
    → compile_identifier_impl (pop_binding c₁) id ≡ some (reg, pop_binding c₁)
unfolding compile_identifier_impl pop_binding
popped-found c id reg c₁ h =
    let p = push_binding-eq-some c id reg h in
    let top = get_elem?-set_same c.bindings c.binding_top (record { symbol = id; reg = reg }) p.0 in
    let same : c.binding_top + 1 - 1 ≡ c.binding_top = omega arith in
    let found =
      find_binding-at (pushed c id reg).bindings (c.binding_top + 1 - 1) id reg (rw same top) in
    subst
      (λ (d : CompileContext).
        compile_identifier_impl (pop_binding d) id ≡ some (reg, pop_binding d))
      p.1 (rw found refl)
