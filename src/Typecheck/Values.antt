-- ===== src/Typecheck/Values.antt =====
-- The type checker and the meaning of programs: what typecheck.c accepts has a value, which is what
-- compiled code computes (Execution/Programs).
use millie.Prelude.{
  ℕ, suc, ◌-◌, ◌%◌, ◌^◌, ◌≡◌, ◌≢◌, inl, inr, refl, sym, ◌∙◌, true, List, [], ◌∷◌, ◌++◌, none, some,
  ltb, ◌==◌, if◌then◌else◌, arith, Bool-cases,
}
use millie.Errors.{Errors}
use millie.Token.{TokenType, tok_plus, tok_minus, tok_star, tok_slash, tok_equals, MillieToken}
use millie.Ast.{Symbol, Expression, exp_let, exp_integer_constant, exp_if, exp_binary, exp_unary}
use millie.Types.{Address, TypeExp, World, Outcome, done}
use millie.Typecheck.{get_expression_type}
use millie.Typecheck.Simple.{
  Simple, Scope, type_of, is_arithmetic, is_equality, IsMonomorphic, HasType, has_integer, has_true,
  has_false, has_identifier, has_unary, has_arithmetic, has_equality, has_if, has_let,
}
use millie.Typecheck.Monomorphic.{get_expression_type-HasType}
use millie.Typecheck.Reported.{world, HasTokens}
use millie.Execution.Meaning.{Env, extend, operate, meaning}

-- What the type checker lets pass and the compiler does not: division, the unary `+`, and literals
-- that do not fit into a word.
abbrev pub IsRunnable : Expression → Type 0
IsRunnable (exp_integer_constant _ _ value) = ltb value (2 ^ 64) ≡ true
IsRunnable (exp_unary _ _ operator arg) = (operator ≡ tok_minus) × IsRunnable arg
IsRunnable (exp_binary _ _ operator left right) =
    (operator ≢ tok_slash) × IsRunnable left × IsRunnable right
IsRunnable (exp_if _ _ test then_arm else_arm) =
    IsRunnable test × IsRunnable then_arm × IsRunnable else_arm
IsRunnable (exp_let _ _ id value body) = IsRunnable value × IsRunnable body
IsRunnable _ = Unit

-- Every name of the scope has a value.
abbrev pub Agrees : Scope → Env → Type 0
Agrees scope env =
    (id : Symbol) (t : Simple) → type_of scope id ≡ some t → (v : ℕ) × (env id ≡ some v)

extend-Agrees :
    (scope : Scope) (env : Env) (id : Symbol) (t : Simple) (value : ℕ)
    → Agrees scope env
    → Agrees ((id, t) ∷ scope) (extend env id value)
extend-Agrees scope env id t value agrees name u found = elim (Bool-cases (id == name)) [
  | inl same ↦ (value, ground (arith, same))
  | inr other ↦
      let old = agrees name u (ground (arith, other, found)) in
      (old.0, ground (arith, other, old.1))
]

arithmetic-value :
    (operator : TokenType) (a b : ℕ)
    → is_arithmetic operator ≡ true
    → operator ≢ tok_slash
    → (v : ℕ) × (operate operator a b ≡ some v)
arithmetic-value tok_plus a b h slash = (_, refl)
arithmetic-value tok_minus a b h slash = (_, refl)
arithmetic-value tok_star a b h slash = (_, refl)
arithmetic-value tok_slash a b h slash = absurd (slash refl)
arithmetic-value _ a b h slash = cc

equality-value :
    (operator : TokenType) (a b : ℕ)
    → is_equality operator ≡ true
    → operate operator a b ≡ some (if a == b then 1 else 0)
equality-value tok_equals a b h = refl
equality-value _ a b h = cc

-- What has a type has a value.
HasType-value :
    {scope : Scope} {e : Expression} {t : Simple} (env : Env)
    → HasType scope e t
    → IsRunnable e
    → Agrees scope env
    → (v : ℕ) × (meaning e env ≡ some v)
unfolding meaning
HasType-value env (has_integer _ _ value) runs agrees = (value, rw runs refl)
HasType-value env (has_true _ _) runs agrees = (1, refl)
HasType-value env (has_false _ _) runs agrees = (0, refl)
HasType-value env (has_identifier _ _ id t found) runs agrees = agrees id t found
HasType-value env (has_unary _ _ operator arg t h) runs agrees =
    let v = HasType-value env h runs.1 agrees in ((2 ^ 64 - v.0) % 2 ^ 64, rw (v.1, runs.0) refl)
HasType-value env (has_arithmetic _ _ operator left right a hl hr) runs agrees =
    let l = HasType-value env hl runs.1 agrees in
    let r = HasType-value env hr runs.2 agrees in
    let v = arithmetic-value operator l.0 r.0 a runs.0 in (v.0, rw (l.1, r.1) v.1)
HasType-value env (has_equality _ _ operator left right t q hl hr) runs agrees =
    let l = HasType-value env hl runs.1 agrees in
    let r = HasType-value env hr runs.2 agrees in
    (if l.0 == r.0 then 1 else 0, rw (l.1, r.1) (equality-value operator l.0 r.0 q))
HasType-value env (has_if _ _ test then_arm else_arm t hc ht he) runs agrees =
    let c = HasType-value env hc runs.0 agrees in
    let th = HasType-value env ht runs.1 agrees in
    let el = HasType-value env he runs.2 agrees in
    (if c.0 == 0 then el.0 else th.0, rw (c.1, th.1, el.1) (ground arith))
HasType-value {scope} env (has_let _ _ id value body t u hv hb) runs agrees =
    let v = HasType-value env hv runs.0 agrees in
    let b = HasType-value (extend env id v.0) hb runs.1 (extend-Agrees scope env id t v.0 agrees) in
    (b.0, rw v.1 b.1)

-- An expression without functions and tuples that the type checker accepts, which is to say that
-- it ends without a report, has a value: so compiled code that computes its meaning has one to
-- compute. The conditions: its operators are in the table, it has no division, no unary operator
-- but `-` and no literal that does not fit into a word, and its tokens are in the array.
pub accepted-meaning :
    (n : ℕ) (tokens : List MillieToken) (e : Expression) (more : List TypeExp) (errors : Errors)
    (type : Address)
    → IsMonomorphic e
    → HasTokens tokens e
    → IsRunnable e
    → get_expression_type (suc (suc (suc n))) tokens e (world more errors)
      ≡ done (type, world more errors)
    → (value : ℕ) × (meaning e (λ _. none) ≡ some value)
accepted-meaning n tokens e more errors type m h runs accepted =
    let r = get_expression_type-HasType n tokens e more errors m h in
    let same = sym r.2 ∙ accepted in
    let none_new : r.1 ≡ [] = append-eq-nil errors r.1 (errors_of same) in
    HasType-value (λ _. none) (r.3.0 none_new) runs (λ id t found. cc)
  where
    errors_of :
        {a b : Address} {xs ys : Errors}
        → ◌≡◌ {A = Outcome (Address × World)} (done (a, world more xs)) (done (b, world more ys))
        → xs ≡ ys
    errors_of same = cc

    append-eq-nil : (xs ys : Errors) → xs ++ ys ≡ xs → ys ≡ []
    append-eq-nil [] ys q = q
    append-eq-nil (x ∷ xs) ys q = append-eq-nil xs ys (cc)
