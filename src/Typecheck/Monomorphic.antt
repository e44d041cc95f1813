-- ===== src/Typecheck/Monomorphic.antt =====
-- typecheck.c on expressions without functions and tuples: the checker's run on them, which needs
-- no variables and allocates no node.
use mathlib.Core.Option
use millie.Prelude.{
  ℕ, suc, ◌+◌, ◌≡◌, ◌↔◌, refl, sym, ap, ◌∙◌, Bool, true, false, ◌||◌, List, [], ◌∷◌, ◌++◌, Option,
  none, some, if◌then◌else◌, arith, length,
}
use millie.Errors.{Errors}
use millie.Token.{TokenType, MillieToken}
use millie.Ast.{
  Symbol, Expression, start_token, end_token, exp_invalid, exp_error, exp_lambda, exp_identifier,
  exp_apply, exp_let, exp_letrec, exp_integer_constant, exp_true, exp_false, exp_if, exp_binary,
  exp_unary, exp_tuple, exp_tuple_final,
}
use millie.Types.{Address, TypeExp, World, pure, Outcome, done, error_type}
use millie.Unify.{
  unify_if_condition_boolean, unify_if_branches_same, unify_no_valid_binary_operator, unify,
}
use millie.Typecheck.{
  NonGenericTypeList, analyze, analyze_identifier, get_expression_type, found_type, use_operator,
  apply_operator, arithmetic, equality,
}
use millie.Typecheck.Simple.{
  Simple, int_type, bool_type, Scope, type_of, clash, judge, judge_name, judge_binary,
  is_arithmetic, is_equality, IsMonomorphic, HasType,
}
use millie.Typecheck.Judged.{HasType-judge, judge-Typed}
use millie.Typecheck.Reported.{
  address, addresses, world, InRange, HasTokens, HasTokens-own, Reports, report_one,
}
use millie.Typecheck.Static.{
  silent, unify_static, Reports-bind, generic_static, counted, lookup_static, moved, operator-cases,
}

module _ (n : ℕ) (tokens : List MillieToken) (more : List TypeExp) where
  found_static :
      (s e : ℕ) (id : Symbol) (o : Option Simple) (errors : Errors)
      → InRange tokens s e
      → Reports more errors
          (address (judge_name o).0)
          (judge_name o).1
          (found_type n tokens (exp_identifier s e id) (Option.map address o) (world more errors))
  unfolding found_type
  found_static s e id (some t) errors range = silent refl
  found_static s e id none errors range =
      Reports-bind (λ _. pure error_type)
        (report_one tokens more errors (exp_identifier s e id) "Unbound identifier" range)
        (λ new. silent refl)

  use_static :
      (b : Bool) (token : TokenType) (node : Expression) (l r : Simple) (errors : Errors)
      → InRange tokens (start_token node) (end_token node)
      → Reports more errors
          (address (judge_binary b (l, 0) (r, 0)).0)
          (judge_binary b (l, 0) (r, 0)).1
          (use_operator
            (suc (suc (suc n)))
            tokens
            node
            (address l)
            (address r)
            (if b then arithmetic token else equality)
            (world more errors))
  unfolding use_operator
  use_static true token node l r errors range = counted (omega arith) (
      Reports-bind _ (clashing errors l int_type) λ e1.
        Reports-bind _ (clashing (errors ++ e1) r int_type)
          λ e2. Reports-bind _ (clashing ((errors ++ e1) ++ e2) l r) λ e3. silent refl)
    where
      clashing :
          (es : Errors) (x y : Simple)
          → Reports more es tt (clash x y) (
              unify
                (suc (suc (suc n)))
                tokens
                node
                unify_no_valid_binary_operator
                (address x)
                (address y)
                (world more es))
      clashing es x y = unify_static tokens more es node range n _ x y
  use_static false token node l r errors range =
      counted (omega arith)
        (Reports-bind _ (unify_static tokens more errors node range n _ l r) λ e1. silent refl)

  -- A binary expression, from the judgements of its operands.
  apply_static :
      (operator : TokenType) (node : Expression) (l r : Simple × ℕ) (errors : Errors)
      → (is_arithmetic operator || is_equality operator) ≡ true
      → InRange tokens (start_token node) (end_token node)
      → Reports more errors
          (address (judge_binary (is_arithmetic operator) l r).0)
          (judge_binary (is_arithmetic operator) (l.0, 0) (r.0, 0)).1
          (apply_operator
            (suc (suc (suc n)))
            tokens
            node
            operator
            (address l.0)
            (address r.0)
            (world more errors))
  unfolding apply_operator
  apply_static operator node l r errors known range =
      moved (rw (operator-cases operator known, apply_operator) refl) (
        same_result (is_arithmetic operator)
          (use_static (is_arithmetic operator) operator node l.0 r.0 errors range))
    where
      same_result :
          (b : Bool) {o : Outcome (Address × World)}
          → Reports more errors
              (address (judge_binary b (l.0, 0) (r.0, 0)).0)
              (judge_binary b (l.0, 0) (r.0, 0)).1
              o
          → Reports more errors
              (address (judge_binary b l r).0)
              (judge_binary b (l.0, 0) (r.0, 0)).1
              o
      same_result true h = h
      same_result false h = h

  judge_binary-sum :
      (b : Bool) (l r : Simple × ℕ)
      → l.1 + (r.1 + (judge_binary b (l.0, 0) (r.0, 0)).1) ≡ (judge_binary b l r).1
  judge_binary-sum true l r = omega arith
  judge_binary-sum false l r = omega arith

  -- The checker gives the type of the rules, and reports as many errors as the rules count.
  pub analyze-judge :
      (scope : Scope) (e : Expression) (non_generics : NonGenericTypeList) (errors : Errors)
      → IsMonomorphic e
      → HasTokens tokens e
      → Reports more errors
          (address (judge scope e).0)
          (judge scope e).1
          (analyze (suc (suc (suc n))) tokens e (addresses scope) non_generics (world more errors))
  unfolding analyze judge analyze_identifier
  analyze-judge scope (exp_integer_constant _ _ _) ng errors m h = silent refl
  analyze-judge scope (exp_true _ _) ng errors m h = silent refl
  analyze-judge scope (exp_false _ _) ng errors m h = silent refl
  analyze-judge scope (exp_unary _ _ operator arg) ng errors m h = counted (omega arith) (
      Reports-bind (λ arg_type. pure arg_type) (analyze-judge scope arg ng errors m h.1)
        λ e1. silent refl)
  analyze-judge scope (exp_identifier s e id) ng errors m h = counted (omega arith) (
      Reports-bind _ (silent (lookup_static (suc n) scope id more errors))
        λ new. found_static s e id (type_of scope id) (errors ++ new) h)
  analyze-judge scope (exp_binary s e operator left right) ng errors m h =
      counted (judge_binary-sum (is_arithmetic operator) (judge scope left) (judge scope right)) (
        Reports-bind _ (analyze-judge scope left ng errors m.1 h.1) λ e1.
          Reports-bind _ (analyze-judge scope right ng (errors ++ e1) m.2 h.2) λ e2.
            apply_static operator (exp_binary s e operator left right) (judge scope left)
              (judge scope right) ((errors ++ e1) ++ e2) m.0 h.0)
  analyze-judge scope (exp_if s e test then_arm else_arm) ng errors m h = counted (omega arith) (
      Reports-bind _ (analyze-judge scope test ng errors m.0 h.1) λ e1.
        Reports-bind _
          (unify_static tokens more (errors ++ e1) test (HasTokens-own tokens test h.1) n
            unify_if_condition_boolean (judge scope test).0 bool_type)
          λ e2.
            Reports-bind _ (analyze-judge scope then_arm ng ((errors ++ e1) ++ e2) m.1 h.2) λ e3.
              Reports-bind _
                (analyze-judge scope else_arm ng (((errors ++ e1) ++ e2) ++ e3) m.2 h.3)
                λ e4.
                  Reports-bind _
                    (unify_static tokens more ((((errors ++ e1) ++ e2) ++ e3) ++ e4)
                      (exp_if s e test then_arm else_arm) h.0 n unify_if_branches_same
                      (judge scope then_arm).0 (judge scope else_arm).0)
                    λ e5. silent refl)
  analyze-judge scope (exp_let s e id value body) ng errors m h = counted (omega arith) (
      Reports-bind _ (analyze-judge scope value ng errors m.0 h.1) λ e1.
        Reports-bind _
          (silent (generic_static (suc n) (judge scope value).0 ng more (errors ++ e1)))
          λ e2.
            analyze-judge ((id, (judge scope value).0) ∷ scope) body ng ((errors ++ e1) ++ e2) m.1
              h.2)
  analyze-judge scope (exp_invalid _ _) ng errors m h = elim m [ ]
  analyze-judge scope (exp_error _ _) ng errors m h = elim m [ ]
  analyze-judge scope (exp_lambda _ _ _ _) ng errors m h = elim m [ ]
  analyze-judge scope (exp_apply _ _ _ _) ng errors m h = elim m [ ]
  analyze-judge scope (exp_letrec _ _ _ _ _) ng errors m h = elim m [ ]
  analyze-judge scope (exp_tuple _ _ _ _ _) ng errors m h = elim m [ ]
  analyze-judge scope (exp_tuple_final _ _ _) ng errors m h = elim m [ ]

length-eq-zero : (xs : Errors) → length xs ≡ 0 → xs ≡ []
length-eq-zero [] z = refl
length-eq-zero (x ∷ xs) z = absurd (omega (arith, z))

-- The type checker decides the typing rules for expressions without functions and tuples, with
-- operators of the table, whose nodes' tokens are in the array, from any errors and with any
-- further nodes. With at least three units of fuel it ends and allocates no node; it gives the
-- address of an `int`, a `bool` or an error type, and it reports no error exactly when the rules
-- give the expression that type.
pub get_expression_type-HasType :
    (n : ℕ) (tokens : List MillieToken) (e : Expression) (more : List TypeExp) (errors : Errors)
    → IsMonomorphic e
    → HasTokens tokens e
    → (t : Simple) × (new : Errors) × (get_expression_type
          (suc (suc (suc n)))
          tokens
          e
          (world more errors)
        ≡ done (address t, world more (errors ++ new)))
      × ((new ≡ []) ↔ HasType [] e t)
unfolding get_expression_type
get_expression_type-HasType n tokens e more errors m h =
    let r = analyze-judge n tokens more [] e [] errors m h in
    (
      (judge [] e).0,
      r.new,
      r.result,
      (
        λ none_new. (judge-Typed [] e m tt (sym r.size ∙ ap length none_new)).0,
        λ typed.
            length-eq-zero r.new (r.size ∙ ap (λ (j : Simple × ℕ). j.1) (HasType-judge [] typed)),
      ),
    )
