-- ===== src/Typecheck/Static.antt =====
-- typecheck.c on types that are nodes of their own, `int`, `bool` and the error type: lookup, copies,
-- unification and reports need no variables then and allocate no node.
use mathlib.Core.Option
use millie.Prelude.{
  ℕ, suc, ◌+◌, ◌≡◌, refl, sym, ap, ◌∙◌, true, ◌||◌, List, [], ◌∷◌, ◌++◌, some, if◌then◌else◌, arith,
  length-append, append-nil, append_assoc,
}
use millie.Errors.{Errors}
use millie.Token.{TokenType, MillieToken}
use millie.Ast.{Symbol, Expression, start_token, end_token}
use millie.Types.{TypeExp, World, Check, and_then, pure, Outcome, done}
use millie.Types.Copy.{make_fresh_type_exp, make_generic_type_exp}
use millie.Unify.{
  UnificationError, unify, report_type_error, UnifyContext, report_unification_failure,
}
use millie.Typecheck.{
  NonGenericTypeList, lookup_type, find_operator, operators, arithmetic, equality,
}
use millie.Typecheck.Simple.{
  Simple, int_type, bool_type, ill_typed, Scope, type_of, clash, is_arithmetic, is_equality,
}
use millie.Typecheck.Reported.{
  address, addresses, world, InRange, Reports, report_one, failure_static,
}

-- A step that reports nothing.
pub silent :
    {A : Type 0} {more : List TypeExp} {errors : Errors} {a : A} {outcome : Outcome (A × World)}
    → outcome ≡ done (a, world more errors)
    → Reports more errors a 0 outcome
silent {A} {more} {errors} {a} e = record {
  new = [];
  result = e ∙ ap (λ es. done (a, world more es)) (sym (append-nil errors));
  size = refl;
}

abbrev pub context_of : Expression → UnificationError → Simple → Simple → UnifyContext
context_of node code a b = record {
  expression = node;
  error_code = code;
  original_one = address a;
  original_two = address b;
}

module _ (tokens : List MillieToken) (more : List TypeExp) (errors : Errors) (node : Expression)
    (range : InRange tokens (start_token node) (end_token node)) where
  -- Two static types that clash.
  pub report_clash :
      (n : ℕ) (code : UnificationError) (a b : Simple)
      → Reports more errors tt 1 (
          report_unification_failure
            (suc (suc n))
            tokens
            (context_of node code a b)
            (world more errors))
  unfolding report_unification_failure
  report_clash n code a b =
      let message = failure_static more errors n code a b in
      let report = report_one tokens more errors node message.0 range in
      record {
        new = report.new;
        result =
            ap (λ o. and_then o (λ m. report_type_error tokens node m)) message.1 ∙ report.result;
        size = report.size;
      }

  -- Unification of two static types.
  pub unify_static :
      (n : ℕ) (code : UnificationError) (a b : Simple)
      → Reports more errors tt
          (clash a b)
          (unify (suc (suc (suc n))) tokens node code (address a) (address b) (world more errors))
  unfolding unify
  unify_static n code int_type int_type = silent refl
  unify_static n code bool_type bool_type = silent refl
  unify_static n code ill_typed int_type = silent refl
  unify_static n code ill_typed bool_type = silent refl
  unify_static n code ill_typed ill_typed = silent refl
  unify_static n code int_type ill_typed = silent refl
  unify_static n code bool_type ill_typed = silent refl
  unify_static n code int_type bool_type =
      let r = report_clash n code int_type bool_type in
      record {
        new = r.new;
        result =
            ap
              (λ o.
                and_then (and_then o (λ _. pure (context_of node code int_type bool_type)))
                  (λ _. pure tt))
              r.result;
        size = r.size;
      }
  unify_static n code bool_type int_type =
      let r = report_clash n code bool_type int_type in
      record {
        new = r.new;
        result =
            ap
              (λ o.
                and_then (and_then o (λ _. pure (context_of node code bool_type int_type)))
                  (λ _. pure tt))
              r.result;
        size = r.size;
      }

-- One step behind another.
pub Reports-bind :
    {A B : Type 0} {more : List TypeExp} {errors : Errors} {a : A} {b : B} {i j : ℕ}
    {outcome : Outcome (A × World)} (f : A → Check B)
    → Reports more errors a i outcome
    → ((new : Errors) → Reports more (errors ++ new) b j (f a (world more (errors ++ new))))
    → Reports more errors b (i + j) (and_then outcome f)
Reports-bind {A} {B} {more} {errors} {a} {b} {i} {j} {outcome} f r k =
    let next = k r.new in
    record {
      new = r.new ++ next.new;
      result =
          ap (λ o. and_then o f) r.result
          ∙ next.result
          ∙ ap (λ es. done (b, world more es)) (append_assoc errors r.new next.new);
      size = omega (arith, length-append r.new next.new, r.size, next.size);
    }

-- Copies of static types are these themselves.
pub fresh_static :
    (n : ℕ) (t : Simple) (more : List TypeExp) (errors : Errors)
    → make_fresh_type_exp (suc (suc n)) (address t) (world more errors)
      ≡ done (address t, world more errors)
unfolding make_fresh_type_exp
fresh_static n int_type more errors = refl
fresh_static n bool_type more errors = refl
fresh_static n ill_typed more errors = refl

pub generic_static :
    (n : ℕ) (t : Simple) (ng : NonGenericTypeList) (more : List TypeExp) (errors : Errors)
    → make_generic_type_exp (suc (suc n)) (address t) ng (world more errors)
      ≡ done (address t, world more errors)
unfolding make_generic_type_exp
generic_static n int_type ng more errors = refl
generic_static n bool_type ng more errors = refl
generic_static n ill_typed ng more errors = refl

pub counted :
    {A : Type 0} {more : List TypeExp} {errors : Errors} {a : A} {i j : ℕ}
    {outcome : Outcome (A × World)}
    → i ≡ j
    → Reports more errors a i outcome
    → Reports more errors a j outcome
counted e r = record { new = r.new; result = r.result; size = r.size ∙ e }

-- An identifier, which is looked up from the innermost scope on.
pub lookup_static :
    (n : ℕ) (scope : Scope) (id : Symbol) (more : List TypeExp) (errors : Errors)
    → lookup_type (suc (suc n)) (addresses scope) id (world more errors)
      ≡ done (Option.map address (type_of scope id), world more errors)
unfolding lookup_type
lookup_static n [] id more errors = refl
lookup_static n ((entry, t) ∷ scope) id more errors =
    ground (arith, fresh_static n t more errors, lookup_static n scope id more errors)

pub moved :
    {A : Type 0} {more : List TypeExp} {errors : Errors} {a : A} {i : ℕ}
    {outcome outcome' : Outcome (A × World)}
    → outcome' ≡ outcome
    → Reports more errors a i outcome
    → Reports more errors a i outcome'
moved e r = record { new = r.new; result = e ∙ r.result; size = r.size }

-- The row of the table for an operator that there is.
pub operator-cases :
    (operator : TokenType)
    → (is_arithmetic operator || is_equality operator) ≡ true
    → (find_operator operators operator
        ≡ some (if is_arithmetic operator then arithmetic operator else equality))
unfolding find_operator
operator-cases operator known = ground arith
