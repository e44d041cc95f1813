-- ===== src/Typecheck/Endless.antt =====
-- A definition on which typecheck.c does not end: a `let rec` whose value is the parameter of the
-- function around it. Unification binds the parameter's type to the new variable, which is not
-- generic then, so that `_AnalyzeLetRec` binds the new variable to itself.
use millie.Prelude.{ℕ, zero, suc, ◌≡◌, refl, ap, ◌++◌, List, [], ◌∷◌, some, get_elem?, arith}
use millie.Errors.{Errors}
use millie.Token.{MillieToken}
use millie.Ast.{Expression, exp_lambda, exp_identifier, exp_letrec}
use millie.Types.{
  Address, World, to, null, typeexp_variable, load, stopped, endless, make_type_var,
  make_function_type, Outcome, and_then, pure, static_types,
}
use millie.Types.Walk.{prune}
use millie.Types.Copy.{make_fresh_type_exp, make_generic_type_exp}
use millie.Unify.{unify}
use millie.Typecheck.{get_expression_type, found_type, analyze_identifier}
use millie.Typecheck.Reported.{world}

-- A variable that is bound to itself is pruned without end.
prune_self :
    (n : ℕ) (a : Address) (w : World)
    → get_elem? w.nodes a
      ≡ some (record { type = typeexp_variable; arg_first = to a; arg_second = null })
    → prune n a w ≡ stopped endless
unfolding prune load
prune_self zero a w self = refl
prune_self (suc n) a w self = ground (arith, self, prune_self n a w self)

-- So is its copy.
fresh_self :
    (n : ℕ) (a : Address) (w : World)
    → get_elem? w.nodes a
      ≡ some (record { type = typeexp_variable; arg_first = to a; arg_second = null })
    → make_fresh_type_exp (suc n) a w ≡ stopped endless
unfolding make_fresh_type_exp
fresh_self n a w self = ground (arith, prune_self n a w self)

-- The world once `f` is bound: the variable of `x` and that of `f` are bound to the latter.
abbrev bound : Errors → World
bound errors = record {
  nodes =
      static_types
      ++ record { type = typeexp_variable; arg_first = to 4; arg_second = null }
        ∷ record { type = typeexp_variable; arg_first = to 4; arg_second = null }
        ∷ [];
  errors = errors;
}

-- fn x => let rec f = x in f, where the symbol table has given 1 to `x` and 2 to `f`.
abbrev pub returned_parameter : (s e s₁ e₁ s₂ e₂ s₃ e₃ : ℕ) → Expression
returned_parameter s e s₁ e₁ s₂ e₂ s₃ e₃ =
    exp_lambda s e 1 (exp_letrec s₁ e₁ 2 (exp_identifier s₂ e₂ 1) (exp_identifier s₃ e₃ 2))

-- Whatever the fuel, the tokens and their numbers, the type of `fn x => let rec f = x in f` is
-- never found: the walk through the type of `f` does not end.
pub get_expression_type-endless :
    (n : ℕ) (tokens : List MillieToken) (errors : Errors) (s e s₁ e₁ s₂ e₂ s₃ e₃ : ℕ)
    → get_expression_type n tokens (returned_parameter s e s₁ e₁ s₂ e₂ s₃ e₃) (world [] errors)
      ≡ stopped endless
unfolding get_expression_type make_type_var make_fresh_type_exp make_generic_type_exp
    make_function_type unify analyze_identifier
get_expression_type-endless (suc (suc (suc (suc (suc n))))) tokens errors s e s₁ e₁ s₂ e₂ s₃ e₃ =
    ap
      (λ (o : Outcome (Address × World)).
        and_then
          (and_then (and_then o (λ fresh. pure (some fresh)))
            (found_type (suc (suc (suc (suc (suc n))))) tokens (exp_identifier s₃ e₃ 2)))
          (make_function_type 3))
      (fresh_self (suc (suc (suc (suc n)))) 4 (bound errors) refl)
get_expression_type-endless zero tokens errors s e s₁ e₁ s₂ e₂ s₃ e₃ = refl
get_expression_type-endless (suc zero) tokens errors s e s₁ e₁ s₂ e₂ s₃ e₃ = refl
get_expression_type-endless (suc (suc zero)) tokens errors s e s₁ e₁ s₂ e₂ s₃ e₃ = refl
get_expression_type-endless (suc (suc (suc zero))) tokens errors s e s₁ e₁ s₂ e₂ s₃ e₃ = refl
get_expression_type-endless (suc (suc (suc (suc zero)))) tokens errors s e s₁ e₁ s₂ e₂ s₃ e₃ = refl
