-- ===== src/Typecheck/Reported.antt =====
-- The world of typecheck.c as it is between steps on static types, and what steps report.
use Prim.Native.String.{String}
use millie.Prelude.{
  ℕ, suc, ◌+◌, ◌<◌, ◌≡◌, refl, List, [], ◌∷◌, ◌++◌, arith, length, get_elem?-in_range,
}
use millie.Errors.{Errors}
use millie.Token.{MillieToken}
use millie.Ast.{
  Expression, start_token, end_token, exp_invalid, exp_error, exp_lambda, exp_identifier, exp_apply,
  exp_let, exp_letrec, exp_integer_constant, exp_true, exp_false, exp_if, exp_binary, exp_unary,
  exp_tuple, exp_tuple_final,
}
use millie.Types.{
  Address, TypeExp, World, Outcome, done, static_types, integer_type, boolean_type, error_type,
}
use millie.Types.Format.{format_type_expression}
use millie.Unify.{
  UnificationError, unify_self_recursive, unify_invalid_function_apply,
  unify_inconsistent_recursion, unify_if_condition_boolean, unify_if_branches_same,
  unify_no_valid_binary_operator, report_type_error, failure_message, unification_message,
}
use millie.Typecheck.{TypeEnvironment}
use millie.Typecheck.Simple.{Simple, int_type, bool_type, ill_typed, Scope}

-- The node of a type, and the environment of a scope.
abbrev pub address : Simple → Address
address int_type = integer_type
address bool_type = boolean_type
address ill_typed = error_type

abbrev pub addresses : Scope → TypeEnvironment
addresses [] = []
addresses ((id, t) ∷ scope) = (id, address t) ∷ addresses scope

-- A world as it is at any time: the three static types are in front.
abbrev pub world : List TypeExp → Errors → World
world more errors = record { nodes = static_types ++ more; errors = errors }

-- The tokens of every node are in the array.
abbrev pub InRange : List MillieToken → ℕ → ℕ → Type 0
InRange tokens s e = (s < length tokens) × (e < length tokens)

abbrev pub HasTokens : List MillieToken → Expression → Type 0
HasTokens tokens (exp_integer_constant s e _) = InRange tokens s e
HasTokens tokens (exp_true s e) = InRange tokens s e
HasTokens tokens (exp_false s e) = InRange tokens s e
HasTokens tokens (exp_identifier s e _) = InRange tokens s e
HasTokens tokens (exp_unary s e _ arg) = InRange tokens s e × HasTokens tokens arg
HasTokens tokens (exp_binary s e _ left right) =
    InRange tokens s e × HasTokens tokens left × HasTokens tokens right
HasTokens tokens (exp_if s e test then_arm else_arm) =
    InRange tokens s e
    × HasTokens tokens test
    × HasTokens tokens then_arm
    × HasTokens tokens else_arm
HasTokens tokens (exp_let s e _ value body) =
    InRange tokens s e × HasTokens tokens value × HasTokens tokens body
HasTokens tokens _ = ⊥

-- The tokens of the node itself.
pub HasTokens-own :
    (tokens : List MillieToken) (e : Expression)
    → HasTokens tokens e
    → InRange tokens (start_token e) (end_token e)
HasTokens-own tokens (exp_integer_constant _ _ _) h = h
HasTokens-own tokens (exp_true _ _) h = h
HasTokens-own tokens (exp_false _ _) h = h
HasTokens-own tokens (exp_identifier _ _ _) h = h
HasTokens-own tokens (exp_unary _ _ _ _) h = h.0
HasTokens-own tokens (exp_binary _ _ _ _ _) h = h.0
HasTokens-own tokens (exp_if _ _ _ _ _) h = h.0
HasTokens-own tokens (exp_let _ _ _ _ _) h = h.0
HasTokens-own tokens (exp_invalid _ _) h = elim h [ ]
HasTokens-own tokens (exp_error _ _) h = elim h [ ]
HasTokens-own tokens (exp_lambda _ _ _ _) h = elim h [ ]
HasTokens-own tokens (exp_apply _ _ _ _) h = elim h [ ]
HasTokens-own tokens (exp_letrec _ _ _ _ _) h = elim h [ ]
HasTokens-own tokens (exp_tuple _ _ _ _ _) h = elim h [ ]
HasTokens-own tokens (exp_tuple_final _ _ _) h = elim h [ ]

-- A step gives `a` and reports `k` errors, and changes nothing else.
pub record Reports {A : Type 0} (more : List TypeExp) (errors : Errors) (a : A) (k : ℕ)
    (outcome : Outcome (A × World)) : Type 0 where
  pub new : Errors
  pub result : outcome ≡ done (a, world more (errors ++ new))
  pub size : length new ≡ k

module _ (tokens : List MillieToken) (more : List TypeExp) (errors : Errors)
    (node : Expression) where
  pub report_one :
      (message : String)
      → InRange tokens (start_token node) (end_token node)
      → Reports more errors tt 1 (report_type_error tokens node message (world more errors))
  unfolding report_type_error
  report_one message range =
      let first = get_elem?-in_range tokens (start_token node) range.0 in
      let last = get_elem?-in_range tokens (end_token node) range.1 in
      record {
        new =
            record {
              message = message;
              start_pos = first.0.start;
              end_pos = last.0.start + last.0.length;
            }
            ∷ [];
        result = ground (arith, first.1, last.1);
        size = refl;
      }

abbrev pub type_name : Simple → String
type_name int_type = "int"
type_name bool_type = "bool"
type_name ill_typed = "{{Error}}"

module _ (more : List TypeExp) (errors : Errors) where
  pub format_static :
      (n : ℕ) (t : Simple)
      → format_type_expression (suc (suc n)) (address t) (world more errors)
        ≡ done (type_name t, world more errors)
  unfolding format_type_expression
  format_static n int_type = refl
  format_static n bool_type = refl
  format_static n ill_typed = refl

  -- The message of a failure for two static types.
  pub failure_static :
      (n : ℕ) (code : UnificationError) (a b : Simple)
      → (message : String) × (failure_message
            (suc (suc n))
            code
            (address a)
            (address b)
            (world more errors)
          ≡ done (message, world more errors))
  unfolding failure_message
  failure_static n unify_if_condition_boolean a b =
      (unification_message unify_if_condition_boolean (type_name a) "", rw (format_static n a) refl)
  failure_static n unify_self_recursive a b = (
    unification_message unify_self_recursive (type_name a) (type_name b),
    rw (format_static n a, format_static n b) refl,
  )
  failure_static n unify_invalid_function_apply a b = (
    unification_message unify_invalid_function_apply (type_name a) (type_name b),
    rw (format_static n a, format_static n b) refl,
  )
  failure_static n unify_inconsistent_recursion a b = (
    unification_message unify_inconsistent_recursion (type_name a) (type_name b),
    rw (format_static n a, format_static n b) refl,
  )
  failure_static n unify_if_branches_same a b = (
    unification_message unify_if_branches_same (type_name a) (type_name b),
    rw (format_static n a, format_static n b) refl,
  )
  failure_static n unify_no_valid_binary_operator a b = (
    unification_message unify_no_valid_binary_operator (type_name a) (type_name b),
    rw (format_static n a, format_static n b) refl,
  )
