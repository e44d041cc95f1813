-- ===== src/Unify/Tests.antt =====
-- Unification of the types of two functions, one of which takes a variable.
use millie.Prelude.{ℕ, ◌+◌, [], ◌∷◌, ◌++◌, List, ◌≡◌, ◌≢◌, refl, arith}
use millie.Ast.{exp_true}
use millie.Types.{
  Slot, null, to, TypeExp, typeexp_variable, typeexp_int, typeexp_bool, typeexp_func, error_type,
  World, static_types, done, is_error_type,
}
use millie.Types.Nodes.{Grows}
use millie.Unify.{unify, unify_if_branches_same}
use millie.Unify.Trees.{parts, Tree, plain, compound, Stands, bound, single, double}
use millie.Unify.Sound.{unify-Stands}

-- A variable, a function from it to `bool`, and a function from `int` to `bool`.
abbrev with_functions : Slot → World
with_functions instance_type = record {
  nodes =
      static_types
      ++ record { type = typeexp_variable; arg_first = instance_type; arg_second = null }
        ∷ record { type = typeexp_func; arg_first = to 3; arg_second = to 1 }
        ∷ record { type = typeexp_func; arg_first = to 0; arg_second = to 1 }
        ∷ [];
  errors = [];
}

abbrev nodes_afterwards : List TypeExp
nodes_afterwards = (with_functions (to 0)).nodes

abbrev int_to_bool : Tree
int_to_bool = compound typeexp_func (plain typeexp_int) (plain typeexp_bool)

bound_to_int :
    unify 4 [] (exp_true 0 0) unify_if_branches_same 4 5 (with_functions null)
    ≡ done (tt, with_functions (to 0))
unfolding unify is_error_type
bound_to_int = refl

zero_ne_two : 0 ≢ error_type
zero_ne_two e = omega (arith, e)

one_ne_two : 1 ≢ error_type
one_ne_two e = omega (arith, e)

above_two : (n : ℕ) → n + 3 ≢ error_type
above_two n e = omega (arith, e)

int_is_int : Stands nodes_afterwards (to 0) (plain typeexp_int)
unfolding parts
int_is_int =
    single (record { type = typeexp_int; arg_first = null; arg_second = null }) zero_ne_two refl
      refl

bool_is_bool : Stands nodes_afterwards (to 1) (plain typeexp_bool)
unfolding parts
bool_is_bool =
    single (record { type = typeexp_bool; arg_first = null; arg_second = null }) one_ne_two refl
      refl

-- The variable is followed to `int`.
variable_is_int : Stands nodes_afterwards (to 3) (plain typeexp_int)
variable_is_int =
    bound (record { type = typeexp_variable; arg_first = to 0; arg_second = null }) (above_two 0)
      refl refl refl int_is_int

first_is_int_to_bool : Stands nodes_afterwards (to 4) int_to_bool
unfolding parts
first_is_int_to_bool =
    double (record { type = typeexp_func; arg_first = to 3; arg_second = to 1 }) (above_two 1) refl
      refl variable_is_int bool_is_bool

second_is_int_to_bool : Stands nodes_afterwards (to 5) int_to_bool
unfolding parts
second_is_int_to_bool =
    double (record { type = typeexp_func; arg_first = to 0; arg_second = to 1 }) (above_two 2) refl
      refl int_is_int bool_is_bool

unify-Stands_example :
    (int_to_bool ≡ int_to_bool) × Grows (with_functions null).nodes nodes_afterwards
unify-Stands_example =
    unify-Stands 4 [] (exp_true 0 0) unify_if_branches_same 4 5 (with_functions null)
      (with_functions (to 0)) int_to_bool int_to_bool bound_to_int refl first_is_int_to_bool
      second_is_int_to_bool
