-- ===== src/Types.antt =====
-- typecheck.c, its data: the nodes of type expressions (platform.h), the store that their
-- addresses point into, and the steps that read, change and allocate nodes. The walks over types
-- are in Types/Walk and Types/Copy, their printed form is in Types/Format.
pub mod Walk
pub mod Copy
pub mod Format
pub mod Nodes
pub mod Laws
pub mod Chains
pub mod Kept
use Prim.Native.String.{String}
use millie.Prelude.{
  ℕ, ◌≡◌, refl, Bool, true, false, List, [], ◌∷◌, ◌++◌, Option, none, some, get_elem?, set, length,
  ◌==◌, if◌then◌else◌,
}
use millie.Errors.{Errors}

-- `TypeExpType`, with its places in the enumeration.
pub data TypeExpType : Type 0 where
  typeexp_invalid typeexp_error typeexp_variable typeexp_generic_variable : TypeExpType
  typeexp_func typeexp_int typeexp_bool typeexp_tuple typeexp_tuple_final : TypeExpType

abbrev pub kind_number : TypeExpType → ℕ
kind_number typeexp_invalid = 0
kind_number typeexp_error = 1
kind_number typeexp_variable = 2
kind_number typeexp_generic_variable = 3
kind_number typeexp_func = 4
kind_number typeexp_int = 5
kind_number typeexp_bool = 6
kind_number typeexp_tuple = 7
kind_number typeexp_tuple_final = 8

-- `==` on enumerators.
abbrev pub same_kind : TypeExpType → TypeExpType → Bool
same_kind a b = kind_number a == kind_number b

-- A pointer to a node is its place in the store.
abbrev pub Address : Type 0
Address = ℕ

-- What a pointer field holds. While a type is printed, `var_temp_other` points to a string.
pub data Slot : Type 0 where
  null : Slot
  to : Address → Slot
  text : String → Slot

-- `struct TypeExp`. The unions are `arg_first`, which is also `func_from`, `tuple_first` and
-- `var_instance`, and `arg_second`, which is also `func_to`, `tuple_rest` and `var_temp_other`.
pub record TypeExp : Type 0 where
  pub type : TypeExpType
  pub arg_first : Slot
  pub arg_second : Slot

-- Why a check ends without a result: a pointer that leads to no node, the reading of a name behind
-- the end of `type_names`, a call of `Fail`, or a walk that exhausts its fuel.
pub data Stop : Type 0 where
  bad_pointer out_of_names fail_called endless : Stop

pub data Outcome (A : Type 0) : Type 0 where
  done : A → Outcome A
  stopped : Stop → Outcome A

-- What the checker changes: the nodes, in the order of their allocation, and the errors.
pub record World : Type 0 where
  pub nodes : List TypeExp
  pub errors : Errors

abbrev pub Check : Type 0 → Type 0
Check A = World → Outcome (A × World)

abbrev pub pure : {A : Type 0} → A → Check A
pure a w = done (a, w)

abbrev pub stop : {A : Type 0} → Stop → Check A
stop s w = stopped s

abbrev pub and_then : {A B : Type 0} → Outcome (A × World) → (A → Check B) → Outcome (B × World)
and_then (done (a, w)) f = f a w
and_then (stopped s) f = stopped s

infixl 5 ◌>>=◌ ◌>>◌
abbrev pub ◌>>=◌ : {A B : Type 0} → Check A → (A → Check B) → Check B
◌>>=◌ m f w = and_then (m w) f

abbrev pub ◌>>◌ : {B : Type 0} → Check (Unit {0}) → Check B → Check B
m >> k = m >>= λ _. k

-- `type->…` on the right of an assignment, and `*type = node`.
unfoldable pub load : Address → Check TypeExp
load a w = elim (get_elem? w.nodes a) [ some node ↦ done (node, w) | none ↦ stopped bad_pointer ]

unfoldable pub store : Address → TypeExp → Check (Unit {0})
store a node w = done (tt, record w { nodes = set w.nodes a node })

-- `ArenaAllocate(arena, sizeof(struct TypeExp))`, filled in: memory of an arena is zero at first.
unfoldable pub allocate : TypeExp → Check Address
allocate node w = done (length w.nodes, record w { nodes = w.nodes ++ (node ∷ []) })

-- `_IntegerTypeExp`, `_BooleanTypeExp` and `_ErrorTypeExp` stand in front of all others.
abbrev pub integer_type : Address
integer_type = 0

abbrev pub boolean_type : Address
boolean_type = 1

abbrev pub error_type : Address
error_type = 2

abbrev pub static_types : List TypeExp
static_types =
    record { type = typeexp_int; arg_first = null; arg_second = null }
    ∷ record { type = typeexp_bool; arg_first = null; arg_second = null }
    ∷ record { type = typeexp_error; arg_first = null; arg_second = null }
    ∷ []

unfoldable pub is_error_type : Address → Check Bool
unfolding load
is_error_type type =
    if type == error_type
    then pure true
    else do node ← load type; pure (same_kind node.type typeexp_error)

unfoldable pub make_function_type : Address → Address → Check Address
unfolding allocate
make_function_type from_type to_type =
    allocate (record { type = typeexp_func; arg_first = to from_type; arg_second = to to_type })

unfoldable pub make_tuple_type : Address → Address → Check Address
unfolding allocate
make_tuple_type first_type rest_type =
    allocate (record { type = typeexp_tuple; arg_first = to first_type; arg_second = to rest_type })

unfoldable pub make_tuple_final_type : Address → Check Address
unfolding allocate
make_tuple_final_type first_type =
    allocate (record { type = typeexp_tuple_final; arg_first = to first_type; arg_second = null })

unfoldable pub make_type_var : Check Address
unfolding allocate
make_type_var = allocate (record { type = typeexp_variable; arg_first = null; arg_second = null })
