-- ===== src/Types/Copy.antt =====
-- typecheck.c, the copies of a type: `_MakeGenericTypeExp` puts generic variables in the place of
-- the variables that may be generic, and `_MakeFreshTypeExp` variables in the place of those.
use millie.Prelude.{ℕ, zero, suc, true, false, ◌&&◌, List, ◌==◌, if◌then◌else◌}
use millie.Types.{
  Address, Slot, null, to, text, TypeExp, typeexp_variable, typeexp_generic_variable, typeexp_func,
  typeexp_tuple, typeexp_tuple_final, Check, pure, stop, bad_pointer, endless, load, store,
  allocate, make_type_var, ◌>>=◌, ◌>>◌,
}
use millie.Types.Walk.{prune, is_type_non_generic, cleanup_type_variables}

-- A pointer that the code follows without a test.
unfoldable pub address_of : Slot → Check Address
address_of null = stop bad_pointer
address_of (to a) = pure a
address_of (text _) = stop bad_pointer

-- What both copies do for functions and tuples, with the copy of a component as an argument: the
-- node itself where the copies of its components are the components themselves. Its fields are
-- read once, since a copy changes the fields of variables only.
unfoldable pub copy_pair : (Address → Check Address) → Address → TypeExp → Check Address
unfolding address_of allocate
copy_pair copy type node = do
  old_first ← address_of node.arg_first
  arg_first ← copy old_first
  old_second ← address_of node.arg_second
  arg_second ← copy old_second
  if (arg_first == old_first) && (arg_second == old_second)
      then pure type
      else allocate
          (record { type = node.type; arg_first = to arg_first; arg_second = to arg_second })

unfoldable pub copy_final : (Address → Check Address) → Address → TypeExp → Check Address
unfolding address_of allocate
copy_final copy type node = do
  old_first ← address_of node.arg_first
  arg_first ← copy old_first
  if arg_first == old_first
      then pure type
      else allocate (record { type = node.type; arg_first = to arg_first; arg_second = null })

-- A variable that is met for the first time: itself where it is not generic, and a new generic
-- variable otherwise, which is noted in `var_temp_other`.
unfoldable pub generic_variable : ℕ → Address → TypeExp → List Address → Check Address
unfolding is_type_non_generic store allocate load
generic_variable n type node non_generics = do
  non_generic ← is_type_non_generic n type non_generics
  elim non_generic [
    | true ↦ do store type (record node { arg_second = to type }); pure type
    | false ↦ do
      result ←
          allocate (record { type = typeexp_generic_variable; arg_first = null; arg_second = null })
      store type (record node { arg_second = to result })
      pure result
  ]

unfoldable pub make_generic_type_exp_impl : ℕ → Address → List Address → Check Address
unfolding prune load copy_pair copy_final generic_variable
make_generic_type_exp_impl zero unpruned non_generics = stop endless
make_generic_type_exp_impl (suc n) unpruned non_generics = do
  type ← prune n unpruned
  node ← load type
  elim node.type [
    | typeexp_variable ↦ elim node.arg_second [
      | null ↦ generic_variable n type node non_generics
      | to other ↦ pure other
      | text _ ↦ stop bad_pointer
    ]
    | typeexp_func ↦ copy_pair (λ a. make_generic_type_exp_impl n a non_generics) type node
    | typeexp_tuple ↦ copy_pair (λ a. make_generic_type_exp_impl n a non_generics) type node
    | typeexp_tuple_final ↦ copy_final (λ a. make_generic_type_exp_impl n a non_generics) type node
    | _ ↦ pure type
  ]

unfoldable pub make_generic_type_exp : ℕ → Address → List Address → Check Address
unfolding make_generic_type_exp_impl cleanup_type_variables
make_generic_type_exp n type non_generics = do
  result ← make_generic_type_exp_impl n type non_generics
  cleanup_type_variables n (to type)
  pure result

-- A generic variable that is met for the first time.
unfoldable pub fresh_variable : Address → TypeExp → Check Address
unfolding make_type_var store
fresh_variable type node = do
  variable ← make_type_var
  store type (record node { arg_second = to variable })
  pure variable

unfoldable pub make_fresh_type_exp_copy : ℕ → Address → Check Address
unfolding prune load copy_pair copy_final fresh_variable
make_fresh_type_exp_copy zero unpruned = stop endless
make_fresh_type_exp_copy (suc n) unpruned = do
  type ← prune n unpruned
  node ← load type
  elim node.type [
    | typeexp_generic_variable ↦ elim node.arg_second [
      | null ↦ fresh_variable type node
      | to other ↦ pure other
      | text _ ↦ stop bad_pointer
    ]
    | typeexp_tuple ↦ copy_pair (make_fresh_type_exp_copy n) type node
    | typeexp_func ↦ copy_pair (make_fresh_type_exp_copy n) type node
    | typeexp_tuple_final ↦ copy_final (make_fresh_type_exp_copy n) type node
    | _ ↦ pure type
  ]

unfoldable pub make_fresh_type_exp : ℕ → Address → Check Address
unfolding make_fresh_type_exp_copy cleanup_type_variables
make_fresh_type_exp n type = do
  fresh_type ← make_fresh_type_exp_copy n type
  cleanup_type_variables n (to type)
  pure fresh_type
