-- ===== src/Types/Walk.antt =====
-- typecheck.c, the walks over a type: `_PruneTypeExp`, `_IsTypeContainedWithin`,
-- `_IsTypeNonGeneric` and `_CleanupTypeVariables`. A walk on a cyclic type does not end, so each
-- has fuel, which a call takes one of.
use millie.Prelude.{ℕ, zero, suc, Bool, true, false, List, [], ◌∷◌, ◌==◌}
use millie.Types.{
  Address, Slot, null, to, text, typeexp_variable, typeexp_generic_variable, Check, pure, stop,
  bad_pointer, endless, load, store, ◌>>=◌, ◌>>◌,
}

-- The loop of `_PruneTypeExp`, one round for each unit of fuel.
unfoldable pub prune : ℕ → Address → Check Address
prune zero type = stop endless
prune (suc n) type = do
  node ← load type
  elim node.type [
    | typeexp_variable ↦ elim node.arg_first [
      | null ↦ pure type
      | to instance_type ↦ prune n instance_type
      | text _ ↦ stop bad_pointer
    ]
    | _ ↦ pure type
  ]

-- `b` may be `NULL`. Of a variable this follows its instance, by the name `arg_first`.
unfoldable pub is_type_contained_within : ℕ → Address → Slot → Check Bool
is_type_contained_within zero a b = stop endless
is_type_contained_within (suc n) a null = pure false
is_type_contained_within (suc n) a (text _) = stop bad_pointer
is_type_contained_within (suc n) a (to b) = elim (a == b) [
  | true ↦ pure true
  | false ↦ do
    node ← load b
    first ← is_type_contained_within n a node.arg_first
    elim first [ true ↦ pure true | false ↦ is_type_contained_within n a node.arg_second ]
]

unfoldable pub is_type_non_generic : ℕ → Address → List Address → Check Bool
unfolding is_type_contained_within
is_type_non_generic n a [] = pure false
is_type_non_generic n a (type ∷ non_generics) = do
  contained ← is_type_contained_within n a (to type)
  elim contained [ true ↦ pure true | false ↦ is_type_non_generic n a non_generics ]

-- `type` may be `NULL`. The two assignments of `type` in the C code are the two names here.
unfoldable pub cleanup_type_variables : ℕ → Slot → Check (Unit {0})
unfolding prune load store
cleanup_type_variables zero slot = stop endless
cleanup_type_variables (suc n) null = pure tt
cleanup_type_variables (suc n) (text _) = stop bad_pointer
cleanup_type_variables (suc n) (to unpruned) = do
  type ← prune n unpruned
  node ← load type
  elim node.type [
    | typeexp_variable ↦ store type (record node { arg_second = null })
    | typeexp_generic_variable ↦ store type (record node { arg_second = null })
    | _ ↦ do cleanup_type_variables n node.arg_first; cleanup_type_variables n node.arg_second
  ]
