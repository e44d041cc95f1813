-- ===== src/Driver/Value.antt =====
-- millie.c, `FormatValue`. A string is built anew in each round of the C code, and released.
pub mod Digits
use millie.Prelude.{ℕ, zero, suc, ◌+◌, ◌++◌, Option, none, some, if◌then◌else◌}
use millie.Bytecode.{Module}
use millie.Runtime.{Word, num, Heap, is_zero, load as load_word}
use millie.Types.{
  Address, TypeExp, typeexp_invalid, typeexp_error, typeexp_variable, typeexp_generic_variable,
  typeexp_func, typeexp_int, typeexp_bool, typeexp_tuple, typeexp_tuple_final, Check, pure, stop,
  bad_pointer, fail_called, endless, load, ◌>>=◌,
}
use millie.Types.Copy.{address_of}
use millie.Lexer.{Bytes}
use millie.Driver.{bytes, format_signed}

-- The loop that follows the instances of variables, without a test for `NULL`.
unfoldable pub follow_instances : ℕ → Address → Check Address
unfolding load address_of
follow_instances zero type = stop endless
follow_instances (suc n) type = do
  node ← load type
  elim node.type [
    | typeexp_variable ↦ do
      var_instance ← address_of node.arg_first
      follow_instances n var_instance
    | _ ↦ pure type
  ]

abbrev format_int : Word → Check Bytes
format_int (num value) = pure (format_signed value)
format_int _ = stop bad_pointer

module _ (m : Module) (heap : Heap) where
  -- `FormatValue(tuple[i], type->tuple_first)`
  abbrev format_component : (Word → Address → Check Bytes) → Word → ℕ → TypeExp → Check Bytes
  format_component format tuple i node = do
    tuple_first ← address_of node.arg_first
    elim (load_word m heap tuple i) [
      | none ↦ stop bad_pointer
      | some value ↦ format value tuple_first
    ]

  -- The loop over a tuple, behind `acc`, and the last component.
  unfoldable pub format_tuple :
      (Word → Address → Check Bytes) → ℕ → Word → Bytes → ℕ → Address → Check Bytes
  unfolding load address_of
  format_tuple format zero tuple acc i type = stop endless
  format_tuple format (suc n) tuple acc i type = do
    node ← load type
    elim node.type [
      | typeexp_tuple ↦ do
        tv ← format_component format tuple i node
        tuple_rest ← address_of node.arg_second
        format_tuple format n tuple (acc ++ (tv ++ bytes ", ")) (i + 1) tuple_rest
      | typeexp_tuple_final ↦ do
        tv ← format_component format tuple i node
        pure (acc ++ (tv ++ bytes ")"))
      | _ ↦ stop fail_called
    ]

  unfoldable pub format_value : ℕ → Word → Address → Check Bytes
  unfolding follow_instances load format_tuple
  format_value zero value unfollowed = stop endless
  format_value (suc n) value unfollowed = do
    type ← follow_instances n unfollowed
    node ← load type
    elim node.type [
      | typeexp_bool ↦ pure (if is_zero value then bytes "false" else bytes "true")
      | typeexp_int ↦ format_int value
      | typeexp_func ↦ pure (bytes "A FUNCTION")
      | typeexp_tuple ↦ format_tuple (format_value n) n value (bytes "(") 0 type
      | _ ↦ pure (bytes "<<Invalid>>")
    ]
