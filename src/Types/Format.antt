-- ===== src/Types/Format.antt =====
-- typecheck.c, the printed form of a type. The strings of the C code are texts, and their copies
-- and releases leave no trace.
use Prim.Native.String.{String, ◌++◌ as ◌&◌}
use millie.Prelude.{ℕ, zero, suc, ◌+◌, List, [], ◌∷◌, none, some, get_elem?}
use millie.Types.{
  Address, null, to, text, TypeExp, typeexp_invalid, typeexp_error, typeexp_variable,
  typeexp_generic_variable, typeexp_func, typeexp_int, typeexp_bool, typeexp_tuple,
  typeexp_tuple_final, Check, pure, stop, bad_pointer, out_of_names, endless, load, store, ◌>>=◌,
  ◌>>◌,
}
use millie.Types.Walk.{prune, cleanup_type_variables}
use millie.Types.Copy.{address_of}

abbrev pub type_names : List String
type_names =
    "A" ∷ "B" ∷ "C" ∷ "D" ∷ "E" ∷ "F" ∷ "G" ∷ "H" ∷ "I" ∷ "J" ∷ "K" ∷ "L" ∷ "M" ∷ "N" ∷ "O" ∷ "P"
    ∷ "Q" ∷ "R" ∷ []

-- A variable, with the name that it has got or the next one: its name, and the counter then.
unfoldable pub format_variable : Address → TypeExp → ℕ → Check (String × ℕ)
unfolding store
format_variable type node counter = elim node.arg_second [
  | null ↦ elim (get_elem? type_names counter) [
    | none ↦ stop out_of_names
    | some letter ↦ do
      store type (record node { arg_second = text ("'" & letter) })
      pure ("'" & letter, counter + 1)
  ]
  | to _ ↦ stop bad_pointer
  | text name ↦ pure (name, counter)
]

-- What the printing of functions and tuples shares, with the printing of a component and the text
-- for two of them as arguments.
unfoldable pub format_pair :
    (Address → ℕ → Check (String × ℕ))
    → (String → String → String)
    → TypeExp
    → ℕ
    → Check (String × ℕ)
unfolding address_of
format_pair format join node counter = do
  first ← address_of node.arg_first
  (left, after_left) ← format first counter
  second ← address_of node.arg_second
  (right, after_right) ← format second after_left
  pure (join left right, after_right)

-- `int *counter` is taken and returned.
unfoldable pub format_type_expression_impl : ℕ → Address → ℕ → Check (String × ℕ)
unfolding prune load address_of format_variable format_pair
format_type_expression_impl zero unpruned counter = stop endless
format_type_expression_impl (suc n) unpruned counter = do
  type ← prune n unpruned
  node ← load type
  elim node.type [
    | typeexp_error ↦ pure ("{{Error}}", counter)
    | typeexp_variable ↦ format_variable type node counter
    | typeexp_generic_variable ↦ format_variable type node counter
    | typeexp_int ↦ pure ("int", counter)
    | typeexp_bool ↦ pure ("bool", counter)
    | typeexp_func ↦
        format_pair (format_type_expression_impl n)
          (λ from into. "( " & from & " -> " & into & " )") node counter
    | typeexp_tuple ↦
        format_pair (format_type_expression_impl n) (λ left right. left & " * " & right) node
          counter
    | typeexp_tuple_final ↦ do
      tuple_first ← address_of node.arg_first
      format_type_expression_impl n tuple_first counter
    | typeexp_invalid ↦ pure ("{{Invalid}}", counter)
  ]

unfoldable pub format_type_expression : ℕ → Address → Check String
unfolding format_type_expression_impl cleanup_type_variables
format_type_expression n type = do
  (str, _) ← format_type_expression_impl n type 0
  cleanup_type_variables n (to type)
  pure str
