-- ===== src/Types/Kept.antt =====
-- The printing of Types/Format: it notes names in variables only.
use Prim.Native.String.{String, ◌++◌ as ◌&◌}
use millie.Prelude.{ℕ, zero, suc, ◌+◌, ◌≡◌, refl, ap, true, Option, none, some, get_elem?}
use millie.Types.{
  Address, Slot, null, to, text, TypeExp, TypeExpType, typeexp_invalid, typeexp_error,
  typeexp_variable, typeexp_generic_variable, typeexp_func, typeexp_int, typeexp_bool,
  typeexp_tuple, typeexp_tuple_final, World, bad_pointer, out_of_names, endless, Check, pure, stop,
  ◌>>=◌, ◌>>◌, store,
}
use millie.Types.Copy.{address_of}
use millie.Types.Format.{
  type_names, format_variable, format_pair, format_type_expression_impl, format_type_expression,
}
use millie.Types.Nodes.{halts, yields, Reads-bind, IsAt, load-Reads, is_variable}
use millie.Types.Laws.{Quiet-refl, Quietly, Quiet-bind, from, store-Quiet, note-Keeps}
use millie.Types.Chains.{prune-Reads, cleanup_type_variables-Quiet, address_of-Reads}

format_variable-Quiet :
    (type : Address) (node : TypeExp) (counter : ℕ) (w : World)
    → IsAt w.nodes type node
    → is_variable node.type ≡ true
    → Quietly w (format_variable type node counter w)
unfolding format_variable
format_variable-Quiet type node counter w at v = go node.arg_second (get_elem? type_names counter)
  where
    go :
        (s : Slot) (o : Option String)
        → Quietly w (
            from {A = String × ℕ} w (elim s [
              | null ↦ elim o [
                | none ↦ stop out_of_names
                | some letter ↦
                    (store type (record node { arg_second = text ("'" & letter) })
                      >> pure ("'" & letter, counter + 1))
              ]
              | to _ ↦ stop bad_pointer
              | text name ↦ pure (name, counter)
            ]))
    go null none = halts out_of_names
    go null (some letter) =
        Quiet-bind _ (store-Quiet type node _ w at (note-Keeps node _ v))
          λ u w'. yields {a = ("'" & letter, counter + 1)} (Quiet-refl w')
    go (to _) o = halts bad_pointer
    go (text name) o = yields {a = (name, counter)} (Quiet-refl w)

format_pair-Quiet :
    (format : Address → ℕ → Check (String × ℕ)) (join : String → String → String) (node : TypeExp)
    (counter : ℕ) (w : World)
    → ((a : Address) (k : ℕ) (v : World) → Quietly v (format a k v))
    → Quietly w (format_pair format join node counter w)
unfolding format_pair
format_pair-Quiet format join node counter w again =
    Reads-bind _ (address_of-Reads node.arg_first w) λ first u.
      Quiet-bind _ (again first counter w) λ left v.
        Reads-bind _ (address_of-Reads node.arg_second v)
          λ second u'. Quiet-bind _ (again second left.1 v) λ right x. yields (Quiet-refl x)

format_node :
    (n : ℕ) (type : Address) (counter : ℕ) (w : World) (node : TypeExp)
    → ((a : Address) (k : ℕ) (v : World) → Quietly v (format_type_expression_impl n a k v))
    → IsAt w.nodes type node
    → (k : TypeExpType) → node.type ≡ k
    → Quietly w (
        from {A = String × ℕ} w (elim k [
          | typeexp_error ↦ pure ("{{Error}}", counter)
          | typeexp_variable ↦ format_variable type node counter
          | typeexp_generic_variable ↦ format_variable type node counter
          | typeexp_int ↦ pure ("int", counter)
          | typeexp_bool ↦ pure ("bool", counter)
          | typeexp_func ↦
              format_pair
                (format_type_expression_impl n)
                (λ from into. "( " & from & " -> " & into & " )")
                node
                counter
          | typeexp_tuple ↦
              format_pair
                (format_type_expression_impl n)
                (λ left right. left & " * " & right)
                node
                counter
          | typeexp_tuple_final ↦
              (address_of node.arg_first >>= λ tuple_first.
              format_type_expression_impl n tuple_first counter)
          | typeexp_invalid ↦ pure ("{{Invalid}}", counter)
        ]))
format_node n type counter w node again at typeexp_variable kind =
    format_variable-Quiet type node counter w at (ap is_variable kind)
format_node n type counter w node again at typeexp_generic_variable kind =
    format_variable-Quiet type node counter w at (ap is_variable kind)
format_node n type counter w node again at typeexp_func kind =
    format_pair-Quiet _ _ node counter w again
format_node n type counter w node again at typeexp_tuple kind =
    format_pair-Quiet _ _ node counter w again
format_node n type counter w node again at typeexp_tuple_final kind =
    Reads-bind _ (address_of-Reads node.arg_first w) λ first u. again first counter w
format_node n type counter w node again at _ kind = yields (Quiet-refl w)

pub format_type_expression_impl-Quiet :
    (n : ℕ) (a : Address) (counter : ℕ) (w : World)
    → Quietly w (format_type_expression_impl n a counter w)
unfolding format_type_expression_impl
format_type_expression_impl-Quiet zero a counter w = halts endless
format_type_expression_impl-Quiet (suc n) a counter w =
    Reads-bind _ (prune-Reads n a w) λ type pruned. Reads-bind _ (load-Reads type w) λ node at.
      format_node n type counter w node (format_type_expression_impl-Quiet n) at node.type refl

pub format_type_expression-Quiet :
    (n : ℕ) (a : Address) (w : World) → Quietly w (format_type_expression n a w)
unfolding format_type_expression
format_type_expression-Quiet n a w =
    Quiet-bind _ (format_type_expression_impl-Quiet n a 0 w)
      λ r v. Quiet-bind _ (cleanup_type_variables-Quiet n (to a) v) λ u x. yields (Quiet-refl x)
