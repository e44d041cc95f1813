-- ===== src/Unify/Agree.antt =====
-- Types that unification has made one stand for the same tree.
use millie.Prelude.{ℕ, ◌≡◌, ◌≢◌, inl, inr, Bool, true, false, refl, sym, ap, ◌∙◌, List, some}
use millie.Types.{
  Address, Slot, null, to, TypeExp, TypeExpType, typeexp_invalid, typeexp_error, typeexp_variable,
  typeexp_generic_variable, error_type,
}
use millie.Types.Nodes.{IsAt, is_variable}
use millie.Types.Chains.{IsError}
use millie.Unify.Same.{
  Unified, absent, itself, error_left, error_right, instance_left, instance_right, both_generic,
  structure,
}
use millie.Unify.Trees.{
  parts, Tree, Stands, bound, unbound, single, enclosed, double, no_pointer, node-eq, plain-eq,
  enclosing-eq, compound-eq, whole, with_first, with_both, Shape, Shape-of, Stands-instance,
  Stands-unique,
}

abbrev is_tree : TypeExpType → Bool
is_tree typeexp_invalid = false
is_tree typeexp_error = false
is_tree typeexp_generic_variable = false
is_tree _ = true

parts-is_tree : (k : TypeExpType) (n : ℕ) → parts k ≡ some n → is_tree k ≡ true
unfolding parts
parts-is_tree typeexp_invalid n e = cc
parts-is_tree typeexp_error n e = cc
parts-is_tree typeexp_generic_variable n e = cc
parts-is_tree _ n e = refl

true_ne_false : true ≡ false → ⊥
true_ne_false e = cc

fixed_kind : (k : TypeExpType) → is_variable k ≡ false → k ≢ typeexp_variable
fixed_kind k e kind = true_ne_false (sym (ap is_variable kind) ∙ e)

module _ (nodes : List TypeExp) where
  tree_at :
      (a : Address) (x node : TypeExp)
      → IsAt nodes a x
      → IsAt nodes a node
      → is_tree x.type ≡ true
      → is_tree node.type ≡ true
  tree_at a x node at at' e =
      ap (λ (z : TypeExp). is_tree z.type) (node-eq nodes a node x at' at) ∙ e

  -- What is no variable and has been unified component by component.
  structure-eq :
      (one two : TypeExp) (t u : Tree)
      → one.type ≡ two.type
      → ((v w : Tree) → Stands nodes one.arg_first v → Stands nodes two.arg_first w → v ≡ w)
      → ((v w : Tree) → Stands nodes one.arg_second v → Stands nodes two.arg_second w → v ≡ w)
      → Shape nodes one t
      → Shape nodes two u
      → t ≡ u
  structure-eq one two t u same f g (whole p) r = plain-eq nodes one.type two u same p r
  structure-eq one two t u same f g (with_first v p s) r =
      enclosing-eq nodes one.type v two u same p (λ w s'. f v w s s') r
  structure-eq one two t u same f g (with_both v v' p s s') r =
      compound-eq nodes one.type v v' two u same p (λ w x. f v w s x) (λ w x. g v' w s' x) r

  kind_of :
      (a : Address) (t : Tree) (node : TypeExp)
      → IsAt nodes a node
      → Stands nodes (to a) t
      → is_tree node.type ≡ true
  kind_of a t node at (bound x _ at' kind first s) = tree_at a x node at' at (ap is_tree kind)
  kind_of a t node at (unbound x _ at' kind first) = tree_at a x node at' at (ap is_tree kind)
  kind_of a t node at (single x _ at' p) = tree_at a x node at' at (parts-is_tree x.type 0 p)
  kind_of a t node at (enclosed x _ at' p s) = tree_at a x node at' at (parts-is_tree x.type 1 p)
  kind_of a t node at (double x _ at' p s s') = tree_at a x node at' at (parts-is_tree x.type 2 p)

  no_tree :
      (a : Address) (t : Tree) (node : TypeExp) (k : TypeExpType)
      → IsAt nodes a node
      → node.type ≡ k
      → is_tree k ≡ false
      → Stands nodes (to a) t
      → ⊥
  no_tree a t node k at kind e s = true_ne_false (sym (kind_of a t node at s) ∙ ap is_tree kind ∙ e)

  not_static : (a : Address) (t : Tree) → Stands nodes (to a) t → a ≢ error_type
  not_static a t (bound x ne at' kind first s) = ne
  not_static a t (unbound x ne at' kind first) = ne
  not_static a t (single x ne at' p) = ne
  not_static a t (enclosed x ne at' p s) = ne
  not_static a t (double x ne at' p s s') = ne

  no_error : (a : Address) (t : Tree) → IsError nodes a → Stands nodes (to a) t → ⊥
  no_error a t (inl static) s = not_static a t s static
  no_error a t (inr (node, at, kind)) s = no_tree a t node typeexp_error at kind refl s

  no_null : (s : Slot) (t : Tree) → null ≡ s → Stands nodes s t → ⊥
  no_null _ t e (bound {a} x ne at' kind first s) = no_pointer a e
  no_null _ t e (unbound {a} x ne at' kind first) = no_pointer a e
  no_null _ t e (single {a} x ne at' p) = no_pointer a e
  no_null _ t e (enclosed {a} x ne at' p s) = no_pointer a e
  no_null _ t e (double {a} x ne at' p s s') = no_pointer a e

  -- Types that have been unified stand for one tree.
  pub Unified-Stands :
      (s s' : Slot) (t u : Tree) → Unified nodes s s' → Stands nodes s t → Stands nodes s' u → t ≡ u
  Unified-Stands _ s' t u absent x y = absurd (no_null null t refl x)
  Unified-Stands _ _ t u (itself {a}) x y = Stands-unique nodes (to a) t u x y
  Unified-Stands _ s' t u (error_left {a} e) x y = absurd (no_error a t e x)
  Unified-Stands s _ t u (error_right {a} e) x y = absurd (no_error a u e y)
  Unified-Stands _ s' t u (instance_left {a} {b} node at kind first v) x y =
      Unified-Stands (to b) s' t u v (Stands-instance nodes a b t node at kind first x) y
  Unified-Stands s _ t u (instance_right {a} {b} node at kind first v) x y =
      Unified-Stands s (to b) t u v x (Stands-instance nodes a b u node at kind first y)
  Unified-Stands _ _ t u (both_generic {a} one two at at' kind kind') x y =
      absurd (no_tree a t one typeexp_generic_variable at kind refl x)
  Unified-Stands _ _ t u (structure {a} {b} one two at at' same nv v v') x y =
      structure-eq one two t u same
        (λ w w' x' y'. Unified-Stands one.arg_first two.arg_first w w' v x' y')
        (λ w w' x' y'. Unified-Stands one.arg_second two.arg_second w w' v' x' y')
        (Shape-of nodes a t one at (fixed_kind one.type nv) x)
        (Shape-of nodes b u two at' (fixed_kind two.type (sym (ap is_variable same) ∙ nv)) y)
