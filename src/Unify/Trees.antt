-- ===== src/Unify/Trees.antt =====
-- What a type of the store is when it is read as a whole: a tree, in which variables that are bound
-- are followed; and a type stands for one tree only.
use millie.Prelude.{ℕ, suc, ◌≡◌, ◌≢◌, refl, sym, ap, ◌∙◌, subst, List, Option, none, some, arith}
use mathlib.Core.Option.{some-injective}
use millie.Types.{
  Address, Slot, null, to, TypeExp, TypeExpType, typeexp_variable, typeexp_func, typeexp_int,
  typeexp_bool, typeexp_tuple, typeexp_tuple_final, error_type,
}
use millie.Types.Nodes.{IsAt}

-- How many components a type of this kind has. Errors, variables and generic variables are no
-- trees.
unfoldable pub parts : TypeExpType → Option ℕ
parts typeexp_int = some 0
parts typeexp_bool = some 0
parts typeexp_tuple_final = some 1
parts typeexp_func = some 2
parts typeexp_tuple = some 2
parts _ = none

pub data Tree : Type 0 where
  unknown : Address → Tree
  plain : TypeExpType → Tree
  enclosing : TypeExpType → Tree → Tree
  compound : TypeExpType → Tree → Tree → Tree

-- The tree that a type stands for. A type that leads back to itself, or in which there is an error
-- type or a generic variable, stands for none.
pub data Stands (nodes : List TypeExp) : Slot → Tree → Type 0 where
  bound :
      {a b : Address} {t : Tree} (node : TypeExp)
      → a ≢ error_type
      → IsAt nodes a node
      → node.type ≡ typeexp_variable
      → node.arg_first ≡ to b
      → Stands nodes (to b) t
      → Stands nodes (to a) t
  unbound :
      {a : Address} (node : TypeExp)
      → a ≢ error_type
      → IsAt nodes a node
      → node.type ≡ typeexp_variable
      → node.arg_first ≡ null
      → Stands nodes (to a) (unknown a)
  single :
      {a : Address} (node : TypeExp)
      → a ≢ error_type
      → IsAt nodes a node
      → parts node.type ≡ some 0
      → Stands nodes (to a) (plain node.type)
  enclosed :
      {a : Address} {t : Tree} (node : TypeExp)
      → a ≢ error_type
      → IsAt nodes a node
      → parts node.type ≡ some 1
      → Stands nodes node.arg_first t
      → Stands nodes (to a) (enclosing node.type t)
  double :
      {a : Address} {t u : Tree} (node : TypeExp)
      → a ≢ error_type
      → IsAt nodes a node
      → parts node.type ≡ some 2
      → Stands nodes node.arg_first t
      → Stands nodes node.arg_second u
      → Stands nodes (to a) (compound node.type t u)

parts_unique : (k l : TypeExpType) (m n : ℕ) → k ≡ l → parts k ≡ some m → parts l ≡ some n → m ≡ n
parts_unique k l m n same p q = some-injective _ _ (sym p ∙ ap parts same ∙ q)

variable_parts : (k : TypeExpType) (n : ℕ) → k ≡ typeexp_variable → parts k ≡ some n → ⊥
unfolding parts
variable_parts k n e p = not_some n (sym (ap parts e) ∙ p)
  where
    not_some : (n : ℕ) → none ≡ some n → ⊥
    not_some n e = cc

pub no_pointer : (b : Address) → null ≡ to b → ⊥
no_pointer b e = cc

zero_ne : (n : ℕ) → 0 ≡ suc n → ⊥
zero_ne n e = omega (arith, e)

one_less : {m n : ℕ} → suc m ≡ suc n → m ≡ n
one_less e = omega (arith, e)

module _ (nodes : List TypeExp) where
  pub node-eq : (a : Address) (x y : TypeExp) → IsAt nodes a x → IsAt nodes a y → x ≡ y
  node-eq a x y at at' = some-injective _ _ (sym at ∙ at')

  variable_at :
      (a : Address) (x node : TypeExp) (n : ℕ)
      → IsAt nodes a x
      → IsAt nodes a node
      → node.type ≡ typeexp_variable
      → parts x.type ≡ some n
      → ⊥
  variable_at a x node n at at' kind p =
      variable_parts x.type n (ap (λ (z : TypeExp). z.type) (node-eq a x node at at') ∙ kind) p

  -- What stands at a node that is no variable.
  pub data Shape (node : TypeExp) : Tree → Type 0 where
    whole : parts node.type ≡ some 0 → Shape node (plain node.type)
    with_first :
        (t : Tree)
        → parts node.type ≡ some 1
        → Stands nodes node.arg_first t
        → Shape node (enclosing node.type t)
    with_both :
        (t u : Tree)
        → parts node.type ≡ some 2
        → Stands nodes node.arg_first t
        → Stands nodes node.arg_second u
        → Shape node (compound node.type t u)

  pub Shape-of :
      (a : Address) (t : Tree) (node : TypeExp)
      → IsAt nodes a node
      → node.type ≢ typeexp_variable
      → Stands nodes (to a) t
      → Shape node t
  Shape-of a t node at nv (bound x _ at' kind first s) =
      absurd (nv (ap (λ (z : TypeExp). z.type) (node-eq a node x at at') ∙ kind))
  Shape-of a t node at nv (unbound x _ at' kind first) =
      absurd (nv (ap (λ (z : TypeExp). z.type) (node-eq a node x at at') ∙ kind))
  Shape-of a t node at nv (single x _ at' p) =
      subst (λ z. Shape z (plain x.type)) (node-eq a x node at' at) (whole p)
  Shape-of a _ node at nv (enclosed {t} x _ at' p s) =
      subst (λ z. Shape z (enclosing x.type t)) (node-eq a x node at' at) (with_first t p s)
  Shape-of a _ node at nv (double {t} {u} x _ at' p s s') =
      subst (λ z. Shape z (compound x.type t u)) (node-eq a x node at' at) (with_both t u p s s')

  -- Behind a bound variable stands the same tree.
  pub Stands-instance :
      (a b : Address) (t : Tree) (node : TypeExp)
      → IsAt nodes a node
      → node.type ≡ typeexp_variable
      → node.arg_first ≡ to b
      → Stands nodes (to a) t
      → Stands nodes (to b) t
  Stands-instance a b t node at kind first (bound x _ at' kind' first' s) =
      subst (λ z. Stands nodes z t)
        (sym first' ∙ ap (λ (z : TypeExp). z.arg_first) (node-eq a x node at' at) ∙ first) s
  Stands-instance a b t node at kind first (unbound x _ at' kind' first') = absurd (
      no_pointer b
        (sym first' ∙ ap (λ (z : TypeExp). z.arg_first) (node-eq a x node at' at) ∙ first))
  Stands-instance a b t node at kind first (single x _ at' p) =
      absurd (variable_at a x node 0 at' at kind p)
  Stands-instance a b t node at kind first (enclosed x _ at' p s) =
      absurd (variable_at a x node 1 at' at kind p)
  Stands-instance a b t node at kind first (double x _ at' p s s') =
      absurd (variable_at a x node 2 at' at kind p)

  unbound-eq :
      (a : Address) (t : Tree) (node : TypeExp)
      → IsAt nodes a node
      → node.type ≡ typeexp_variable
      → node.arg_first ≡ null
      → Stands nodes (to a) t
      → unknown a ≡ t
  unbound-eq a t node at kind first (bound {b} x _ at' kind' first' s) = absurd (
      no_pointer b
        (sym first ∙ ap (λ (z : TypeExp). z.arg_first) (node-eq a node x at at') ∙ first'))
  unbound-eq a t node at kind first (unbound x _ at' kind' first') = refl
  unbound-eq a t node at kind first (single x _ at' p) =
      absurd (variable_at a x node 0 at' at kind p)
  unbound-eq a t node at kind first (enclosed x _ at' p s) =
      absurd (variable_at a x node 1 at' at kind p)
  unbound-eq a t node at kind first (double x _ at' p s s') =
      absurd (variable_at a x node 2 at' at kind p)

  pub plain-eq :
      (k : TypeExpType) (node : TypeExp) (t : Tree)
      → k ≡ node.type
      → parts k ≡ some 0
      → Shape node t
      → plain k ≡ t
  plain-eq k node t same p (whole q) = ap plain same
  plain-eq k node t same p (with_first u q s) =
      absurd (zero_ne 0 (parts_unique k node.type 0 1 same p q))
  plain-eq k node t same p (with_both u v q s s') =
      absurd (zero_ne 1 (parts_unique k node.type 0 2 same p q))

  pub enclosing-eq :
      (k : TypeExpType) (first : Tree) (node : TypeExp) (t : Tree)
      → k ≡ node.type
      → parts k ≡ some 1
      → ((u : Tree) → Stands nodes node.arg_first u → first ≡ u)
      → Shape node t
      → enclosing k first ≡ t
  enclosing-eq k first node t same p f (whole q) =
      absurd (zero_ne 0 (sym (parts_unique k node.type 1 0 same p q)))
  enclosing-eq k first node t same p f (with_first u q s) =
      ap (λ x. enclosing x first) same ∙ ap (enclosing node.type) (f u s)
  enclosing-eq k first node t same p f (with_both u v q s s') =
      absurd (zero_ne 0 (one_less (parts_unique k node.type 1 2 same p q)))

  pub compound-eq :
      (k : TypeExpType) (first second : Tree) (node : TypeExp) (t : Tree)
      → k ≡ node.type
      → parts k ≡ some 2
      → ((u : Tree) → Stands nodes node.arg_first u → first ≡ u)
      → ((u : Tree) → Stands nodes node.arg_second u → second ≡ u)
      → Shape node t
      → compound k first second ≡ t
  compound-eq k first second node t same p f g (whole q) =
      absurd (zero_ne 1 (sym (parts_unique k node.type 2 0 same p q)))
  compound-eq k first second node t same p f g (with_first u q s) =
      absurd (zero_ne 0 (sym (one_less (parts_unique k node.type 2 1 same p q))))
  compound-eq k first second node t same p f g (with_both u v q s s') =
      ap (λ x. compound x first second) same
      ∙ ap (λ x. compound node.type x second) (f u s)
      ∙ ap (compound node.type u) (g v s')

  not_variable : (node : TypeExp) (n : ℕ) → parts node.type ≡ some n → node.type ≢ typeexp_variable
  not_variable node n p kind = variable_parts node.type n kind p

  -- A type stands for one tree only.
  pub Stands-unique : (s : Slot) (t u : Tree) → Stands nodes s t → Stands nodes s u → t ≡ u
  Stands-unique _ t u (bound {a} {b} node _ at kind first s) r =
      Stands-unique (to b) t u s (Stands-instance a b u node at kind first r)
  Stands-unique _ t u (unbound {a} node _ at kind first) r = unbound-eq a u node at kind first r
  Stands-unique _ t u (single {a} node _ at p) r =
      plain-eq node.type node u refl p (Shape-of a u node at (not_variable node 0 p) r)
  Stands-unique _ _ u (enclosed {a} {t} node _ at p s) r =
      enclosing-eq node.type t node u refl p (λ v r'. Stands-unique node.arg_first t v s r')
        (Shape-of a u node at (not_variable node 1 p) r)
  Stands-unique _ _ u (double {a} {t} {u = t'} node _ at p s s') r =
      compound-eq node.type t t' node u refl p (λ v r'. Stands-unique node.arg_first t v s r')
        (λ v r'. Stands-unique node.arg_second t' v s' r')
        (Shape-of a u node at (not_variable node 2 p) r)
