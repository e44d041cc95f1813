-- ===== src/Types/Nodes.antt =====
-- What holds of the result of a check, if there is one, and how the nodes of the store may change:
-- variables get bound and noted, and nothing else that a node says is lost.
use millie.Prelude.{
  ℕ, zero, suc, ◌≡◌, inl, inr, refl, sym, ap, ◌∙◌, subst, Bool, true, false, List, [], ◌∷◌, ◌++◌,
  Option, none, some, get_elem?, set, ◌==◌, ==_iff, if◌then◌else◌, arith, Bool-cases,
}
use mathlib.Core.Option.{some-injective}
use millie.Types.{
  Address, to, TypeExp, TypeExpType, typeexp_variable, typeexp_generic_variable, World, Outcome,
  done, stopped, bad_pointer, Check, and_then, load,
}

pub data Yields {A : Type 0} (P : A → World → Type 0) : Outcome (A × World) → Type 0 where
  halts : (s : _) → Yields P (stopped s)
  yields : {a : A} {w : World} → P a w → Yields P (done (a, w))

pub Yields-at :
    {A : Type 0} {P : A → World → Type 0} {o : Outcome (A × World)} {a : A} {w : World}
    → Yields P o
    → o ≡ done (a, w)
    → P a w
Yields-at {A} {P} {o} {a} {w} h e = at_done (subst (Yields P) e h)
  where
    at_done : Yields P (done (a, w)) → P a w
    at_done (yields p) = p

pub Yields-bind :
    {A B : Type 0} {P : A → World → Type 0} {Q : B → World → Type 0} {o : Outcome (A × World)}
    (f : A → Check B)
    → Yields P o
    → ((a : A) (w : World) → P a w → Yields Q (f a w))
    → Yields Q (and_then o f)
Yields-bind f (halts s) k = halts s
Yields-bind f (yields {a} {w} p) k = k a w p

-- A step that changes nothing.
abbrev pub Reads : {A : Type 0} → World → (A → Type 0) → Outcome (A × World) → Type 0
Reads w P = Yields (λ a w'. (w' ≡ w) × P a)

pub Reads-bind :
    {A B : Type 0} {P : A → Type 0} {Q : B → World → Type 0} {w : World} {o : Outcome (A × World)}
    (f : A → Check B)
    → Reads w P o
    → ((a : A) → P a → Yields Q (f a w))
    → Yields Q (and_then o f)
Reads-bind {A} {B} {P} {Q} {w} f r k =
    Yields-bind f r λ a w' p. subst (λ v. Yields Q (f a v)) (sym p.0) (k a p.1)

pub Yields-map :
    {A : Type 0} {P Q : A → World → Type 0} {o : Outcome (A × World)}
    → ((a : A) (w : World) → P a w → Q a w)
    → Yields P o
    → Yields Q o
Yields-map k (halts s) = halts s
Yields-map k (yields {a} {w} p) = yields (k a w p)

-- The node at an address.
abbrev pub IsAt : List TypeExp → Address → TypeExp → Type 0
IsAt nodes a node = get_elem? nodes a ≡ some node

pub load-Reads : (a : Address) (w : World) → Reads w (λ node. IsAt w.nodes a node) (load a w)
unfolding load
load-Reads a w = go (get_elem? w.nodes a) refl
  where
    go :
        (o : Option TypeExp)
        → get_elem? w.nodes a ≡ o
        → Reads w
            (λ node. IsAt w.nodes a node)
            (elim o [ some node ↦ done (node, w) | none ↦ stopped bad_pointer ])
    go none e = halts bad_pointer
    go (some node) e = yields (refl, e)

abbrev pub is_variable : TypeExpType → Bool
is_variable typeexp_variable = true
is_variable typeexp_generic_variable = true
is_variable _ = false

-- What a change leaves of a node: its type, a pointer in its first field, and both fields unless it
-- is a variable.
pub record Keeps (node node' : TypeExp) : Type 0 where
  pub same_type : node'.type ≡ node.type
  pub same_first : (a : Address) → node.arg_first ≡ to a → node'.arg_first ≡ to a
  pub fixed_first : is_variable node.type ≡ false → node'.arg_first ≡ node.arg_first
  pub fixed_second : is_variable node.type ≡ false → node'.arg_second ≡ node.arg_second

pub Keeps-refl : (node : TypeExp) → Keeps node node
Keeps-refl node = record {
  same_type = refl;
  same_first = λ a e. e;
  fixed_first = λ v. refl;
  fixed_second = λ v. refl;
}

-- Nodes stay where they are, and keep that.
pub record Grows (nodes nodes' : List TypeExp) : Type 0 where
  pub kept :
      (a : Address) (node : TypeExp)
      → IsAt nodes a node
      → (node' : TypeExp) × IsAt nodes' a node' × Keeps node node'

pub Grows-refl : (nodes : List TypeExp) → Grows nodes nodes
Grows-refl nodes = record { kept = λ a node e. (node, e, Keeps-refl node) }

pub Grows-trans :
    {nodes₁ nodes₂ nodes₃ : List TypeExp}
    → Grows nodes₁ nodes₂
    → Grows nodes₂ nodes₃
    → Grows nodes₁ nodes₃
Grows-trans {nodes₁} {nodes₂} {nodes₃} g h = record {
  kept = λ a node e.
      let first = g.kept a node e in
      let second = h.kept a first.0 first.1 in
      let k = first.2 in
      let l = second.2 in
      (
        second.0,
        second.1,
        record {
          same_type = l.same_type ∙ k.same_type;
          same_first = λ b q. l.same_first b (k.same_first b q);
          fixed_first = λ v. l.fixed_first (ap is_variable k.same_type ∙ v) ∙ k.fixed_first v;
          fixed_second = λ v. l.fixed_second (ap is_variable k.same_type ∙ v) ∙ k.fixed_second v;
        },
      );
}

IsAt-set :
    (xs : List TypeExp) (a b : ℕ) (v x : TypeExp)
    → IsAt xs b x
    → IsAt (set xs a v) b (if a == b then v else x)
IsAt-set [] a b v x e = cc
IsAt-set (y ∷ xs) zero zero v x e = refl
IsAt-set (y ∷ xs) zero (suc b) v x e = ground (arith, e)
IsAt-set (y ∷ xs) (suc a) zero v x e = ground (arith, e)
IsAt-set (y ∷ xs) (suc a) (suc b) v x e = ground (arith, IsAt-set xs a b v x e)

pub IsAt-set_same :
    (xs : List TypeExp) (a : ℕ) (v x : TypeExp) → IsAt xs a x → IsAt (set xs a v) a v
IsAt-set_same [] a v x e = cc
IsAt-set_same (y ∷ xs) zero v x e = refl
IsAt-set_same (y ∷ xs) (suc a) v x e = IsAt-set_same xs a v x e

pub set-Grows :
    (nodes : List TypeExp) (a : Address) (node node' : TypeExp)
    → IsAt nodes a node
    → Keeps node node'
    → Grows nodes (set nodes a node')
set-Grows nodes a node node' here k = record {
  kept = λ b x e. (
    if a == b then node' else x,
    IsAt-set nodes a b node' x e,
    elim (Bool-cases (a == b)) [
      | inl same ↦
          let x_is : node ≡ x =
            some-injective _ _ (sym here ∙ ap (get_elem? nodes) ((==_iff a b).0 same) ∙ e) in
          subst (λ t. Keeps x (if t then node' else x)) (sym same)
            (subst (λ y. Keeps y node') x_is k)
      | inr other ↦ subst (λ t. Keeps x (if t then node' else x)) (sym other) (Keeps-refl x)
    ],
  );
}

IsAt-append : (xs ys : List TypeExp) (a : ℕ) (x : TypeExp) → IsAt xs a x → IsAt (xs ++ ys) a x
IsAt-append [] ys a x e = cc
IsAt-append (y ∷ xs) ys zero x e = e
IsAt-append (y ∷ xs) ys (suc a) x e = IsAt-append xs ys a x e

pub append-Grows : (nodes more : List TypeExp) → Grows nodes (nodes ++ more)
append-Grows nodes more = record {
  kept = λ a node e. (node, IsAt-append nodes more a node e, Keeps-refl node);
}
