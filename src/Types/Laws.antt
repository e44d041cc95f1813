-- ===== src/Types/Laws.antt =====
-- How a check may change the world: nodes grow, and errors are only added.
use millie.Prelude.{◌≤◌, ◌≡◌, refl, sym, ◌∙◌, subst, Bool, true, false, length, arith}
use millie.Types.{Address, Slot, TypeExp, World, Outcome, Check, and_then, store}
use millie.Types.Nodes.{
  Yields, Yields-bind, Yields-map, IsAt, is_variable, Keeps, Grows, Grows-refl, Grows-trans,
  set-Grows, yields,
}

-- The world before and after: the nodes grow, and errors are only added.
pub record Moves (w w' : World) : Type 0 where
  pub nodes_grow : Grows w.nodes w'.nodes
  pub errors_grow : length w.errors ≤ length w'.errors

pub Moves-refl : (w : World) → Moves w w
Moves-refl w = record { nodes_grow = Grows-refl w.nodes; errors_grow = omega arith }

pub Moves-trans : {w₁ w₂ w₃ : World} → Moves w₁ w₂ → Moves w₂ w₃ → Moves w₁ w₃
Moves-trans m n = record {
  nodes_grow = Grows-trans m.nodes_grow n.nodes_grow;
  errors_grow = omega (arith, m.errors_grow, n.errors_grow);
}

-- The world where the errors stay the same.
pub record Quiet (w w' : World) : Type 0 where
  pub nodes_grow : Grows w.nodes w'.nodes
  pub same_errors : w'.errors ≡ w.errors

pub Quiet-refl : (w : World) → Quiet w w
Quiet-refl w = record { nodes_grow = Grows-refl w.nodes; same_errors = refl }

pub Quiet-trans : {w₁ w₂ w₃ : World} → Quiet w₁ w₂ → Quiet w₂ w₃ → Quiet w₁ w₃
Quiet-trans m n = record {
  nodes_grow = Grows-trans m.nodes_grow n.nodes_grow;
  same_errors = n.same_errors ∙ m.same_errors;
}

pub Quiet-Moves : {w w' : World} → Quiet w w' → Moves w w'
Quiet-Moves {w} {w'} q = record {
  nodes_grow = q.nodes_grow;
  errors_grow = subst (λ es. length w.errors ≤ length es) (sym q.same_errors) (omega arith);
}

-- Steps that only grow the nodes, one behind another.
abbrev pub Quietly : {A : Type 0} → World → Outcome (A × World) → Type 0
Quietly w = Yields (λ _ w'. Quiet w w')

pub Quiet-bind :
    {A B : Type 0} {w : World} {o : Outcome (A × World)} (f : A → Check B)
    → Quietly w o
    → ((a : A) (w' : World) → Quietly w' (f a w'))
    → Quietly w (and_then o f)
Quiet-bind f h k = Yields-bind f h λ a w' q. Yields-map (λ b w'' r. Quiet-trans q r) (k a w')

-- A check, from a world on.
abbrev pub from : {A : Type 0} → World → Check A → Outcome (A × World)
from w m = m w

-- A branch on a test.
pub Yields-test :
    {B : Type 0} {Q : B → World → Type 0} {w : World} (b : Bool) (x y : Check B)
    → (b ≡ true → Yields Q (x w))
    → (b ≡ false → Yields Q (y w))
    → Yields Q (from w (elim b [ true ↦ x | false ↦ y ]))
Yields-test true x y h k = h refl
Yields-test false x y h k = k refl

pub store-Quiet :
    (a : Address) (node node' : TypeExp) (w : World)
    → IsAt w.nodes a node
    → Keeps node node'
    → Quietly w (store a node' w)
unfolding store
store-Quiet a node node' w at k =
    yields (record { nodes_grow = set-Grows w.nodes a node node' at k; same_errors = refl })

-- The note in a variable.
pub note-Keeps :
    (node : TypeExp) (s : Slot)
    → is_variable node.type ≡ true
    → Keeps node (record node { arg_second = s })
note-Keeps node s v = record {
  same_type = refl;
  same_first = λ a e. e;
  fixed_first = λ u. refl;
  fixed_second = λ u. cc;
}
