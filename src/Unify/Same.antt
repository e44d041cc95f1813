-- ===== src/Unify/Same.antt =====
-- What unification is for: two types that the store makes one, said without unification.
use millie.Prelude.{◌≡◌, inl, inr, sym, ap, ◌∙◌, subst, false, List}
use millie.Types.{Address, Slot, null, to, TypeExp, typeexp_variable, typeexp_generic_variable}
use millie.Types.Nodes.{IsAt, is_variable, Grows}
use millie.Types.Chains.{Leads, here, through, IsError}

-- Variables are followed, an error type goes with any other, so do two generic variables, and
-- otherwise the kinds and the components are the same.
pub data Unified (nodes : List TypeExp) : Slot → Slot → Type 0 where
  absent : {s : Slot} → Unified nodes null s
  itself : {a : Address} → Unified nodes (to a) (to a)
  error_left : {a : Address} {s : Slot} → IsError nodes a → Unified nodes (to a) s
  error_right : {a : Address} {s : Slot} → IsError nodes a → Unified nodes s (to a)
  instance_left :
      {a b : Address} {s : Slot} (node : TypeExp)
      → IsAt nodes a node
      → node.type ≡ typeexp_variable
      → node.arg_first ≡ to b
      → Unified nodes (to b) s
      → Unified nodes (to a) s
  instance_right :
      {a b : Address} {s : Slot} (node : TypeExp)
      → IsAt nodes a node
      → node.type ≡ typeexp_variable
      → node.arg_first ≡ to b
      → Unified nodes s (to b)
      → Unified nodes s (to a)
  both_generic :
      {a b : Address} (one two : TypeExp)
      → IsAt nodes a one
      → IsAt nodes b two
      → one.type ≡ typeexp_generic_variable
      → two.type ≡ typeexp_generic_variable
      → Unified nodes (to a) (to b)
  structure :
      {a b : Address} (one two : TypeExp)
      → IsAt nodes a one
      → IsAt nodes b two
      → one.type ≡ two.type
      → is_variable one.type ≡ false
      → Unified nodes one.arg_first two.arg_first
      → Unified nodes one.arg_second two.arg_second
      → Unified nodes (to a) (to b)

pub IsError-Grows :
    {nodes nodes' : List TypeExp} (a : Address)
    → Grows nodes nodes'
    → IsError nodes a
    → IsError nodes' a
IsError-Grows a g (inl static) = inl static
IsError-Grows a g (inr (node, at, kind)) =
    let k = g.kept a node at in inr (k.0, k.1, k.2.same_type ∙ kind)

pub Leads-left :
    {nodes : List TypeExp} {a p : Address} {s : Slot}
    → Leads nodes a p
    → Unified nodes (to p) s
    → Unified nodes (to a) s
Leads-left here u = u
Leads-left (through node at kind first l) u = instance_left node at kind first (Leads-left l u)

pub Leads-right :
    {nodes : List TypeExp} {a p : Address} {s : Slot}
    → Leads nodes a p
    → Unified nodes s (to p)
    → Unified nodes s (to a)
Leads-right here u = u
Leads-right (through node at kind first l) u = instance_right node at kind first (Leads-right l u)

pub Leads-Grows :
    {nodes nodes' : List TypeExp} {a p : Address}
    → Grows nodes nodes'
    → Leads nodes a p
    → Leads nodes' a p
Leads-Grows g here = here
Leads-Grows g (through {a} {b} node at kind first l) =
    let k = g.kept a node at in
    through k.0 k.1 (k.2.same_type ∙ kind) (k.2.same_first b first) (Leads-Grows g l)

pub structure-Grows :
    {nodes nodes' : List TypeExp} (a b : Address) (one two : TypeExp)
    → Grows nodes nodes'
    → IsAt nodes a one
    → IsAt nodes b two
    → one.type ≡ two.type
    → is_variable one.type ≡ false
    → Unified nodes' one.arg_first two.arg_first
    → Unified nodes' one.arg_second two.arg_second
    → Unified nodes' (to a) (to b)
structure-Grows {nodes} {nodes'} a b one two g at₁ at₂ same v u₁ u₂ =
    let k = g.kept a one at₁ in
    let l = g.kept b two at₂ in
    let v₂ = sym (ap is_variable same) ∙ v in
    structure k.0 l.0 k.1 l.1 (k.2.same_type ∙ same ∙ sym l.2.same_type)
      (ap is_variable k.2.same_type ∙ v) (moved (k.2.fixed_first v) (l.2.fixed_first v₂) u₁)
      (moved (k.2.fixed_second v) (l.2.fixed_second v₂) u₂)
  where
    moved : {s s' t t' : Slot} → s' ≡ s → t' ≡ t → Unified nodes' s t → Unified nodes' s' t'
    moved {s} {s'} {t} {t'} p q u =
        subst (λ x. Unified nodes' x t') (sym p) (subst (λ y. Unified nodes' s y) (sym q) u)

-- Once unified, always unified.
pub Unified-Grows :
    {nodes nodes' : List TypeExp} {s t : Slot}
    → Grows nodes nodes'
    → Unified nodes s t
    → Unified nodes' s t
Unified-Grows g absent = absent
Unified-Grows g itself = itself
Unified-Grows g (error_left {a} e) = error_left (IsError-Grows a g e)
Unified-Grows g (error_right {a} e) = error_right (IsError-Grows a g e)
Unified-Grows g (instance_left {a} {b} node at kind first u) =
    let k = g.kept a node at in
    instance_left k.0 k.1 (k.2.same_type ∙ kind) (k.2.same_first b first) (Unified-Grows g u)
Unified-Grows g (instance_right {a} {b} node at kind first u) =
    let k = g.kept a node at in
    instance_right k.0 k.1 (k.2.same_type ∙ kind) (k.2.same_first b first) (Unified-Grows g u)
Unified-Grows g (both_generic {a} {b} one two at₁ at₂ kind₁ kind₂) =
    let k = g.kept a one at₁ in
    let l = g.kept b two at₂ in
    both_generic k.0 l.0 k.1 l.1 (k.2.same_type ∙ kind₁) (l.2.same_type ∙ kind₂)
Unified-Grows g (structure {a} {b} one two at₁ at₂ same v u₁ u₂) =
    structure-Grows a b one two g at₁ at₂ same v (Unified-Grows g u₁) (Unified-Grows g u₂)
