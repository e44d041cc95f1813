-- ===== src/Unify/Sound.antt =====
-- Types that are unified without a report are the same afterwards, and unification only binds
-- variables.
use millie.Prelude.{
  ℕ, zero, suc, ◌≡◌, ◌≢◌, refl, sym, ap, ◌∙◌, Bool, true, false, ◌||◌, List, length, arith,
}
use mathlib.Core.Option.{some-injective}
use millie.Token.{MillieToken}
use millie.Ast.{Expression}
use millie.Types.{
  Address, to, TypeExp, TypeExpType, typeexp_variable, same_kind, World, done, endless, Check, pure,
}
use millie.Types.Nodes.{
  Yields, halts, yields, Yields-at, Yields-bind, Yields-map, Reads-bind, IsAt, load-Reads, Grows,
}
use millie.Types.Laws.{Yields-test}
use millie.Types.Chains.{Leads, prune-Reads, IsError, is_error_type-Reads}
use millie.Unify.{UnificationError, UnifyContext, unify_structure, unify_impl, unify}
use millie.Unify.Same.{Unified, error_left, error_right, Leads-left, Leads-right, Leads-Grows}
use millie.Unify.Variables.{
  report_unification_failure-Reported, Unifies, Reported-Unifies, Unifies-refl,
  unify_variable-Unifies,
}
use millie.Unify.Trees.{Tree, Stands}
use millie.Unify.Agree.{Unified-Stands}
use millie.Unify.Components.{Makes, Recursion, kinds-eq, unify_components}

unify_structure-Makes :
    (n : ℕ) (call : UnifyContext → Address → Address → Check UnifyContext)
    (tokens : List MillieToken) (c : UnifyContext) (a b : Address) (w : World)
    → Recursion call
    → ((one : TypeExp) → IsAt w.nodes a one → one.type ≢ typeexp_variable)
    → Yields (λ _ w'. Makes (to a) (to b) w w') (unify_structure call n tokens c a b w)
unfolding unify_structure
unify_structure-Makes n call tokens c a b w again nv = Reads-bind _ (load-Reads a w) λ one at₁.
    Reads-bind _ (load-Reads b w) λ two at₂.
      Yields-test (same_kind one.type two.type) _ _
        (λ e.
          unify_components n call c a b one two w again at₁ at₂ (kinds-eq one.type two.type e)
            (nv one at₁))
        λ e.
          Yields-bind (λ _. pure c) (report_unification_failure-Reported n tokens c w)
            λ x w' r. yields {a = c} (Reported-Unifies r)

variable_ne : (k : TypeExpType) → same_kind k typeexp_variable ≡ false → k ≢ typeexp_variable
variable_ne k e q = ground (arith, e, q)

-- What is said of two pruned types, for the types.
through_prunes :
    {a p b q : Address} {w w' : World}
    → Leads w.nodes a p
    → Leads w.nodes b q
    → Makes (to p) (to q) w w'
    → Makes (to a) (to b) w w'
through_prunes l r u = record {
  moves = u.moves;
  unless_reported = λ same.
      Leads-left (Leads-Grows u.moves.nodes_grow l)
        (Leads-right (Leads-Grows u.moves.nodes_grow r) (u.unless_reported same));
}

Unifies-map :
    {P Q : List TypeExp → Type 0} {w w' : World}
    → ((nodes : List TypeExp) → P nodes → Q nodes)
    → Unifies P w w'
    → Unifies Q w w'
Unifies-map k u = record { moves = u.moves; unless_reported = λ same. k _ (u.unless_reported same) }

pub unify_impl-Makes : (n : ℕ) (tokens : List MillieToken) → Recursion (unify_impl n tokens)
unfolding unify_impl
unify_impl-Makes zero tokens c a b w = halts endless
unify_impl-Makes (suc n) tokens c a b w = Reads-bind _ (prune-Reads n a w) λ p pruned_a.
    Reads-bind _ (prune-Reads n b w) λ q pruned_b.
      Yields-map (λ c' w' u. through_prunes pruned_a.0 pruned_b.0 u)
        (Reads-bind _ (is_error_type-Reads p w) λ e₁ wrong₁.
          Reads-bind _ (is_error_type-Reads q w) λ e₂ wrong₂.
            Yields-test (e₁ || e₂) _ _
              (λ e. yields (Unifies-refl w (one_wrong e₁ e₂ p q w wrong₁ wrong₂ e)))
              λ e. Reads-bind _ (load-Reads p w) λ node₁ at₁.
                Reads-bind _ (load-Reads q w) λ node₂ at₂.
                  Yields-test (same_kind node₂.type typeexp_variable) _ _
                    (λ v.
                      let kind = kinds-eq node₂.type typeexp_variable v in
                      Yields-map (λ c' w' u. Unifies-map (λ nodes both. both.1) u)
                        (unify_variable-Unifies n tokens c q node₂ p w at₂ kind
                          (λ x y. pruned_b.1 node₂ x at₂ kind y)))
                    λ nv₂.
                      Yields-test (same_kind node₁.type typeexp_variable) _ _
                        (λ v.
                          let kind = kinds-eq node₁.type typeexp_variable v in
                          Yields-map (λ c' w' u. Unifies-map (λ nodes both. both.0) u)
                            (unify_variable-Unifies n tokens c p node₁ q w at₁ kind
                              (λ x y. pruned_a.1 node₁ x at₁ kind y)))
                        λ nv₁.
                          unify_structure-Makes n (unify_impl n tokens) tokens c p q w
                            (unify_impl-Makes n tokens)
                            (λ one at k. variable_ne node₁.type nv₁ (
                              ap (λ (x : TypeExp). x.type) (some-injective _ _ (sym at₁ ∙ at))
                              ∙ k)))
  where
    one_wrong :
        (e₁ e₂ : Bool) (p q : Address) (w : World)
        → (e₁ ≡ true → IsError w.nodes p)
        → (e₂ ≡ true → IsError w.nodes q)
        → (e₁ || e₂) ≡ true
        → Unified w.nodes (to p) (to q)
    one_wrong true e₂ p q w wrong₁ wrong₂ e = error_left (wrong₁ refl)
    one_wrong false e₂ p q w wrong₁ wrong₂ e = error_right (wrong₂ e)

-- When `_Unify` ends and the number of reports is what it was, the two types are related as
-- `Unified` says, which leaves out error types, generic variables and components that are missing
-- on the left.
unify-Unified :
    (n : ℕ) (tokens : List MillieToken) (node : Expression) (code : UnificationError)
    (a b : Address) (w w' : World)
    → unify n tokens node code a b w ≡ done (tt, w')
    → length w'.errors ≡ length w.errors
    → Unified w'.nodes (to a) (to b) × Grows w.nodes w'.nodes
unfolding unify
unify-Unified n tokens node code a b w w' ends quiet =
    let made =
      Yields-at
        (Yields-bind (λ _. pure tt)
          (unify_impl-Makes n tokens
            (record { expression = node; error_code = code; original_one = a; original_two = b }) a
            b w)
          λ c v u. sound_end v u)
        ends in
    (made.unless_reported quiet, made.moves.nodes_grow)
  where
    sound_end :
        (v : World)
        → Makes (to a) (to b) w v
        → Yields (λ (u : Unit {0}) x. Makes (to a) (to b) w x) (done (tt, v))
    sound_end v u = yields u

-- What `_Unify` has unified without a report is one type afterwards: both types stand for the same
-- tree, in which bound variables are followed, so that kinds, components and the variables that are
-- still free agree. For any store, any fuel and any error code. The conditions: `_Unify` ends, the
-- number of reports is what it was, and both types stand for trees in the store afterwards, that
-- is, they are finite, have no error type and no generic variable in them, and each kind has its
-- components. Besides, no node has lost its kind, its instance or, unless it is a variable, a
-- component.
pub unify-Stands :
    (n : ℕ) (tokens : List MillieToken) (node : Expression) (code : UnificationError)
    (a b : Address) (w w' : World) (t u : Tree)
    → unify n tokens node code a b w ≡ done (tt, w')
    → length w'.errors ≡ length w.errors
    → Stands w'.nodes (to a) t
    → Stands w'.nodes (to b) u
    → (t ≡ u) × Grows w.nodes w'.nodes
unify-Stands n tokens node code a b w w' t u ends quiet one two =
    let made = unify-Unified n tokens node code a b w w' ends quiet in
    (Unified-Stands w'.nodes (to a) (to b) t u made.0 one two, made.1)
