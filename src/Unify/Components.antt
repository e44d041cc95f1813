-- ===== src/Unify/Components.antt =====
-- Two types of one kind, unified component by component.
use millie.Prelude.{
  ℕ, ◌≡◌, ◌≢◌, ◌⊎◌, inl, inr, refl, sym, ap, ◌∙◌, subst, true, false, List, length, arith,
}
use mathlib.Core.Option.{some-injective}
use millie.Types.{
  Address, Slot, null, to, text, TypeExp, TypeExpType, typeexp_variable, typeexp_generic_variable,
  same_kind, World, bad_pointer, Check, load, ◌>>=◌,
}
use millie.Types.Nodes.{
  Yields, halts, yields, Yields-bind, Yields-map, Reads-bind, IsAt, load-Reads, is_variable, Grows,
  Grows-trans,
}
use millie.Types.Laws.{Moves, Moves-trans, Yields-test, from}
use millie.Types.Chains.{prune-Reads, is_error_type-Reads}
use millie.Unify.{UnifyContext, unify_argument}
use millie.Unify.Same.{
  Unified, absent, error_left, both_generic, Leads-left, structure-Grows, Unified-Grows,
}
use millie.Unify.Variables.{Unifies, Unifies-refl}

-- One type after the other, read in the store at the end.
abbrev pub Makes : Slot → Slot → World → World → Type 0
Makes s t = Unifies (λ nodes. Unified nodes s t)

-- The recursive call, as the rest of `_UnifyImpl` needs it.
abbrev pub Recursion : (UnifyContext → Address → Address → Check UnifyContext) → Type 0
Recursion call =
    (c : UnifyContext) (a b : Address) (w : World)
    → Yields (λ _ w'. Makes (to a) (to b) w w') (call c a b w)

unify_argument-Makes :
    (n : ℕ) (call : UnifyContext → Address → Address → Check UnifyContext) (c : UnifyContext)
    (s t : Slot) (w : World)
    → Recursion call
    → Yields (λ _ w'. Makes s t w w') (unify_argument n call c s t w)
unfolding unify_argument
unify_argument-Makes n call c null t w again = yields (Unifies-refl w absent)
unify_argument-Makes n call c (to a) (to b) w again = again c a b w
unify_argument-Makes n call c (to a) (text _) w again = halts bad_pointer
unify_argument-Makes n call c (text _) t w again = halts bad_pointer
unify_argument-Makes n call c (to a) null w again = Reads-bind _ (prune-Reads n a w) λ p pruned.
    Reads-bind _ (is_error_type-Reads p w) λ e wrong.
      Yields-test e _ _ (λ q. yields (Unifies-refl w (Leads-left pruned.0 (error_left (wrong q)))))
        λ q. halts bad_pointer

pub kinds-eq : (a b : TypeExpType) → same_kind a b ≡ true → a ≡ b
kinds-eq a b e = ground arith

variable-cases :
    (k : TypeExpType)
    → k ≢ typeexp_variable
    → (k ≡ typeexp_generic_variable) ⊎ (is_variable k ≡ false)
variable-cases typeexp_variable h = absurd (h refl)
variable-cases typeexp_generic_variable h = inl refl
variable-cases _ h = inr refl

-- Between two steps without a report there was none.
no_report :
    {P : List TypeExp → Type 0} {w v : World} (x : World)
    → Unifies P w v
    → Moves v x
    → length x.errors ≡ length w.errors
    → length v.errors ≡ length w.errors
no_report x u m same = omega (arith, u.moves.errors_grow, m.errors_grow, same)

-- A field of a type that is no variable, read again later.
second_is :
    {nodes nodes' : List TypeExp} (p : Address) (node node' : TypeExp)
    → Grows nodes nodes'
    → IsAt nodes p node
    → IsAt nodes' p node'
    → is_variable node.type ≡ false
    → node'.arg_second ≡ node.arg_second
second_is p node node' g at at' fixed =
    let k = g.kept p node at in
    ap (λ (x : TypeExp). x.arg_second) (some-injective _ _ (sym at' ∙ k.1)) ∙ k.2.fixed_second fixed

-- Two types of the same kind, when their components have been unified one after the other: in `w`
-- before, in `v` between and in `x` afterwards.
module _ (a b : Address) (one two one' two' : TypeExp) (w v x : World) (at₁ : IsAt w.nodes a one)
    (at₂ : IsAt w.nodes b two) (same : one.type ≡ two.type) (at₁' : IsAt v.nodes a one')
    (at₂' : IsAt v.nodes b two') (first : Makes one.arg_first two.arg_first w v)
    (second : Makes one'.arg_second two'.arg_second v x) where
  both_components :
      is_variable one.type ≡ false
      → length x.errors ≡ length w.errors
      → Unified x.nodes (to a) (to b)
  both_components fixed quiet =
      let before = no_report x first second.moves quiet in
      structure-Grows a b one two (Grows-trans first.moves.nodes_grow second.moves.nodes_grow) at₁
        at₂ same fixed (Unified-Grows second.moves.nodes_grow (first.unless_reported before))
        (subst (λ s. Unified x.nodes s two.arg_second)
          (second_is a one one' first.moves.nodes_grow at₁ at₁' fixed)
          (subst (λ s. Unified x.nodes one'.arg_second s)
            (second_is b two two' first.moves.nodes_grow at₂ at₂'
              (sym (ap is_variable same) ∙ fixed))
            (second.unless_reported (quiet ∙ sym before))))

  components-Makes : one.type ≢ typeexp_variable → Makes (to a) (to b) w x
  components-Makes nv = record {
    moves = Moves-trans first.moves second.moves;
    unless_reported = λ quiet. whole (variable-cases one.type nv) quiet;
  }
    where
      whole :
          (one.type ≡ typeexp_generic_variable) ⊎ (is_variable one.type ≡ false)
          → length x.errors ≡ length w.errors
          → Unified x.nodes (to a) (to b)
      whole (inl generic) quiet =
          let g = Grows-trans first.moves.nodes_grow second.moves.nodes_grow in
          let k = g.kept a one at₁ in
          let l = g.kept b two at₂ in
          both_generic k.0 l.0 k.1 l.1 (k.2.same_type ∙ generic)
            (l.2.same_type ∙ sym same ∙ generic)
      whole (inr fixed) quiet = both_components fixed quiet

-- First their first components, then, in the store by then, the second ones.
pub unify_components :
    (n : ℕ) (call : UnifyContext → Address → Address → Check UnifyContext) (c : UnifyContext)
    (a b : Address) (one two : TypeExp) (w : World)
    → Recursion call
    → IsAt w.nodes a one
    → IsAt w.nodes b two
    → one.type ≡ two.type
    → one.type ≢ typeexp_variable
    → Yields
        (λ _ w'. Makes (to a) (to b) w w')
        (from w (
          unify_argument n call c one.arg_first two.arg_first >>= λ after_first.
          load a >>= λ one_again. load b >>= λ two_again.
          unify_argument n call after_first one_again.arg_second two_again.arg_second))
unify_components n call c a b one two w again at₁ at₂ same nv =
    Yields-bind _ (unify_argument-Makes n call c one.arg_first two.arg_first w again) λ c' v first.
      Reads-bind _ (load-Reads a v) λ one' at₁'. Reads-bind _ (load-Reads b v) λ two' at₂'.
        Yields-map
          (λ c'' x second.
            components-Makes a b one two one' two' w v x at₁ at₂ same at₁' at₂' first second nv)
          (unify_argument-Makes n call c' one'.arg_second two'.arg_second v again)
