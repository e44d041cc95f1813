-- ===== src/Unify/Variables.antt =====
-- Unification with a variable: what a report and what a new binding keep of the store.
use Prim.Native.String.{String}
use millie.Prelude.{
  ℕ, suc, ◌≡◌, refl, sym, ap, ◌∙◌, subst, false, List, [], ◌∷◌, Option, none, some, get_elem?,
  length, length-append, ◌==◌, ==_iff, arith,
}
use millie.Token.{MillieToken}
use millie.Ast.{Expression, start_token, end_token}
use millie.Types.{
  Address, to, TypeExp, typeexp_variable, World, bad_pointer, pure, stop, store, ◌>>◌,
}
use millie.Types.Nodes.{
  Yields, halts, yields, Yields-bind, Yields-map, Reads-bind, Reads, IsAt, is_variable, Grows,
  Grows-refl, Grows-trans, set-Grows, IsAt-set_same,
}
use millie.Types.Laws.{Moves, Moves-refl, Quietly, Quiet-bind, Quiet-refl, Yields-test, from}
use millie.Types.Chains.{is_type_contained_within-Reads}
use millie.Types.Kept.{format_type_expression-Quiet}
use millie.Unify.{
  UnificationError, unify_self_recursive, unify_if_condition_boolean, UnifyContext, fetch_token,
  report_type_error, failure_message, report_unification_failure, unify_variable,
}
use millie.Unify.Same.{Unified, itself, instance_left, instance_right}

token-Reads :
    (tokens : List MillieToken) (i : ℕ) (w : World)
    → Reads w (λ _. Unit {0}) (fetch_token tokens i w)
unfolding fetch_token
token-Reads tokens i w = go (get_elem? tokens i)
  where
    go :
        (o : Option MillieToken)
        → Reads {A = MillieToken} w
            (λ _. Unit {0})
            (from w (elim o [ some token ↦ pure token | none ↦ stop bad_pointer ]))
    go none = halts bad_pointer
    go (some token) = yields {a = token} (refl, tt)

-- A report: the nodes grow, and there is an error more.
pub record Reported (w w' : World) : Type 0 where
  pub nodes_grow : Grows w.nodes w'.nodes
  pub one_more : length w'.errors ≡ suc (length w.errors)

pub report_type_error-Reported :
    (tokens : List MillieToken) (node : Expression) (message : String) (w : World)
    → Yields (λ _ w'. Reported w w') (report_type_error tokens node message w)
unfolding report_type_error
report_type_error-Reported tokens node message w =
    Reads-bind _ (token-Reads tokens (start_token node) w) λ first u.
      Reads-bind _ (token-Reads tokens (end_token node) w) λ last v. yields (record {
        nodes_grow = Grows-refl w.nodes;
        one_more = omega (arith, length-append w.errors (_ ∷ []));
      })

failure_message-Quiet :
    (n : ℕ) (code : UnificationError) (a b : Address) (w : World)
    → Quietly w (failure_message n code a b w)
unfolding failure_message
failure_message-Quiet n unify_if_condition_boolean a b w =
    Quiet-bind _ (format_type_expression-Quiet n a w) λ one v. yields (Quiet-refl v)
failure_message-Quiet n _ a b w =
    Quiet-bind _ (format_type_expression-Quiet n a w)
      λ one v. Quiet-bind _ (format_type_expression-Quiet n b v) λ two x. yields (Quiet-refl x)

pub report_unification_failure-Reported :
    (n : ℕ) (tokens : List MillieToken) (c : UnifyContext) (w : World)
    → Yields (λ _ w'. Reported w w') (report_unification_failure n tokens c w)
unfolding report_unification_failure
report_unification_failure-Reported n tokens c w =
    Yields-bind _ (failure_message-Quiet n c.error_code c.original_one c.original_two w)
      λ message v q.
        Yields-map
          (λ u x r. record {
            nodes_grow = Grows-trans q.nodes_grow r.nodes_grow;
            one_more = r.one_more ∙ ap (λ es. suc (length es)) q.same_errors;
          })
          (report_type_error-Reported tokens c.expression message v)

-- The nodes grow, and unless an error is reported, `P` holds of them.
pub record Unifies (P : List TypeExp → Type 0) (w w' : World) : Type 0 where
  pub moves : Moves w w'
  pub unless_reported : length w'.errors ≡ length w.errors → P w'.nodes

pub Reported-Unifies : {P : List TypeExp → Type 0} {w w' : World} → Reported w w' → Unifies P w w'
Reported-Unifies r = record {
  moves = record { nodes_grow = r.nodes_grow; errors_grow = omega (arith, r.one_more) };
  unless_reported = λ same. absurd (omega (arith, same, r.one_more));
}

pub Unifies-refl : {P : List TypeExp → Type 0} (w : World) → P w.nodes → Unifies P w w
Unifies-refl w p = record { moves = Moves-refl w; unless_reported = λ same. p }

-- Both orders of two types.
abbrev Both : Address → Address → List TypeExp → Type 0
Both a b nodes = Unified nodes (to a) (to b) × Unified nodes (to b) (to a)

-- The assignment to `var_instance`.
bind_variable :
    (n : ℕ) (v : Address) (node : TypeExp) (other : Address) (w : World) (c : UnifyContext)
    → IsAt w.nodes v node
    → node.type ≡ typeexp_variable
    → ((b : Address) → node.arg_first ≡ to b → ⊥)
    → Yields
        (λ _ w'. Unifies (Both v other) w w')
        (from w (store v (record node { arg_first = to other }) >> pure c))
unfolding store
bind_variable n v node other w c at kind free =
    let bound = record node { arg_first = to other } in
    let there = IsAt-set_same w.nodes v bound node at in
    yields (record {
      moves = record {
        nodes_grow = set-Grows w.nodes v node bound at (record {
          same_type = refl;
          same_first = λ b q. absurd (free b q);
          fixed_first = λ f. absurd (variable_ne (ap is_variable (sym kind) ∙ f));
          fixed_second = λ f. refl;
        });
        errors_grow = omega arith;
      };
      unless_reported = λ same.
          (instance_left bound there kind refl itself, instance_right bound there kind refl itself);
    })
  where
    variable_ne : is_variable typeexp_variable ≡ false → ⊥
    variable_ne q = cc

pub unify_variable-Unifies :
    (n : ℕ) (tokens : List MillieToken) (c : UnifyContext) (v : Address) (node : TypeExp)
    (other : Address) (w : World)
    → IsAt w.nodes v node
    → node.type ≡ typeexp_variable
    → ((b : Address) → node.arg_first ≡ to b → ⊥)
    → Yields (λ _ w'. Unifies (Both v other) w w') (unify_variable n tokens c v node other w)
unfolding unify_variable
unify_variable-Unifies n tokens c v node other w at kind free =
    Yields-test (v == other) _ _
      (λ e.
        let same = (==_iff v other).0 e in
        yields (Unifies-refl w (subst (λ x. Both v x w.nodes) same (itself, itself))))
      λ e. Reads-bind _ (is_type_contained_within-Reads n v (to other) w) λ contained u.
        Yields-test contained _ _
          (λ q.
            let recursive = record c { error_code = unify_self_recursive } in
            Yields-bind (λ _. pure recursive)
              (report_unification_failure-Reported n tokens recursive w)
              λ x w' r. yields {a = recursive} (Reported-Unifies r))
          λ q. bind_variable n v node other w c at kind free
