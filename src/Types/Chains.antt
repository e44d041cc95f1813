-- ===== src/Types/Chains.antt =====
-- The walks of Types/Walk: reading changes nothing, and names are noted in variables only.
use millie.Prelude.{
  ℕ, zero, suc, ◌≡◌, ◌⊎◌, inl, inr, refl, ap, Bool, true, false, List, ◌==◌, ==_iff, if◌then◌else◌,
  arith,
}
use millie.Types.{
  Address, Slot, null, to, text, TypeExp, TypeExpType, typeexp_error, typeexp_variable,
  typeexp_generic_variable, same_kind, World, bad_pointer, endless, pure, stop, ◌>>=◌, ◌>>◌, load,
  store, is_error_type, error_type,
}
use millie.Types.Walk.{prune, is_type_contained_within, cleanup_type_variables}
use millie.Types.Copy.{address_of}
use millie.Types.Nodes.{halts, yields, Yields-map, Reads, Reads-bind, IsAt, load-Reads, is_variable}
use millie.Types.Laws.{Quiet-refl, Quietly, Quiet-bind, Yields-test, from, store-Quiet, note-Keeps}

-- A chain of variables that are bound to one another.
pub data Leads (nodes : List TypeExp) : Address → Address → Type 0 where
  here : {a : Address} → Leads nodes a a
  through :
      {a b c : Address} (node : TypeExp)
      → IsAt nodes a node
      → node.type ≡ typeexp_variable
      → node.arg_first ≡ to b
      → Leads nodes b c
      → Leads nodes a c

-- A variable that is not bound, or no variable.
abbrev pub IsPruned : List TypeExp → Address → Type 0
IsPruned nodes p =
    (node : TypeExp) (b : Address)
    → IsAt nodes p node
    → node.type ≡ typeexp_variable
    → node.arg_first ≡ to b
    → ⊥

-- Where the loop of `prune` ends.
abbrev pub Prunes : List TypeExp → Address → Address → Type 0
Prunes nodes a p = Leads nodes a p × IsPruned nodes p

prune_node :
    (n : ℕ) (a : Address) (w : World) (node : TypeExp)
    → ((b : Address) → Reads w (Prunes w.nodes b) (prune n b w))
    → IsAt w.nodes a node
    → (k : TypeExpType) (s : Slot) → node.type ≡ k
    → node.arg_first ≡ s
    → Reads w (Prunes w.nodes a) (
        from w (elim k [
          | typeexp_variable ↦ elim s [
            | null ↦ pure a
            | to instance_type ↦ prune n instance_type
            | text _ ↦ stop bad_pointer
          ]
          | _ ↦ pure a
        ]))
prune_node n a w node again at typeexp_variable null kind first =
    yields (refl, (here, λ node' b at' v q. ground (arith, at, at', first, q)))
prune_node n a w node again at typeexp_variable (text _) kind first = halts bad_pointer
prune_node n a w node again at typeexp_variable (to b) kind first =
    Yields-map (λ p w' r. (r.0, (through node at kind first r.1.0, r.1.1))) (again b)
prune_node n a w node again at _ s kind first =
    yields (refl, (here, λ node' b at' v q. ground (arith, at, at', kind, v)))

pub prune-Reads : (n : ℕ) (a : Address) (w : World) → Reads w (Prunes w.nodes a) (prune n a w)
unfolding prune
prune-Reads zero a w = halts endless
prune-Reads (suc n) a w =
    Reads-bind _ (load-Reads a w) λ node at.
      prune_node n a w node (λ b. prune-Reads n b w) at node.type node.arg_first refl refl

pub is_type_contained_within-Reads :
    (n : ℕ) (a : Address) (s : Slot) (w : World)
    → Reads w (λ _. Unit {0}) (is_type_contained_within n a s w)
unfolding is_type_contained_within
is_type_contained_within-Reads zero a s w = halts endless
is_type_contained_within-Reads (suc n) a null w = yields (refl, tt)
is_type_contained_within-Reads (suc n) a (text _) w = halts bad_pointer
is_type_contained_within-Reads (suc n) a (to b) w =
    Yields-test (a == b) _ _ (λ e. yields (refl, tt))
      λ e. Reads-bind _ (load-Reads b w) λ node at.
        Reads-bind _ (is_type_contained_within-Reads n a node.arg_first w) λ first u.
          Yields-test first _ _ (λ f. yields (refl, tt))
            λ f. is_type_contained_within-Reads n a node.arg_second w

-- The error type, by its address or by its kind.
abbrev pub IsError : List TypeExp → Address → Type 0
IsError nodes a =
    (a ≡ error_type) ⊎ ((node : TypeExp) × IsAt nodes a node × (node.type ≡ typeexp_error))

same_kind-eq : (k : TypeExpType) → same_kind k typeexp_error ≡ true → k ≡ typeexp_error
same_kind-eq typeexp_error e = refl
same_kind-eq _ e = cc

pub is_error_type-Reads :
    (a : Address) (w : World) → Reads w (λ b. b ≡ true → IsError w.nodes a) (is_error_type a w)
unfolding is_error_type
is_error_type-Reads a w = go (a == error_type) refl
  where
    go :
        (b : Bool)
        → (a == error_type) ≡ b
        → Reads w
            (λ e. e ≡ true → IsError w.nodes a)
            (from w (
              if b
              then pure true
              else (load a >>= λ node. pure (same_kind node.type typeexp_error))))
    go true e = yields (refl, λ q. inl ((==_iff a error_type).0 e))
    go false e =
        Reads-bind _ (load-Reads a w)
          λ node at. yields (refl, λ q. inr (node, at, same_kind-eq node.type q))

cleanup_node :
    (n : ℕ) (type : Address) (w : World) (node : TypeExp)
    → ((s : Slot) (v : World) → Quietly v (cleanup_type_variables n s v))
    → IsAt w.nodes type node
    → (k : TypeExpType) → node.type ≡ k
    → Quietly w (
        from w (elim k [
          | typeexp_variable ↦ store type (record node { arg_second = null })
          | typeexp_generic_variable ↦ store type (record node { arg_second = null })
          | _ ↦
              (cleanup_type_variables n node.arg_first >> cleanup_type_variables n node.arg_second)
        ]))
cleanup_node n type w node again at typeexp_variable kind =
    store-Quiet type node _ w at (note-Keeps node null (ap is_variable kind))
cleanup_node n type w node again at typeexp_generic_variable kind =
    store-Quiet type node _ w at (note-Keeps node null (ap is_variable kind))
cleanup_node n type w node again at _ kind =
    Quiet-bind _ (again node.arg_first w) λ u v. again node.arg_second v

pub cleanup_type_variables-Quiet :
    (n : ℕ) (s : Slot) (w : World) → Quietly w (cleanup_type_variables n s w)
unfolding cleanup_type_variables
cleanup_type_variables-Quiet zero s w = halts endless
cleanup_type_variables-Quiet (suc n) null w = yields (Quiet-refl w)
cleanup_type_variables-Quiet (suc n) (text _) w = halts bad_pointer
cleanup_type_variables-Quiet (suc n) (to a) w = Reads-bind _ (prune-Reads n a w) λ type pruned.
    Reads-bind _ (load-Reads type w)
      λ node at. cleanup_node n type w node (cleanup_type_variables-Quiet n) at node.type refl

pub address_of-Reads : (s : Slot) (w : World) → Reads w (λ _. Unit {0}) (address_of s w)
unfolding address_of
address_of-Reads null w = halts bad_pointer
address_of-Reads (to a) w = yields (refl, tt)
address_of-Reads (text _) w = halts bad_pointer
