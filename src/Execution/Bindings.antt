-- ===== src/Execution/Bindings.antt =====
-- compiler.c: which register the search through the bindings finds.
use millie.Prelude.{
  ℕ, zero, suc, ◌≤◌, ◌<◌, ◌≡◌, ◌≢◌, ◌==◌, false, List, Option, some, get_elem?, length, arith, ap,
  sym, subst, ◌∙◌, ==_iff, Bool-cases, inl, inr, >>=-eq-some,
}
use mathlib.Core.Bool.{false≢true}
use mathlib.Core.Option.{some-injective}
use millie.Ast.{Symbol}
use millie.Compiler.Context.{CompileBinding, CompileContext}
use millie.Compiler.Emit.{find_binding}
use millie.Compiler.Growth.{Extends, pushed, get_elem?-set}
use millie.Compiler.Stale.{get_elem?-set_same, find_binding-at}
use millie.Runtime.{num, Registers}
use millie.Execution.Meaning.{Env, extend}

-- The innermost binding of a name that is in force, and its value.
pub record Binds (c : CompileContext) (id : Symbol) (value : ℕ) (registers : Registers)
    : Type 0 where
  pub index : ℕ
  pub reg : ℕ
  pub entry : get_elem? c.bindings index ≡ some (record { symbol = id; reg = reg })
  pub inside : index < c.binding_top
  pub innermost :
      (j : ℕ) (b : CompileBinding)
      → index < j
      → j < c.binding_top
      → get_elem? c.bindings j ≡ some b
      → b.symbol ≢ id
  pub low : reg < c.max_registers
  pub has_value : get_elem? registers reg ≡ some (num value)

-- Every name of an environment is bound.
pub record Bound (env : Env) (c : CompileContext) (registers : Registers) : Type 0 where
  pub binds : (id : Symbol) (value : ℕ) → env id ≡ some value → Binds c id value registers

-- What the entries that are not in force say.
pub record Stale (P : Symbol → Type 0) (c : CompileContext) : Type 0 where
  pub stale :
      (i : ℕ) (b : CompileBinding)
      → c.binding_top ≤ i
      → get_elem? c.bindings i ≡ some b
      → P b.symbol

find_binding-innermost :
    (bs : List CompileBinding) (n i : ℕ) (id reg : ℕ) (found : Option ℕ)
    → get_elem? bs i ≡ some (record { symbol = id; reg = reg })
    → i ≤ n
    → ((j : ℕ) (b : CompileBinding) → i < j → j ≤ n → get_elem? bs j ≡ some b → b.symbol ≢ id)
    → find_binding bs n id ≡ some found
    → found ≡ some reg
unfolding find_binding
find_binding-innermost bs zero i id reg found entry le inner h =
    let at : i ≡ 0 = omega (arith, le) in
    some-injective _ _ (sym h ∙ find_binding-at bs 0 id reg (ap (get_elem? bs) (sym at) ∙ entry))
find_binding-innermost bs (suc n) i id reg found entry le inner h = elim (Bool-cases (i == suc n)) [
  | inl e ↦
      let at : i ≡ suc n = (==_iff i (suc n)).0 e in
      some-injective _ _
        (sym h ∙ find_binding-at bs (suc n) id reg (ap (get_elem? bs) (sym at) ∙ entry))
  | inr e ↦
      let before : i < suc n = ground (arith, e, le) in
      let v = >>=-eq-some (get_elem? bs (suc n)) _ h in
      let other : (v.0.symbol == id) ≡ false = no (inner (suc n) v.0 before (omega arith) v.1) in
      find_binding-innermost bs n i id reg found entry (omega (arith, before))
        (λ j b l u. inner j b l (omega (arith, u))) (rw other at v.2)
]
  where
    no : {a b : ℕ} → a ≢ b → (a == b) ≡ false
    no {a} {b} ne = elim (Bool-cases (a == b)) [
      | inl e ↦ absurd (ne ((==_iff a b).0 e))
      | inr e ↦ e
    ]

-- A name of the environment is found in its register.
pub find_binding-Binds :
    (c : CompileContext) (id value : ℕ) (registers : Registers) (found : Option ℕ)
    → (b : Binds c id value registers) → Stale (λ s. s ≢ id) c
    → find_binding c.bindings c.binding_top id ≡ some found
    → found ≡ some b.reg
find_binding-Binds c id value registers found b st h =
    find_binding-innermost c.bindings c.binding_top b.index id b.reg found b.entry
      (omega (arith, b.inside)) inner h
  where
    inner :
        (j : ℕ) (x : CompileBinding)
        → b.index < j
        → j ≤ c.binding_top
        → get_elem? c.bindings j ≡ some x
        → x.symbol ≢ id
    inner j x l u e = elim (Bool-cases (j == c.binding_top)) [
      | inl t ↦ st.stale j x (omega (arith, (==_iff j c.binding_top).0 t)) e
      | inr t ↦ b.innermost j x l (ground (arith, t, u)) e
    ]

pub Bound-Extends :
    {env : Env} {c c' : CompileContext} {registers registers' : Registers}
    → Extends c c'
    → ((i : ℕ) → i < c.max_registers → get_elem? registers' i ≡ get_elem? registers i)
    → Bound env c registers
    → Bound env c' registers'
Bound-Extends {env} {c} {c'} x kept bound = record {
  binds = λ id value e.
      let b = bound.binds id value e in
      record {
        index = b.index;
        reg = b.reg;
        entry = x.same_bindings b.index b.inside ∙ b.entry;
        inside = omega (arith, b.inside, x.same_top);
        innermost = λ j y l u g.
            let u' : j < c.binding_top = omega (arith, u, x.same_top) in
            b.innermost j y l u' (sym (x.same_bindings j u') ∙ g);
        low = omega (arith, b.low, x.more_registers);
        has_value = kept b.reg b.low ∙ b.has_value;
      };
}

pub Bound-push :
    {env : Env} {c : CompileContext} {registers : Registers} (id reg value : ℕ)
    → c.binding_top < length c.bindings
    → reg < c.max_registers
    → get_elem? registers reg ≡ some (num value)
    → Bound env c registers
    → Bound (extend env id value) (pushed c id reg) registers
Bound-push {env} {c} {registers} id reg value room low v bound = record {
  binds = λ name w e. elim (Bool-cases (name == id)) [
    | inl t ↦
        subst (λ n. Binds (pushed c id reg) n w registers) (sym ((==_iff name id).0 t))
          (subst (λ u. Binds (pushed c id reg) id u registers) (some-injective _ _ (rw t at e)) new)
    | inr t ↦ old name w t (bound.binds name w (rw t at e))
  ];
}
  where
    this : CompileBinding
    this = record { symbol = id; reg = reg }

    new : Binds (pushed c id reg) id value registers
    new = record {
      index = c.binding_top;
      reg = reg;
      entry = get_elem?-set_same c.bindings c.binding_top this room;
      inside = omega arith;
      innermost = λ j y l u g. absurd (omega (arith, l, u));
      low = low;
      has_value = v;
    }

    old :
        (name w : ℕ)
        → (name == id) ≡ false
        → Binds c name w registers
        → Binds (pushed c id reg) name w registers
    old name w t b = record {
      index = b.index;
      reg = b.reg;
      entry = get_elem?-set c.bindings b.index c.binding_top this b.inside ∙ b.entry;
      inside = omega (arith, b.inside);
      innermost = λ j y l u g. elim (Bool-cases (j == c.binding_top)) [
        | inl top ↦
            let at : j ≡ c.binding_top = (==_iff j c.binding_top).0 top in
            let y_is : this ≡ y = some-injective _ _ (
              sym (get_elem?-set_same c.bindings c.binding_top this room)
              ∙ subst (λ n. get_elem? (pushed c id reg).bindings n ≡ some y) at g) in
            λ same. absurd (
              false≢true (
                sym t
                ∙ (==_iff name id).1 (sym same ∙ sym (ap (λ (z : CompileBinding). z.symbol) y_is))))
        | inr below ↦
            let u' : j < c.binding_top = ground (arith, u, below) in
            b.innermost j y l u' (sym (get_elem?-set c.bindings j c.binding_top this u') ∙ g)
      ];
      low = b.low;
      has_value = b.has_value;
    }
