-- ===== src/Typecheck/Judged.antt =====
-- The typing rules and the count of errors agree.
use millie.Prelude.{
  ℕ, ◌+◌, ◌≡◌, ◌≢◌, inl, inr, refl, sym, Bool, true, false, ◌||◌, [], ◌∷◌, Option, none, some, ◌==◌,
  arith, Bool-cases, All, subst,
}
use millie.Token.{TokenType}
use millie.Ast.{
  Symbol, Expression, exp_invalid, exp_error, exp_lambda, exp_identifier, exp_apply, exp_let,
  exp_letrec, exp_integer_constant, exp_true, exp_false, exp_if, exp_binary, exp_unary, exp_tuple,
  exp_tuple_final,
}
use millie.Typecheck.Simple.{
  Simple, int_type, bool_type, ill_typed, Scope, type_of, is_arithmetic, is_equality, HasType,
  has_integer, has_true, has_false, has_identifier, has_unary, has_arithmetic, has_equality, has_if,
  has_let, clash, judge, judge_name, judge_binary, judge_if, IsMonomorphic,
}

-- No name of a scope is ill typed.
abbrev pub IsSound : Scope → Type 0
IsSound = All (λ p. p.1 ≢ ill_typed)

type_of-IsSound :
    (scope : Scope) (id : Symbol) (t : Simple)
    → IsSound scope
    → type_of scope id ≡ some t
    → t ≢ ill_typed
type_of-IsSound [] id t s e = cc
type_of-IsSound ((entry, u) ∷ scope) id t s e = elim (Bool-cases (entry == id)) [
  | inl same ↦ ground (arith, e, same, s.0, s)
  | inr other ↦ type_of-IsSound scope id t s.1 (ground (arith, e, other))
]

clash_self : (t : Simple) → judge_if (bool_type, 0) (t, 0) (t, 0) ≡ (t, 0)
clash_self int_type = refl
clash_self bool_type = refl
clash_self ill_typed = refl

-- What has a type by the rules has that type and no error.
pub HasType-judge :
    (scope : Scope) {e : Expression} {t : Simple} → HasType scope e t → judge scope e ≡ (t, 0)
unfolding judge
HasType-judge scope (has_integer _ _ _) = refl
HasType-judge scope (has_true _ _) = refl
HasType-judge scope (has_false _ _) = refl
HasType-judge scope (has_identifier _ _ id t found) = rw found refl
HasType-judge scope (has_unary _ _ operator arg t h) = HasType-judge scope h
HasType-judge scope (has_arithmetic _ _ operator left right a l r) =
    rw (a, HasType-judge scope l, HasType-judge scope r) refl
HasType-judge scope (has_equality _ _ operator left right t q l r) =
    rw (HasType-judge scope l, HasType-judge scope r) (equality operator t q)
  where
    equality :
        (o : TokenType) (u : Simple)
        → is_equality o ≡ true
        → judge_binary (is_arithmetic o) (u, 0) (u, 0) ≡ (bool_type, 0)
    equality o u p = ground arith
HasType-judge scope (has_if _ _ test then_arm else_arm t c h k) =
    rw (HasType-judge scope c, HasType-judge scope h, HasType-judge scope k) (clash_self t)
HasType-judge scope (has_let _ _ id value body t u v b) =
    rw (HasType-judge scope v, HasType-judge ((id, t) ∷ scope) b) refl

both_int :
    (l r : Simple)
    → l ≢ ill_typed
    → r ≢ ill_typed
    → clash l int_type + clash r int_type ≡ 0
    → (l ≡ int_type) × (r ≡ int_type)
both_int int_type int_type nl nr z = (refl, refl)
both_int ill_typed r nl nr z = absurd (nl refl)
both_int int_type ill_typed nl nr z = absurd (nr refl)
both_int bool_type r nl nr z = absurd (omega (arith, z))
both_int int_type bool_type nl nr z = absurd (omega (arith, z))

no_clash : (l r : Simple) → l ≢ ill_typed → r ≢ ill_typed → clash l r ≡ 0 → l ≡ r
no_clash int_type int_type nl nr z = refl
no_clash bool_type bool_type nl nr z = refl
no_clash ill_typed r nl nr z = absurd (nl refl)
no_clash int_type ill_typed nl nr z = absurd (nr refl)
no_clash bool_type ill_typed nl nr z = absurd (nr refl)
no_clash int_type bool_type nl nr z = absurd (omega (arith, z))
no_clash bool_type int_type nl nr z = absurd (omega (arith, z))

-- A type with the rules' derivation, which is not ill.
abbrev pub Typed : Scope → Expression → Simple × ℕ → Type 0
Typed scope e j = HasType scope e j.0 × (j.0 ≢ ill_typed)

-- Without errors the operands have the types of the rules.
binary-Typed :
    (scope : Scope) (s e : ℕ) (operator : TokenType) (left right : Expression) (l r : Simple × ℕ)
    → ((is_arithmetic operator || is_equality operator) ≡ true)
    → Typed scope left l
    → Typed scope right r
    → (judge_binary (is_arithmetic operator) l r).1 ≡ 0
    → Typed scope (exp_binary s e operator left right) (judge_binary (is_arithmetic operator) l r)
binary-Typed scope s e operator left right (l, i) (r, j) known (hl, nl) (hr, nr) z =
    elim (Bool-cases (is_arithmetic operator)) [
      | inl a ↦
          let z' = subst (λ b. (judge_binary b (l, i) (r, j)).1 ≡ 0) a z in
          let ints = both_int l r nl nr (omega (arith, z')) in
          subst
            (λ b. Typed scope (exp_binary s e operator left right) (judge_binary b (l, i) (r, j)))
            (sym a)
            (
              has_arithmetic s e operator left right a (subst (HasType scope left) ints.0 hl)
                  (subst (HasType scope right) ints.1 hr),
              λ q. cc,
            )
      | inr a ↦
          let z' = subst (λ b. (judge_binary b (l, i) (r, j)).1 ≡ 0) a z in
          let same = no_clash l r nl nr (omega (arith, z')) in
          subst
            (λ b. Typed scope (exp_binary s e operator left right) (judge_binary b (l, i) (r, j)))
            (sym a)
            (
              has_equality s e operator left right r
                  (subst (λ b. (b || is_equality operator) ≡ true) a known)
                  (subst (HasType scope left) same hl) hr,
              λ q. cc,
            )
    ]

if-Typed :
    (scope : Scope) (s e : ℕ) (test then_arm else_arm : Expression) (c t u : Simple × ℕ)
    → Typed scope test c
    → Typed scope then_arm t
    → Typed scope else_arm u
    → (judge_if c t u).1 ≡ 0
    → Typed scope (exp_if s e test then_arm else_arm) (judge_if c t u)
if-Typed scope s e test then_arm else_arm (c, i) (t, j) (u, k) (hc, nc) (ht, nt) (hu, nu) z =
    let same = no_clash t u nt nu (omega (arith, z)) in
    let condition = no_clash c bool_type nc (λ q. cc) (omega (arith, z)) in
    (
      has_if s e test then_arm else_arm t (subst (HasType scope test) condition hc) ht
          (subst (HasType scope else_arm) (sym same) hu),
      nt,
    )

binary_parts : (b : Bool) (l r : Simple × ℕ) → (judge_binary b l r).1 ≡ 0 → (l.1 ≡ 0) × (r.1 ≡ 0)
binary_parts true (l, i) (r, j) z = (omega (arith, z), omega (arith, z))
binary_parts false (l, i) (r, j) z = (omega (arith, z), omega (arith, z))

if_parts : (c t u : Simple × ℕ) → (judge_if c t u).1 ≡ 0 → (c.1 ≡ 0) × (t.1 ≡ 0) × (u.1 ≡ 0)
if_parts (c, i) (t, j) (u, k) z = (omega (arith, z), omega (arith, z), omega (arith, z))

name-Typed :
    (scope : Scope) (s e : ℕ) (id : Symbol) (o : Option Simple)
    → IsSound scope
    → type_of scope id ≡ o
    → (judge_name o).1 ≡ 0
    → Typed scope (exp_identifier s e id) (judge_name o)
name-Typed scope s e id none sound found z = absurd (omega (arith, z))
name-Typed scope s e id (some t) sound found z =
    (has_identifier s e id t found, type_of-IsSound scope id t sound found)

-- What is judged to have no error has its type by the rules.
pub judge-Typed :
    (scope : Scope) (e : Expression)
    → IsMonomorphic e
    → IsSound scope
    → (judge scope e).1 ≡ 0
    → Typed scope e (judge scope e)
unfolding judge
judge-Typed scope (exp_integer_constant s e value) m sound z = (has_integer s e value, λ q. cc)
judge-Typed scope (exp_true s e) m sound z = (has_true s e, λ q. cc)
judge-Typed scope (exp_false s e) m sound z = (has_false s e, λ q. cc)
judge-Typed scope (exp_identifier s e id) m sound z = name-Typed scope s e id _ sound refl z
judge-Typed scope (exp_unary s e operator arg) m sound z =
    let typed = judge-Typed scope arg m sound z in (has_unary s e operator arg _ typed.0, typed.1)
judge-Typed scope (exp_binary s e operator left right) (known, ml, mr) sound z =
    let parts = binary_parts (is_arithmetic operator) (judge scope left) (judge scope right) z in
    binary-Typed scope s e operator left right (judge scope left) (judge scope right) known
      (judge-Typed scope left ml sound parts.0) (judge-Typed scope right mr sound parts.1) z
judge-Typed scope (exp_if s e test then_arm else_arm) (mc, mt, me) sound z =
    let parts = if_parts (judge scope test) (judge scope then_arm) (judge scope else_arm) z in
    if-Typed scope s e test then_arm else_arm (judge scope test) (judge scope then_arm)
      (judge scope else_arm) (judge-Typed scope test mc sound parts.0)
      (judge-Typed scope then_arm mt sound parts.1) (judge-Typed scope else_arm me sound parts.2) z
judge-Typed scope (exp_let s e id value body) (mv, mb) sound z =
    let v = judge-Typed scope value mv sound (omega (arith, z)) in
    let b =
      judge-Typed ((id, (judge scope value).0) ∷ scope) body mb (v.1, sound) (omega (arith, z)) in
    (has_let s e id value body _ _ v.0 b.0, b.1)
judge-Typed scope (exp_invalid _ _) m sound z = elim m [ ]
judge-Typed scope (exp_error _ _) m sound z = elim m [ ]
judge-Typed scope (exp_lambda _ _ _ _) m sound z = elim m [ ]
judge-Typed scope (exp_apply _ _ _ _) m sound z = elim m [ ]
judge-Typed scope (exp_letrec _ _ _ _ _) m sound z = elim m [ ]
judge-Typed scope (exp_tuple _ _ _ _ _) m sound z = elim m [ ]
judge-Typed scope (exp_tuple_final _ _ _) m sound z = elim m [ ]
