-- ===== src/Typecheck/Simple.antt =====
-- The types of expressions without functions and tuples, apart from typecheck.c: the typing rules,
-- and the number of errors that an expression is worth.
use millie.Prelude.{ℕ, ◌+◌, ◌≡◌, Bool, true, false, ◌||◌, List, [], ◌∷◌, Option, none, some, ◌==◌}
use millie.Token.{TokenType, tok_plus, tok_minus, tok_star, tok_slash, tok_equals}
use millie.Ast.{
  Symbol, Expression, exp_identifier, exp_let, exp_integer_constant, exp_true, exp_false, exp_if,
  exp_binary, exp_unary,
}

-- `ill_typed` is the type of what an error has been reported for.
pub data Simple : Type 0 where
  int_type bool_type ill_typed : Simple

abbrev pub Scope : Type 0
Scope = List (Symbol × Simple)

abbrev pub type_of : Scope → Symbol → Option Simple
type_of [] id = none
type_of ((entry, t) ∷ scope) id = elim (entry == id) [ true ↦ some t | false ↦ type_of scope id ]

abbrev pub is_arithmetic : TokenType → Bool
is_arithmetic tok_plus = true
is_arithmetic tok_minus = true
is_arithmetic tok_star = true
is_arithmetic tok_slash = true
is_arithmetic _ = false

abbrev pub is_equality : TokenType → Bool
is_equality tok_equals = true
is_equality _ = false

-- The typing rules.
pub data HasType : Scope → Expression → Simple → Type 0 where
  has_integer :
      {scope : Scope} (s e value : ℕ) → HasType scope (exp_integer_constant s e value) int_type
  has_true : {scope : Scope} (s e : ℕ) → HasType scope (exp_true s e) bool_type
  has_false : {scope : Scope} (s e : ℕ) → HasType scope (exp_false s e) bool_type
  has_identifier :
      {scope : Scope} (s e : ℕ) (id : Symbol) (t : Simple)
      → type_of scope id ≡ some t
      → HasType scope (exp_identifier s e id) t
  has_unary :
      {scope : Scope} (s e : ℕ) (operator : TokenType) (arg : Expression) (t : Simple)
      → HasType scope arg t
      → HasType scope (exp_unary s e operator arg) t
  has_arithmetic :
      {scope : Scope} (s e : ℕ) (operator : TokenType) (left right : Expression)
      → is_arithmetic operator ≡ true
      → HasType scope left int_type
      → HasType scope right int_type
      → HasType scope (exp_binary s e operator left right) int_type
  has_equality :
      {scope : Scope} (s e : ℕ) (operator : TokenType) (left right : Expression) (t : Simple)
      → is_equality operator ≡ true
      → HasType scope left t
      → HasType scope right t
      → HasType scope (exp_binary s e operator left right) bool_type
  has_if :
      {scope : Scope} (s e : ℕ) (test then_arm else_arm : Expression) (t : Simple)
      → HasType scope test bool_type
      → HasType scope then_arm t
      → HasType scope else_arm t
      → HasType scope (exp_if s e test then_arm else_arm) t
  has_let :
      {scope : Scope} (s e : ℕ) (id : Symbol) (value body : Expression) (t u : Simple)
      → HasType scope value t
      → HasType ((id, t) ∷ scope) body u
      → HasType scope (exp_let s e id value body) u

-- Whether two types clash; an ill type clashes with none.
abbrev pub clash : Simple → Simple → ℕ
clash int_type bool_type = 1
clash bool_type int_type = 1
clash _ _ = 0

abbrev pub judge_name : Option Simple → Simple × ℕ
judge_name none = (ill_typed, 1)
judge_name (some t) = (t, 0)

abbrev pub judge_binary : Bool → Simple × ℕ → Simple × ℕ → Simple × ℕ
judge_binary true (l, i) (r, j) =
    (int_type, i + j + clash l int_type + clash r int_type + clash l r)
judge_binary false (l, i) (r, j) = (bool_type, i + j + clash l r)

abbrev pub judge_if : Simple × ℕ → Simple × ℕ → Simple × ℕ → Simple × ℕ
judge_if (c, i) (t, j) (u, k) = (t, i + clash c bool_type + j + k + clash t u)

-- The type of an expression, and the number of errors in it.
unfoldable pub judge : Scope → Expression → Simple × ℕ
judge scope (exp_integer_constant _ _ _) = (int_type, 0)
judge scope (exp_true _ _) = (bool_type, 0)
judge scope (exp_false _ _) = (bool_type, 0)
judge scope (exp_identifier _ _ id) = judge_name (type_of scope id)
judge scope (exp_unary _ _ _ arg) = judge scope arg
judge scope (exp_binary _ _ operator left right) =
    judge_binary (is_arithmetic operator) (judge scope left) (judge scope right)
judge scope (exp_if _ _ test then_arm else_arm) =
    judge_if (judge scope test) (judge scope then_arm) (judge scope else_arm)
judge scope (exp_let _ _ id value body) =
    let v = judge scope value in let b = judge ((id, v.0) ∷ scope) body in (b.0, v.1 + b.1)
judge scope _ = (ill_typed, 1)

-- Expressions of this kind, with operators that there are.
abbrev pub IsMonomorphic : Expression → Type 0
IsMonomorphic (exp_integer_constant _ _ _) = Unit
IsMonomorphic (exp_true _ _) = Unit
IsMonomorphic (exp_false _ _) = Unit
IsMonomorphic (exp_identifier _ _ _) = Unit
IsMonomorphic (exp_unary _ _ operator arg) = IsMonomorphic arg
IsMonomorphic (exp_binary _ _ operator left right) =
    ((is_arithmetic operator || is_equality operator) ≡ true)
    × IsMonomorphic left
    × IsMonomorphic right
IsMonomorphic (exp_if _ _ test then_arm else_arm) =
    IsMonomorphic test × IsMonomorphic then_arm × IsMonomorphic else_arm
IsMonomorphic (exp_let _ _ id value body) = IsMonomorphic value × IsMonomorphic body
IsMonomorphic _ = ⊥
