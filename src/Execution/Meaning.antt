-- ===== src/Execution/Meaning.antt =====
-- What programs without functions and tuples mean, said without registers and code, and conditions
-- on the use of names in them, which compiler.c does not check.
use millie.Prelude.{
  ℕ, ◌+◌, ◌-◌, ◌*◌, ◌%◌, ◌^◌, ◌≡◌, ◌≢◌, Bool, true, false, ltb, ◌==◌, if◌then◌else◌, List, [], ◌∷◌,
  ◌++◌, Option, none, some, ◌>>=◌, All,
}
use millie.Token.{TokenType, tok_plus, tok_minus, tok_star, tok_equals}
use millie.Ast.{
  Symbol, Expression, exp_identifier, exp_let, exp_integer_constant, exp_true, exp_false, exp_if,
  exp_binary, exp_unary,
}

-- The values of the names in scope.
abbrev pub Env : Type 0
Env = Symbol → Option ℕ

abbrev pub extend : Env → Symbol → ℕ → Env
extend env id value name = if name == id then some value else env name

abbrev pub operate : TokenType → ℕ → ℕ → Option ℕ
operate tok_plus a b = some ((a + b) % 2 ^ 64)
operate tok_minus a b = some ((a + 2 ^ 64 - b) % 2 ^ 64)
operate tok_star a b = some (a * b % 2 ^ 64)
operate tok_equals a b = some (if a == b then 1 else 0)
operate _ a b = none

abbrev pub negate : TokenType → ℕ → Option ℕ
negate tok_minus a = some ((2 ^ 64 - a) % 2 ^ 64)
negate _ a = none

-- The value of an expression; `true` is 1 and `false` is 0. There is none for an unbound name, for
-- an operator that the compiler rejects, and for what is not an expression of this kind.
unfoldable pub meaning : Expression → Env → Option ℕ
meaning (exp_integer_constant _ _ value) env = if ltb value (2 ^ 64) then some value else none
meaning (exp_true _ _) env = some 1
meaning (exp_false _ _) env = some 0
meaning (exp_identifier _ _ id) env = env id
meaning (exp_let _ _ id value body) env = meaning value env >>= λ v. meaning body (extend env id v)
meaning (exp_binary _ _ operator left right) env =
    meaning left env >>= λ a. meaning right env >>= λ b. operate operator a b
meaning (exp_unary _ _ operator arg) env = meaning arg env >>= λ a. negate operator a
meaning (exp_if _ _ test then_arm else_arm) env =
    meaning test env >>= λ t. if t == 0 then meaning else_arm env else meaning then_arm env
meaning _ env = none

-- All names that an expression uses, and all that it binds.
abbrev pub identifiers : Expression → List Symbol
identifiers (exp_identifier _ _ id) = id ∷ []
identifiers (exp_let _ _ id value body) = identifiers value ++ identifiers body
identifiers (exp_binary _ _ operator left right) = identifiers left ++ identifiers right
identifiers (exp_unary _ _ operator arg) = identifiers arg
identifiers (exp_if _ _ test then_arm else_arm) =
    identifiers test ++ (identifiers then_arm ++ identifiers else_arm)
identifiers _ = []

abbrev pub binders : Expression → List Symbol
binders (exp_let _ _ id value body) = id ∷ (binders value ++ binders body)
binders (exp_binary _ _ operator left right) = binders left ++ binders right
binders (exp_unary _ _ operator arg) = binders arg
binders (exp_if _ _ test then_arm else_arm) = binders test ++ (binders then_arm ++ binders else_arm)
binders _ = []

abbrev pub Disjoint : List Symbol → List Symbol → Type 0
Disjoint xs ys = All (λ y. All (λ x. x ≢ y) xs) ys

-- Whether the value comes to stand in a register that belongs to no name.
abbrev pub own_register : Expression → Bool
own_register (exp_identifier _ _ _) = false
own_register (exp_let _ _ _ _ body) = own_register body
own_register (exp_if _ _ _ then_arm _) = own_register then_arm
own_register _ = true

-- No name is used behind a scope in which it was bound, and no `if` has a name for its first arm.
abbrev pub IsApart : Expression → Type 0
IsApart (exp_integer_constant _ _ _) = Unit
IsApart (exp_true _ _) = Unit
IsApart (exp_false _ _) = Unit
IsApart (exp_identifier _ _ _) = Unit
IsApart (exp_let _ _ id value body) =
    IsApart value × IsApart body × Disjoint (binders value) (identifiers body)
IsApart (exp_binary _ _ operator left right) =
    IsApart left × IsApart right × Disjoint (binders left) (identifiers right)
IsApart (exp_unary _ _ operator arg) = IsApart arg
IsApart (exp_if _ _ test then_arm else_arm) =
    IsApart test
    × IsApart then_arm
    × IsApart else_arm
    × (own_register then_arm ≡ true)
    × Disjoint (binders test) (identifiers then_arm ++ identifiers else_arm)
    × Disjoint (binders then_arm) (identifiers else_arm)
IsApart _ = ⊥
