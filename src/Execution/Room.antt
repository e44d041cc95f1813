-- ===== src/Execution/Room.antt =====
-- compiler.c: the parts of compiling that return where a block has room.
use millie.Typecheck.Reported.{InRange}
use millie.Prelude.{
  ℕ, zero, suc, ◌+◌, ◌≤◌, ◌<◌, ◌≡◌, refl, ltb, ◌==◌, true, if◌then◌else◌, List, [], ◌∷◌, ◌++◌,
  Option, none, some, get_elem?, length, arith, ap, ◌∙◌, ◌>>=◌, Bool-cases, inl, inr, holds,
  length-append, get_elem?-in_range,
}
use Prim.Native.String.{String}
use millie.Compiler.Stability.{write_immediate-writes, write_operator-writes}
use millie.Ast.{Symbol, Expression, exp_let, exp_if, exp_binary, exp_unary, start_token, end_token}
use millie.Bytecode.{Opcode, op_mov}
use millie.Compiler.Context.{
  CompileBinding, CompileContext, write_code_u8, write_code_u16, get_free_int_register, symbol_room,
}
use millie.Compiler.Emit.{
  find_binding, find_closure, closure_offset, write_closure_load, write_immediate,
}
use millie.Compiler.Expressions.{
  write_two, write_operator, Operation, known, unsupported, find_operation,
}
use millie.Compiler.Growth.{Extends}
use millie.Compiler.Invariant.{Keeps}

abbrev pub deeper : ℕ → ℕ → ℕ
deeper a b = if ltb a b then b else a

pub deeper-ge : (a b : ℕ) → (a ≤ deeper a b) × (b ≤ deeper a b)
deeper-ge a b = ground arith

-- How many scopes are open at once: the body of a `let` lies in its scope, and its value does not.
abbrev pub nesting : Expression → ℕ
nesting (exp_let _ _ id value body) = deeper (nesting value) (suc (nesting body))
nesting (exp_binary _ _ operator left right) = deeper (nesting left) (nesting right)
nesting (exp_unary _ _ operator arg) = nesting arg
nesting (exp_if _ _ test then_arm else_arm) =
    deeper (nesting test) (deeper (nesting then_arm) (nesting else_arm))
nesting _ = 0

-- A result, with the module and the tokens as before and at most `n` more symbols in the closure.
pub data Returns (n : ℕ) (c : CompileContext) : Option (ℕ × CompileContext) → Type 0 where
  returns :
      (r : ℕ × CompileContext)
      → r.1.module_ ≡ c.module_
      → r.1.tokens ≡ c.tokens
      → length r.1.closure_symbols ≤ length c.closure_symbols + n
      → Returns n c (some r)

get_elem?-inside {ℓ} :
    {A : Type ℓ} (xs : List A) (i : ℕ) → i < length xs → (a : A) × (get_elem? xs i ≡ some a)
get_elem?-inside [] i h = absurd (omega (arith, h))
get_elem?-inside (x ∷ xs) zero h = (x, refl)
get_elem?-inside (x ∷ xs) (suc i) h = get_elem?-inside xs i (omega (arith, h))

pub find_binding-returns :
    (bs : List CompileBinding) (n : ℕ) (id : Symbol)
    → n < length bs
    → (found : Option ℕ) × (find_binding bs n id ≡ some found)
unfolding find_binding
find_binding-returns bs zero id h =
    let b = get_elem?-inside bs 0 h in
    (if b.0.symbol == id then some b.0.reg else none, rw b.1 refl)
find_binding-returns bs (suc n) id h =
    let b = get_elem?-inside bs (suc n) h in
    let rest = find_binding-returns bs n id (omega (arith, h)) in
    elim (Bool-cases (b.0.symbol == id)) [
      | inl t ↦ (some b.0.reg, rw (b.1, t) refl)
      | inr t ↦ (rest.0, rw (b.1, t) rest.1)
    ]

-- The module, the closure's symbols and the tokens are not touched.
abbrev pub Quiet : CompileContext → CompileContext → Type 0
Quiet c c' =
    (c'.module_ ≡ c.module_) × (c'.closure_symbols ≡ c.closure_symbols) × (c'.tokens ≡ c.tokens)

pub write_immediate-Quiet : (c : CompileContext) (v : ℕ) → Quiet c (write_immediate c v)
write_immediate-Quiet c v = write_immediate-writes (Quiet c) c v λ code capacity. (refl, refl, refl)

pub write_operator-Quiet :
    (c : CompileContext) (error : String) (o : Operation) → Quiet c (write_operator c error o)
write_operator-Quiet c error o =
    write_operator-writes (Quiet c) c error o λ code capacity errors. (refl, refl, refl)

pub move-Quiet :
    (a b : ℕ) (c : CompileContext) → Quiet c (if a == b then c else write_two c op_mov a b)
unfolding write_two write_code_u8
move-Quiet a b c = elim (Bool-cases (a == b)) [
  | inl e ↦ rw e (refl, refl, refl)
  | inr e ↦ rw e (refl, refl, refl)
]

pub quiet :
    (n : ℕ) (c : CompileContext) (r : ℕ × CompileContext) → Quiet c r.1 → Returns n c (some r)
quiet n c r q = returns r q.0 q.2 (omega (arith, ap length q.1))

-- A part that returns, and what goes on behind it.
pub Returns-bind :
    {n k : ℕ} {c : CompileContext} {o : Option (ℕ × CompileContext)}
    (f : ℕ × CompileContext → Option (ℕ × CompileContext))
    → Returns n c o
    → Keeps c o
    → ((r : ℕ × CompileContext)
        → Extends c r.1
        → r.1.tokens ≡ c.tokens
        → length r.1.closure_symbols ≤ length c.closure_symbols + n
        → Returns k r.1 (f r))
    → Returns (n + k) c (o >>= f)
Returns-bind {n} {k} {c} f (returns r p t q) (holds x) g = go (g r x t q)
  where
    go : {o : Option (ℕ × CompileContext)} → Returns k r.1 o → Returns (n + k) c o
    go (returns r' p' t' q') = returns r' (p' ∙ p) (t' ∙ t) (omega (arith, q, q'))

pub Returns-more :
    {n k : ℕ} {c : CompileContext} {o : Option (ℕ × CompileContext)}
    → n ≤ k
    → Returns n c o
    → Returns k c o
Returns-more le (returns r p t q) = returns r p t (omega (arith, le, q))

pub closure_offset-Returns :
    (c : CompileContext) (id : Symbol)
    → length c.closure_symbols + 1 ≤ symbol_room
    → Returns 1 c (closure_offset c id)
unfolding closure_offset
closure_offset-Returns c id fits = go (find_closure c.closure_symbols id)
  where
    grown : CompileContext
    grown = record c { closure_symbols = c.closure_symbols ++ id ∷ [] }

    go :
        (o : Option ℕ)
        → Returns 1 c (elim o [
          | some offset ↦ some (offset, c)
          | none ↦
              if ltb (length c.closure_symbols) symbol_room
              then some (length c.closure_symbols, grown)
              else none
        ])
    go (some offset) = quiet 1 c (offset, c) (refl, refl, refl)
    go none =
        let has_room : ltb (length c.closure_symbols) symbol_room ≡ true = ground (arith, fits) in
        rw has_room (
          returns (length c.closure_symbols, grown) refl refl
            (omega (arith, length-append c.closure_symbols (id ∷ []))))

pub load :
    {c : CompileContext} {o : Option (ℕ × CompileContext)}
    → Returns 1 c o
    → Returns 1 c (o >>= λ r. some (write_closure_load r.1 r.0))
unfolding write_closure_load write_code_u8 write_code_u16 get_free_int_register
load (returns r p t q) = returns (write_closure_load r.1 r.0) p t q

-- For an expression whose tokens are there, a report can be written.
pub find_operation-returns :
    (c : CompileContext) (e : Expression) (found : Option Opcode)
    → InRange c.tokens (start_token e) (end_token e)
    → (o : Operation) × (find_operation c e found ≡ some o)
unfolding find_operation
find_operation-returns c e (some op) h = (known op, refl)
find_operation-returns c e none h =
    let (first, at) = get_elem?-in_range c.tokens (start_token e) h.0 in
    let (last, at') = get_elem?-in_range c.tokens (end_token e) h.1 in
    (unsupported first last, rw (at, at') refl)
