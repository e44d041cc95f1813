-- ===== src/Parser/Productions.antt =====
-- What is left behind a production, followed through the shapes in which productions are written.
use millie.Prelude.{ℕ, suc, ◌≤◌, ◌≡◌, refl, Bool, true, false, Option, none, some, ◌>>=◌, arith}
use millie.Token.{TokenType}
use millie.Ast.{Symbol, Expression}
use millie.Parser.{ParseContext, Match, prev_token_struct, check}
use millie.Parser.Remaining.{
  remaining, Good, Passed, Matches, taken, other, checked, Moves, moves, Names, names,
}

module _ {Table : Type 0} where
  -- A production returns, and at most `n` tokens are left behind it.
  pub data Parses (n : ℕ) : Option (Expression × ParseContext Table) → Type 0 where
    parses :
        (e : Expression) (c : ParseContext Table)
        → Good c
        → remaining c ≤ n
        → Parses n (some (e, c))

  pub Parses-bind :
      {n m : ℕ} {o : Option (Expression × ParseContext Table)}
      (k : Expression × ParseContext Table → Option (Expression × ParseContext Table))
      → Parses n o
      → ((e : Expression) (c : ParseContext Table) → Good c → remaining c ≤ n → Parses m (k (e, c)))
      → Parses m (o >>= k)
  Parses-bind k (parses e c g h) f = f e c g h

  pub Parses-later :
      {n m : ℕ} {o : Option (Expression × ParseContext Table)} → n ≤ m → Parses n o → Parses m o
  Parses-later le (parses e c g h) = parses e c g (omega (arith, le, h))

  pub Parses-Moves :
      {n m : ℕ} {o : Option (ParseContext Table)}
      (k : ParseContext Table → Option (Expression × ParseContext Table))
      → Moves n o
      → ((c : ParseContext Table) → Good c → remaining c ≤ n → Parses m (k c))
      → Parses m (o >>= k)
  Parses-Moves k (moves c g h) f = f c g h

  pub Parses-Names :
      {n m : ℕ} {o : Option (Symbol × ParseContext Table)}
      (k : Symbol × ParseContext Table → Option (Expression × ParseContext Table))
      → Names n o
      → ((symbol : Symbol) (c : ParseContext Table)
          → Good c
          → remaining c ≤ n
          → Parses m (k (symbol, c)))
      → Parses m (o >>= k)
  Parses-Names k (names symbol c g h) f = f symbol c g h

  -- The operator that has been passed.
  pub Parses-operator :
      {n : ℕ} (c : ParseContext Table) (k : TokenType → Option (Expression × ParseContext Table))
      → Passed c
      → ((operator : TokenType) → Parses n (k operator))
      → Parses n ((prev_token_struct c >>= λ t. some t.type) >>= k)
  Parses-operator c k (t, prev, _) f = rw prev (f t.type)

  -- The two cases of a match.
  pub Parses-match :
      {c : ParseContext Table} {N : Type 0} {n : ℕ} {o : Match Table}
      {k : ParseContext Table → Option (Expression × ParseContext Table)}
      {z : Option (Expression × ParseContext Table)}
      → Matches c N o
      → ((c' : ParseContext Table)
          → Good c'
          → suc (remaining c') ≤ remaining c
          → Passed c'
          → Parses n (k c'))
      → (N → Parses n z)
      → Parses n (o >>= λ m. elim m [ some c' ↦ k c' | none ↦ z ])
  Parses-match (taken c' g less prev) f z = f c' g less prev
  Parses-match (other absent) f z = z absent

  pub Parses-elim :
      {n : ℕ} (b : Bool) {x y : Option (Expression × ParseContext Table)}
      → (b ≡ true → Parses n x)
      → (b ≡ false → Parses n y)
      → Parses n (elim b [ true ↦ x | false ↦ y ])
  Parses-elim true f g = f refl
  Parses-elim false f g = g refl

  pub Parses-check :
      {n : ℕ} (c : ParseContext Table) (t : TokenType)
      {x y : Option (Expression × ParseContext Table)}
      → Good c
      → (check c t ≡ some true → Parses n x)
      → (check c t ≡ some false → Parses n y)
      → Parses n (check c t >>= λ b. elim b [ true ↦ x | false ↦ y ])
  Parses-check {n} c t {x} {y} g f z = let (b, e, _) = checked c t g in go (check c t) b e f z
    where
      go :
          (o : Option Bool) (b : Bool)
          → o ≡ some b
          → (o ≡ some true → Parses n x)
          → (o ≡ some false → Parses n y)
          → Parses n (o >>= λ found. elim found [ true ↦ x | false ↦ y ])
      go none b e f z = cc
      go (some true) b e f z = f refl
      go (some false) b e f z = z refl
