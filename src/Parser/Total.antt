-- ===== src/Parser/Total.antt =====
-- The parser's recursion ends: the fuel that `parse_expression` gives is enough for every array of
-- tokens, no production moves back, and none reads outside of the tokens or of the text.
use millie.Prelude.{
  ℕ, zero, suc, ◌+◌, ◌-◌, ◌*◌, ◌≤◌, ◌≡◌, ◌⊎◌, true, false, Option, some, arith, refl, sym, ap, ◌∙◌,
  inl, inr, Bool, Bool-cases, leb, length, get_elem?, get_elem?-bound, take, drop, if◌then◌else◌,
}
use mathlib.Core.Bool.{false≢true}
use mathlib.Core.Option.{some-injective}
use millie.Errors.{Errors}
use millie.Token.{
  tok_id, tok_int_literal, tok_true, tok_false, tok_lparen, tok_rparen, tok_plus, tok_minus,
  tok_star, tok_slash, tok_equals, tok_arrow, tok_comma, tok_fn, tok_if, tok_then, tok_else,
  tok_let, tok_rec, tok_in, tok_eof, TokenType, same_type, MillieToken, is_primary, MillieTokens,
}
use millie.Ast.{Symbol, Expression, make_let, make_let_rec, make_integer_literal}
use millie.Parser.{Bytes, ParseContext, check, syntax_error_token, prev_pos, literal_value}
use millie.Parser.Grammar.{
  parse_int_literal, parse_identifier, parse_tuple_next, parse_tuple, parse_paren, parse_primary,
  parse_arguments, parse_application, parse_unary, parse_factors, parse_factor, parse_terms,
  parse_term, parse_comparisons, parse_comparison, parse_fn, parse_if, parse_binding, parse_let,
  parse_expr, parse_expression,
}
use millie.Parser.Remaining.{
  Inside, Inside-read, remaining, Good, Passed, match_token-Matches, match_either-Matches,
  expect-Moves, syntax_error-Moves, parse_symbol-Names,
}
use millie.Parser.Productions.{
  Parses, parses, Parses-bind, Parses-later, Parses-Moves, Parses-Names, Parses-operator,
  Parses-match, Parses-elim, Parses-check,
}

module _ {Table : Type 0} (fs : Table → Bytes → Symbol × Table) where
  int_literal-Parses :
      (c : ParseContext Table) (n : ℕ)
      → Good c
      → Passed c
      → remaining c ≤ n
      → Parses n (parse_int_literal fs c)
  unfolding parse_int_literal syntax_error_token
  int_literal-Parses c n g (t, prev, in_text) le =
      let fits : leb (t.start + t.length) (length c.buffer) ≡ true = ground (arith, in_text) in
      rw (prev, fits) (literal (literal_value (take t.length (drop t.start c.buffer)) 0))
    where
      literal :
          (value : ℕ × Bool)
          → Parses n (
              some (
                make_integer_literal (prev_pos c) value.0,
                if value.1 then syntax_error_token c t "Integer literal overflow" else c,
              ))
      literal (v, true) = parses _ _ g le
      literal (v, false) = parses _ c g le

  identifier-Parses :
      (c : ParseContext Table) (n : ℕ)
      → Good c
      → remaining c ≤ suc n
      → check c tok_id ≡ some true
      → Parses n (parse_identifier fs c)
  unfolding parse_identifier
  identifier-Parses c n g le is_id =
      Parses-Names _
        (parse_symbol-Names fs c n g le
          (λ absent. absurd (false≢true (some-injective _ _ (sym absent ∙ is_id)))))
        λ symbol c' g' le'. parses _ c' g' le'

  -- A token that is not `x`.
  not_checked :
      (c : ParseContext Table) (x : TokenType) {t : MillieToken}
      → get_elem? c.tokens c.pos ≡ some t
      → check c x ≡ some false
      → (same_type t.type tok_eof ≡ true) ⊎ (same_type t.type x ≡ false)
  not_checked c x {t} at absent = elim (Bool-cases (same_type t.type tok_eof)) [
    | inl e ↦ inl e
    | inr e ↦ inr (some-injective _ _ (rw (at, e) at absent))
  ]

  nothing :
      (k : TokenType)
      → (same_type k tok_eof ≡ true) ⊎ (same_type k tok_false ≡ false)
      → (same_type k tok_eof ≡ true) ⊎ (same_type k tok_true ≡ false)
      → (same_type k tok_eof ≡ true) ⊎ (same_type k tok_int_literal ≡ false)
      → (same_type k tok_eof ≡ true) ⊎ (same_type k tok_id ≡ false)
      → (same_type k tok_eof ≡ true) ⊎ (same_type k tok_lparen ≡ false)
      → is_primary k ≡ false
  nothing k a b d e f = ground arith

  -- Where `_ParsePrimary` finds nothing to begin with, no primary begins.
  nothing-primary :
      (c : ParseContext Table) (t : MillieToken)
      → get_elem? c.tokens c.pos ≡ some t
      → check c tok_false ≡ some false
      → check c tok_true ≡ some false
      → check c tok_int_literal ≡ some false
      → check c tok_id ≡ some false
      → check c tok_lparen ≡ some false
      → is_primary t.type ≡ false
  nothing-primary c t at no_false no_true no_int no_id no_paren =
      nothing t.type (not_checked c tok_false at no_false) (not_checked c tok_true at no_true)
        (not_checked c tok_int_literal at no_int) (not_checked c tok_id at no_id)
        (not_checked c tok_lparen at no_paren)

  mutual
    unfolding parse_expr

    tuple_next-Parses :
        (f : ℕ) (first : Expression) (c : ParseContext Table)
        → Good c
        → 16 * remaining c + 13 ≤ f
        → Parses (remaining c) (parse_tuple_next fs f first c)
    tuple_next-Parses zero first c g h = absurd (omega arith)
    tuple_next-Parses (suc f) first c g h =
        Parses-bind _ (tuple-Parses f c g (omega arith)) λ e c₁ g₁ r. parses _ c₁ g₁ r

    tuple-Parses :
        (f : ℕ) (c : ParseContext Table)
        → Good c
        → 16 * remaining c + 12 ≤ f
        → Parses (remaining c) (parse_tuple fs f c)
    tuple-Parses zero c g h = absurd (omega arith)
    tuple-Parses (suc f) c g h = Parses-bind _ (expr-Parses f c g (omega arith)) λ e c₁ g₁ r.
        Parses-match (match_token-Matches c₁ tok_comma g₁)
          (λ c₂ g₂ left _. Parses-later (omega arith) (tuple_next-Parses f e c₂ g₂ (omega arith)))
          (λ _. parses _ c₁ g₁ r)

    paren-Parses :
        (f : ℕ) (c : ParseContext Table)
        → Good c
        → 16 * remaining c + 12 ≤ f
        → Parses (remaining c) (parse_paren fs f c)
    paren-Parses zero c g h = absurd (omega arith)
    paren-Parses (suc f) c g h = Parses-bind _ (expr-Parses f c g (omega arith)) λ e c₁ g₁ r.
        Parses-bind {n = remaining c} _
          (Parses-match (match_token-Matches c₁ tok_comma g₁)
            (λ c₂ g₂ left _. Parses-later (omega arith) (tuple_next-Parses f e c₂ g₂ (omega arith)))
            (λ _. parses _ c₁ g₁ r))
          λ e' c₂ g₂ r₂.
            Parses-Moves _ (expect-Moves c₂ tok_rparen "Expected a ')' after the expression." g₂)
              λ c₃ g₃ r₃. parses _ c₃ g₃ (omega arith)

    -- Strictly less is left where a primary may begin.
    primary-Parses :
        (f n : ℕ) (c : ParseContext Table)
        → Good c
        → 16 * remaining c + 1 ≤ f
        → remaining c ≤ suc n
        → ((t : MillieToken)
            → get_elem? c.tokens c.pos ≡ some t
            → is_primary t.type ≡ false
            → remaining c ≤ n)
        → Parses n (parse_primary fs f c)
    primary-Parses zero n c g h k few = absurd (omega arith)
    primary-Parses (suc f) n c g h k few =
        Parses-match (match_token-Matches c tok_false g)
          (λ c₁ g₁ left _. parses _ c₁ g₁ (omega arith))
          λ no_false.
            Parses-match (match_token-Matches c tok_true g)
              (λ c₁ g₁ left _. parses _ c₁ g₁ (omega arith))
              λ no_true.
                Parses-match (match_token-Matches c tok_int_literal g)
                  (λ c₁ g₁ left passed. int_literal-Parses c₁ n g₁ passed (omega arith))
                  λ no_int. Parses-check c tok_id g (identifier-Parses c n g k) λ no_id.
                    Parses-match (match_token-Matches c tok_lparen g)
                      (λ c₁ g₁ left _.
                        Parses-later (omega arith) (paren-Parses f c₁ g₁ (omega arith)))
                      λ no_paren.
                        let (t, at) = Inside-read g in
                        let less =
                          few t at
                            (nothing-primary c t at no_false no_true no_int no_id no_paren) in
                        Parses-Moves _ (syntax_error-Moves c "Expected an expression." g)
                          λ c₁ g₁ r. parses _ c₁ g₁ (omega (arith, r, less))

    arguments-Parses :
        (f : ℕ) (e : Expression) (c : ParseContext Table)
        → Good c
        → 16 * remaining c + 2 ≤ f
        → Parses (remaining c) (parse_arguments fs f e c)
    arguments-Parses zero e c g h = absurd (omega arith)
    arguments-Parses (suc f) e c g h =
        let (t, at) = Inside-read g in
        let some_left = get_elem?-bound c.tokens c.pos at in
        rw at (
          Parses-elim (is_primary t.type)
            (λ q.
              Parses-bind _
                (primary-Parses f (remaining c - 1) c g (omega arith) (omega (arith, some_left))
                  (λ t' at' no_primary. absurd (
                    false≢true (
                      sym no_primary
                      ∙ ap (λ (x : MillieToken). is_primary x.type)
                          (some-injective _ _ (sym at' ∙ at))
                      ∙ q))))
                λ e' c₁ g₁ r.
                  Parses-later (omega (arith, r))
                    (arguments-Parses f _ c₁ g₁ (omega (arith, r, some_left))))
            (λ q. parses e c g (omega arith)))

    application-Parses :
        (f : ℕ) (c : ParseContext Table)
        → Good c
        → 16 * remaining c + 3 ≤ f
        → Parses (remaining c) (parse_application fs f c)
    application-Parses zero c g h = absurd (omega arith)
    application-Parses (suc f) c g h =
        Parses-bind _
          (primary-Parses f (remaining c) c g (omega arith) (omega arith) (λ t at q. omega arith))
          λ e c₁ g₁ r. Parses-later r (arguments-Parses f e c₁ g₁ (omega arith))

    unary-Parses :
        (f : ℕ) (c : ParseContext Table)
        → Good c
        → 16 * remaining c + 4 ≤ f
        → Parses (remaining c) (parse_unary fs f c)
    unary-Parses zero c g h = absurd (omega arith)
    unary-Parses (suc f) c g h =
        Parses-match (match_either-Matches c tok_plus tok_minus g)
          (λ c₁ g₁ left passed. Parses-operator c₁ _ passed λ operator.
            Parses-bind _ (unary-Parses f c₁ g₁ (omega arith))
              λ e c₂ g₂ r. parses _ c₂ g₂ (omega arith))
          (λ _. application-Parses f c g (omega arith))

    factors-Parses :
        (f : ℕ) (e : Expression) (c : ParseContext Table)
        → Good c
        → 16 * remaining c + 1 ≤ f
        → Parses (remaining c) (parse_factors fs f e c)
    factors-Parses zero e c g h = absurd (omega arith)
    factors-Parses (suc f) e c g h =
        Parses-match (match_either-Matches c tok_star tok_slash g)
          (λ c₁ g₁ left passed. Parses-operator c₁ _ passed λ operator.
            Parses-bind _ (unary-Parses f c₁ g₁ (omega arith))
              λ e' c₂ g₂ r. Parses-later (omega arith) (factors-Parses f _ c₂ g₂ (omega arith)))
          (λ _. parses e c g (omega arith))

    factor-Parses :
        (f : ℕ) (c : ParseContext Table)
        → Good c
        → 16 * remaining c + 5 ≤ f
        → Parses (remaining c) (parse_factor fs f c)
    factor-Parses zero c g h = absurd (omega arith)
    factor-Parses (suc f) c g h =
        Parses-bind _ (unary-Parses f c g (omega arith))
          λ e c₁ g₁ r. Parses-later r (factors-Parses f e c₁ g₁ (omega arith))

    terms-Parses :
        (f : ℕ) (e : Expression) (c : ParseContext Table)
        → Good c
        → 16 * remaining c + 1 ≤ f
        → Parses (remaining c) (parse_terms fs f e c)
    terms-Parses zero e c g h = absurd (omega arith)
    terms-Parses (suc f) e c g h =
        Parses-match (match_either-Matches c tok_plus tok_minus g)
          (λ c₁ g₁ left passed. Parses-operator c₁ _ passed λ operator.
            Parses-bind _ (factor-Parses f c₁ g₁ (omega arith))
              λ e' c₂ g₂ r. Parses-later (omega arith) (terms-Parses f _ c₂ g₂ (omega arith)))
          (λ _. parses e c g (omega arith))

    term-Parses :
        (f : ℕ) (c : ParseContext Table)
        → Good c
        → 16 * remaining c + 6 ≤ f
        → Parses (remaining c) (parse_term fs f c)
    term-Parses zero c g h = absurd (omega arith)
    term-Parses (suc f) c g h =
        Parses-bind _ (factor-Parses f c g (omega arith))
          λ e c₁ g₁ r. Parses-later r (terms-Parses f e c₁ g₁ (omega arith))

    comparisons-Parses :
        (f : ℕ) (e : Expression) (c : ParseContext Table)
        → Good c
        → 16 * remaining c + 1 ≤ f
        → Parses (remaining c) (parse_comparisons fs f e c)
    comparisons-Parses zero e c g h = absurd (omega arith)
    comparisons-Parses (suc f) e c g h =
        Parses-match (match_token-Matches c tok_equals g)
          (λ c₁ g₁ left passed. Parses-operator c₁ _ passed λ operator.
            Parses-bind _ (term-Parses f c₁ g₁ (omega arith))
              λ e' c₂ g₂ r. Parses-later (omega arith) (comparisons-Parses f _ c₂ g₂ (omega arith)))
          (λ _. parses e c g (omega arith))

    comparison-Parses :
        (f : ℕ) (c : ParseContext Table)
        → Good c
        → 16 * remaining c + 7 ≤ f
        → Parses (remaining c) (parse_comparison fs f c)
    comparison-Parses zero c g h = absurd (omega arith)
    comparison-Parses (suc f) c g h =
        Parses-bind _ (term-Parses f c g (omega arith))
          λ e c₁ g₁ r. Parses-later r (comparisons-Parses f e c₁ g₁ (omega arith))

    fn-Parses :
        (f : ℕ) (c : ParseContext Table)
        → Good c
        → 16 * remaining c + 8 ≤ f
        → Parses (remaining c) (parse_fn fs f c)
    fn-Parses zero c g h = absurd (omega arith)
    fn-Parses (suc f) c g h =
        Parses-match (match_token-Matches c tok_fn g)
          (λ c₁ g₁ left _.
            let few : remaining c₁ ≤ suc (remaining c₁) = omega arith in
            Parses-Names _ (parse_symbol-Names fs c₁ (remaining c₁) g₁ few (λ _. omega arith))
              λ symbol c₂ g₂ r₂.
                Parses-Moves _
                  (expect-Moves c₂ tok_arrow "Expected an => between variable and function body."
                    g₂)
                  λ c₃ g₃ r₃.
                    Parses-bind _ (expr-Parses f c₃ g₃ (omega arith))
                      λ e c₄ g₄ r₄. parses _ c₄ g₄ (omega arith))
          (λ _. comparison-Parses f c g (omega arith))

    if-Parses :
        (f : ℕ) (c : ParseContext Table)
        → Good c
        → 16 * remaining c + 9 ≤ f
        → Parses (remaining c) (parse_if fs f c)
    if-Parses zero c g h = absurd (omega arith)
    if-Parses (suc f) c g h =
        Parses-match (match_token-Matches c tok_if g)
          (λ c₁ g₁ left _. Parses-bind _ (expr-Parses f c₁ g₁ (omega arith)) λ test c₂ g₂ r₂.
            Parses-Moves _ (expect-Moves c₂ tok_then "Expected 'then' after the condition." g₂)
              λ c₃ g₃ r₃. Parses-bind _ (expr-Parses f c₃ g₃ (omega arith)) λ arm c₄ g₄ r₄.
                Parses-Moves _ (expect-Moves c₄ tok_else "Expected 'else' after the 'then' arm." g₄)
                  λ c₅ g₅ r₅.
                    Parses-bind _ (expr-Parses f c₅ g₅ (omega arith))
                      λ arm' c₆ g₆ r₆. parses _ c₆ g₆ (omega arith))
          (λ _. fn-Parses f c g (omega arith))

    binding-Parses :
        (f pos : ℕ) (make : ℕ → Symbol → Expression → Expression → Expression)
        (c : ParseContext Table)
        → Good c
        → 16 * remaining c + 12 ≤ f
        → Parses (remaining c) (parse_binding fs f pos make c)
    binding-Parses zero pos make c g h = absurd (omega arith)
    binding-Parses (suc f) pos make c g h =
        let few : remaining c ≤ suc (remaining c) = omega arith in
        Parses-Names _ (parse_symbol-Names fs c (remaining c) g few (λ _. omega arith))
          λ symbol c₁ g₁ r₁.
            Parses-Moves _
              (expect-Moves c₁ tok_equals "Expected an '=' after the variable in the let." g₁)
              λ c₂ g₂ r₂. Parses-bind _ (expr-Parses f c₂ g₂ (omega arith)) λ v c₃ g₃ r₃.
                Parses-Moves _
                  (expect-Moves c₃ tok_in "Expected an 'in' after the variable value in the let."
                    g₃)
                  λ c₄ g₄ r₄.
                    Parses-bind _ (expr-Parses f c₄ g₄ (omega arith))
                      λ b c₅ g₅ r₅. parses _ c₅ g₅ (omega arith)

    let-Parses :
        (f : ℕ) (c : ParseContext Table)
        → Good c
        → 16 * remaining c + 10 ≤ f
        → Parses (remaining c) (parse_let fs f c)
    let-Parses zero c g h = absurd (omega arith)
    let-Parses (suc f) c g h =
        Parses-match (match_token-Matches c tok_let g)
          (λ c₁ g₁ left _.
            Parses-match (match_token-Matches c₁ tok_rec g₁)
              (λ c₂ g₂ left' _.
                Parses-later (omega arith) (binding-Parses f _ make_let_rec c₂ g₂ (omega arith)))
              (λ _. Parses-later (omega arith) (binding-Parses f _ make_let c₁ g₁ (omega arith))))
          (λ _. if-Parses f c g (omega arith))

    expr-Parses :
        (f : ℕ) (c : ParseContext Table)
        → Good c
        → 16 * remaining c + 11 ≤ f
        → Parses (remaining c) (parse_expr fs f c)
    expr-Parses zero c g h = absurd (omega arith)
    expr-Parses (suc f) c g h = let-Parses f c g (omega arith)

  -- `ParseExpression` returns a tree, whatever the symbol table does, and reads nothing outside of
  -- the tokens and of the text. The conditions: there is a `TOK_EOF` among the tokens,
  -- and all tokens lie in the text.
  pub parse_expression-total :
      (tokens : MillieTokens) (table : Table) (errors : Errors)
      → Inside tokens.token_array tokens.buffer 0
      → (e : Expression) × (c : ParseContext Table) × (parse_expression fs tokens table errors
          ≡ some (e, c))
  unfolding parse_expression
  parse_expression-total tokens table errors inside = result (expr-Parses _ _ inside (omega arith))
    where
      result :
          {n : ℕ} {o : Option (Expression × ParseContext Table)}
          → Parses n o
          → (e : Expression) × (c : ParseContext Table) × (o ≡ some (e, c))
      result (parses e c g r) = (e, c, refl)
