-- ===== src/Parser/Lexed.antt =====
-- lexer.c and parser.c together: the tokens of a text are tokens that the parser can walk.
use millie.Prelude.{
  ℕ, ◌≤◌, ◌≡◌, refl, subst, sym, List, [], ◌∷◌, ◌++◌, some, length, get_elem?, All, arith,
}
use millie.Token.{MillieToken, MillieTokens, tok_eof}
use millie.Errors.{Errors}
use millie.Ast.{Symbol, Expression}
use millie.Lexer.{lex_buffer}
use millie.Lexer.Output.{Reads, start, token, lex_buffer-Reads, lex_buffer-buffer}
use millie.Lexer.Total.{IsReadable, lex_buffer-total}
use millie.Parser.{Bytes, ParseContext}
use millie.Parser.Grammar.{parse_expression}
use millie.Parser.Remaining.{IsInText, Inside}
use millie.Parser.Total.{parse_expression-total}

All-append :
    {A : Type 0} (P : A → Type 0) (xs : List A) (x : A) → All P xs → P x → All P (xs ++ (x ∷ []))
All-append P [] x h p = (p, tt)
All-append P (y ∷ xs) x h p = (h.0, All-append P xs x h.1 p)

get_elem?-append_last :
    {A : Type 0} (xs : List A) (x : A) → get_elem? (xs ++ (x ∷ [])) (length xs) ≡ some x
get_elem?-append_last [] x = refl
get_elem?-append_last (y ∷ xs) x = get_elem?-append_last xs x

Reads-All :
    (text : Bytes) (ts : List MillieToken) (hi : ℕ)
    → Reads text 0 ts hi
    → hi ≤ length text
    → All (IsInText text) ts
Reads-All text _ hi (start _) h = tt
Reads-All text _ hi (token {ts} {mid} r t pos n _ above _ fits spells) h =
    All-append (IsInText text) ts _ (Reads-All text ts mid r (omega (arith, above, fits, h)))
      (omega (arith, fits, h))

lex_buffer-Inside :
    (text : Bytes) {tokens : MillieTokens} {errors : Errors}
    → lex_buffer text ≡ some (tokens, errors)
    → Inside tokens.token_array tokens.buffer 0
lex_buffer-Inside text {tokens} h =
    let (ts, e, r) = lex_buffer-Reads text h in
    let end : MillieToken = record { type = tok_eof; start = length text; length = 0 } in
    subst (λ b. Inside tokens.token_array b 0) (sym (lex_buffer-buffer text h))
      (subst (λ a. Inside a text 0) (sym e)
        (record {
          last = length ts;
          end = end;
          ends = get_elem?-append_last ts end;
          is_end = refl;
          in_text =
              All-append (IsInText text) ts end (Reads-All text ts (length text) r (omega arith))
                (omega arith);
          within = omega arith;
        }))

-- A text with no NUL byte in which a newline stands behind every `#` is lexed, and what `LexBuffer`
-- makes of it is parsed to a tree, with nothing read outside of the text and of the tokens,
-- whatever the text says and whatever the symbol table does.
pub parse_expression-lex_buffer :
    {Table : Type 0} (find_or_create_symbol : Table → Bytes → Symbol × Table) (table : Table)
    (text : Bytes)
    → IsReadable text
    → (tokens : MillieTokens) × (errors : Errors) × (lex_buffer text ≡ some (tokens, errors))
      × (e : Expression) × (c : ParseContext Table) × (parse_expression find_or_create_symbol tokens
            table errors
          ≡ some (e, c))
parse_expression-lex_buffer find_or_create_symbol table text readable =
    let (tokens, errors, lexed) = lex_buffer-total text readable in
    let (e, c, parsed) =
      parse_expression-total find_or_create_symbol tokens table errors
        (lex_buffer-Inside text lexed) in
    (tokens, errors, lexed, e, c, parsed)
