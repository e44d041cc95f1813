-- ===== src/Lexer/Cases.antt =====
-- What a case of the switch in lexer.c may do, and the characters that choose it.
use millie.Prelude.{
  ℕ, ◌<◌, ◌≡◌, ◌≢◌, refl, subst, Bool, true, false, List, [], ◌∷◌, Option, none, some, arith, ◌==◌,
  if◌then◌else◌, All, ==_iff,
}
use millie.Lexer.Round.{Plain, spelling, Spells, Moves}
use millie.Token.{
  TokenType, tok_lparen, tok_plus, tok_minus, tok_rparen, tok_star, tok_slash, tok_comma,
}
use millie.Lexer.{
  Bytes, KeywordToken, LexState, is_identifier_character, is_identifier_start, further, keywords_of,
  starts_keyword, comment_length, punctuation, is_blank,
}
use millie.Lexer.Keywords.{IsWord}

-- What a case of the switch may do.
abbrev pub Goes : LexState → Option (Bool × LexState) → Type 0
Goes s none = Unit
Goes s (some (_, s')) = Moves s s'

pub Goes-if :
    (b : Bool) (s : LexState) (x y : Option (Bool × LexState))
    → (b ≡ true → Goes s x)
    → (b ≡ false → Goes s y)
    → Goes s (if b then x else y)
Goes-if true s x y h k = h refl
Goes-if false s x y h k = k refl

pub is_blank-ne-newline : (c : ℕ) → is_blank c ≡ true → c ≢ b'\n'
is_blank-ne-newline c h = ground arith

pub starts_keyword-character : (c : ℕ) → starts_keyword c ≡ true → is_identifier_character c ≡ true
unfolding is_identifier_character
starts_keyword-character c h = ground arith

pub start-character : (c : ℕ) → is_identifier_start c ≡ true → is_identifier_character c ≡ true
unfolding is_identifier_start is_identifier_character
start-character c h = ground arith

pub punctuation-ne-newline : (c : ℕ) (t : TokenType) → punctuation c ≡ some t → c ≢ b'\n'
punctuation-ne-newline c t h = ground arith

some-if :
    (P : TokenType → Type 0) (b : Bool) (u : TokenType) (r : Option TokenType)
    → (b ≡ true → P u)
    → ((t : TokenType) → r ≡ some t → P t)
    → (t : TokenType) → (if b then some u else r) ≡ some t
    → P t
some-if P true u r h k t e = let same : u ≡ t = cc in subst P same (h refl)
some-if P false u r h k t e = k t e

pub punctuation-Spells : (c : ℕ) (t : TokenType) → punctuation c ≡ some t → Spells t (c ∷ [])
unfolding spelling
punctuation-Spells c =
    let P = λ (t : TokenType). Spells t (c ∷ []) in
    some-if P (c == b'(') tok_lparen _ (λ e. rw ((==_iff c _).0 e))
      (some-if P (c == b')') tok_rparen _ (λ e. rw ((==_iff c _).0 e))
        (some-if P (c == b'+') tok_plus _ (λ e. rw ((==_iff c _).0 e))
          (some-if P (c == b'-') tok_minus _ (λ e. rw ((==_iff c _).0 e))
            (some-if P (c == b'*') tok_star _ (λ e. rw ((==_iff c _).0 e))
              (some-if P (c == b'/') tok_slash _ (λ e. rw ((==_iff c _).0 e))
                (some-if P (c == b',') tok_comma none (λ e. rw ((==_iff c _).0 e)) (λ t e. cc)))))))

abbrev AreWords : List KeywordToken → Type 0
AreWords kws = All IsWord kws

choice :
    (Q : List KeywordToken → Type 0) (test : Bool) {kws kws' : List KeywordToken}
    → Q kws
    → Q kws'
    → Q (if test then kws else kws')
choice Q true first other = first
choice Q false first other = other

pub keywords_of-IsWord : (c : ℕ) → AreWords (keywords_of c)
unfolding spelling
keywords_of-IsWord c =
    choice AreWords (c == b'e') ((omega arith, omega arith, refl), tt)
      (choice AreWords (c == b'f')
        ((omega arith, omega arith, refl), ((omega arith, omega arith, refl), tt))
        (choice AreWords (c == b'i')
          ((omega arith, omega arith, refl), ((omega arith, omega arith, refl), tt))
          (choice AreWords (c == b'l') ((omega arith, omega arith, refl), tt)
            (choice AreWords (c == b'r') ((omega arith, omega arith, refl), tt)
              ((omega arith, omega arith, refl), ((omega arith, omega arith, refl), tt))))))

pub further-Plain :
    (c n : ℕ) (cs : Bytes) (r : Option ℕ)
    → ((m : ℕ) → r ≡ some m → Plain m cs)
    → (if c == b'\n' then some 0 else further r) ≡ some n
    → Plain n (c ∷ cs) × (c ≢ b'\n' → 0 < n)
further-Plain c n cs none ih h = ground arith
further-Plain c n cs (some m) ih h = ground (arith, ih m refl)

pub comment_length-Plain : (cs : Bytes) (n : ℕ) → comment_length cs ≡ some n → Plain n cs
unfolding comment_length
comment_length-Plain [] n h = cc
comment_length-Plain (c ∷ cs) n h =
    (further-Plain c n cs (comment_length cs) (λ m. comment_length-Plain cs m) h).0
