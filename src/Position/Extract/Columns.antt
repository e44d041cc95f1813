-- ===== src/Position/Extract/Columns.antt =====
-- A position's column leads to its byte in its line.
use millie.Prelude.{
  ℕ, zero, suc, ◌+◌, ◌<◌, ◌^◌, ◌≡◌, refl, ap, ◌∙◌, inl, inr, Bool-cases, false, List, [], ◌∷◌, some,
  arith, ◌==◌, if◌then◌else◌, length, get_elem?,
}
use mathlib.Core.Option.{some-injective}
use mathlib.Core.Path.{ap₂}
use millie.Errors.{Errors}
use millie.Token.{MillieTokens}
use millie.Lexer.{Bytes, lex_buffer}
use millie.Position.{get_line_column_for_position}
use millie.Position.Walk.{walk, get_line_column-walk}
use millie.Position.Extract.{extract_line}
use millie.Position.Extract.Cut.{onto, ended_lines}
use millie.Position.Extract.Lines.{line_of, extract_line-line_of}

-- `a` in the first line, and `b` in the others.
abbrev first_or : {A : Type 0} → ℕ → A → A → A
first_or zero a b = a
first_or (suc lines) a b = b

first_or-next_line :
    (lines columns : ℕ) → first_or lines 1 1 + columns ≡ first_or (suc lines) 0 1 + columns
first_or-next_line zero columns = refl
first_or-next_line (suc lines) columns = refl

first_or-next_column :
    (lines col columns : ℕ)
    → first_or lines (col + 1) 1 + columns
      ≡ first_or lines col 1 + first_or lines (suc columns) columns
first_or-next_column zero col columns = omega arith
first_or-next_column (suc lines) col columns = refl

first_or-read :
    (lines columns c : ℕ) (line : Bytes) {byte : ℕ}
    → get_elem? line columns ≡ some byte
    → get_elem? (first_or lines (c ∷ line) line) (first_or lines (suc columns) columns) ≡ some byte
first_or-read zero columns c line q = q
first_or-read (suc lines) columns c line q = q

-- Where the walk from `line` and `col` comes to: lines further on, and columns into that line.
record Placed (cs : Bytes) (n line col byte : ℕ) : Type 0 where
  lines : ℕ
  columns : ℕ
  contents : Bytes
  walked : walk cs n line col ≡ (line + lines, first_or lines col 1 + columns)
  there : get_elem? (ended_lines cs) lines ≡ some contents
  read : get_elem? contents columns ≡ some byte

onto-one :
    (c i : ℕ) (lines : List Bytes) {line : Bytes}
    → get_elem? lines i ≡ some line
    → get_elem? (onto c lines) i ≡ some (first_or i (c ∷ line) line)
onto-one c i [] q = cc
onto-one c zero (l ∷ lines) q = ap some (ap (λ x. c ∷ x) (some-injective l _ q))
onto-one c (suc i) (l ∷ lines) q = q

-- A line that a newline further on ends.
first_there :
    (cs : Bytes) (m : ℕ)
    → get_elem? cs m ≡ some b'\n'
    → (line : Bytes) × (get_elem? (ended_lines cs) 0 ≡ some line)
first_there [] m q = cc
first_there (c ∷ cs) m q = elim (Bool-cases (c == b'\n')) [
  | inl e ↦ rw e ([], refl)
  | inr e ↦ rw e (later m (λ k r. first_there cs k r) e q)
]
  where
    later :
        (m : ℕ)
        → ((k : ℕ)
            → get_elem? cs k ≡ some b'\n'
            → (line : Bytes) × (get_elem? (ended_lines cs) 0 ≡ some line))
        → (c == b'\n') ≡ false
        → get_elem? (c ∷ cs) m ≡ some b'\n'
        → (line : Bytes) × (get_elem? (onto c (ended_lines cs)) 0 ≡ some line)
    later zero ih e r = let same = some-injective c _ r in absurd (ground (arith, same, e))
    later (suc k) ih e r = let l = ih k r in (c ∷ l.0, onto-one c 0 (ended_lines cs) l.1)

placed :
    (cs : Bytes) (n m line col byte : ℕ)
    → get_elem? cs n ≡ some byte
    → (byte == b'\n') ≡ false
    → get_elem? cs m ≡ some b'\n'
    → n < m
    → Placed cs n line col byte
placed [] n m line col byte q e r h = cc
placed (c ∷ cs) n zero line col byte q e r h = absurd (omega (arith, h))
placed (c ∷ cs) zero (suc m) line col byte q e r h =
    let same = some-injective c byte q in
    let plain : (c == b'\n') ≡ false = ap (λ x. x == b'\n') same ∙ e in
    let l = first_there cs m r in
    record {
      lines = 0;
      columns = 0;
      contents = c ∷ l.0;
      walked = ap₂ (λ (a b : ℕ). (a, b)) (omega arith) (omega arith);
      there = rw plain (onto-one c 0 (ended_lines cs) l.1);
      read = q;
    }
placed (c ∷ cs) (suc n) (suc m) line col byte q e r h = elim (Bool-cases (c == b'\n')) [
  | inl newline ↦
      let p = placed cs n m (line + 1) 1 byte q e r (omega (arith, h)) in
      record {
        lines = suc p.lines;
        columns = p.columns;
        contents = p.contents;
        walked = rw newline (
            p.walked
            ∙ ap₂ (λ (a b : ℕ). (a, b)) (omega arith) (first_or-next_line p.lines p.columns));
        there = rw newline p.there;
        read = p.read;
      }
  | inr plain ↦
      let p = placed cs n m line (col + 1) byte q e r (omega (arith, h)) in
      record {
        lines = p.lines;
        columns = first_or p.lines (suc p.columns) p.columns;
        contents = first_or p.lines (c ∷ p.contents) p.contents;
        walked =
            rw plain (
              p.walked
              ∙ ap (λ x. (line + p.lines, x)) (first_or-next_column p.lines col p.columns));
        there = rw plain (onto-one c p.lines (ended_lines cs) p.there);
        read = first_or-read p.lines p.columns c p.contents p.read;
      }
]

-- The column that `GetLineColumnForPosition` gives for a position leads to the byte at the position,
-- in the line that `ExtractLine` gives for its line. The conditions: `LexBuffer` has read the
-- text, it is shorter than 2 ^ 32, the byte is no newline, and a newline stands further on.
pub extract_line-column :
    (text : Bytes) (position m byte : ℕ) {tokens : MillieTokens} {errors : Errors}
    → lex_buffer text ≡ some (tokens, errors)
    → length text < 2 ^ 32
    → get_elem? text position ≡ some byte
    → (byte == b'\n') ≡ false
    → get_elem? text m ≡ some b'\n'
    → position < m
    → (line column : ℕ) × (contents : Bytes) × (get_line_column_for_position tokens position
        ≡ (line, column + 1))
      × (extract_line tokens line ≡ some contents)
      × (get_elem? contents column ≡ some byte)
extract_line-column text position m byte {tokens} h small q plain newline before =
    let p = placed text position m 1 1 byte q plain newline before in
    (
      suc p.lines,
      p.columns,
      p.contents,
      get_line_column-walk text position h
          ∙ p.walked
          ∙ ap₂ (λ (a b : ℕ). (a, b)) (omega arith) (first_or-one p.lines p.columns),
      extract_line-line_of text p.lines h small ∙ line_of-ended text p.lines p.there,
      p.read,
    )
  where
    first_or-one : (lines columns : ℕ) → first_or lines 1 1 + columns ≡ columns + 1
    first_or-one zero columns = omega arith
    first_or-one (suc lines) columns = omega arith

    line_of-ended :
        (text : Bytes) (i : ℕ) {contents : Bytes}
        → get_elem? (ended_lines text) i ≡ some contents
        → line_of text i ≡ some contents
    line_of-ended text i there = some_line (ended_lines text) i there
      where
        some_line :
            (lines : List Bytes) (i : ℕ) {contents : Bytes}
            → get_elem? lines i ≡ some contents
            → (if length lines == 0 then some text else get_elem? lines i) ≡ some contents
        some_line [] i q = cc
        some_line (l ∷ lines) i q =
            let some_lines : (suc (length lines) == 0) ≡ false = ground arith in rw some_lines q
