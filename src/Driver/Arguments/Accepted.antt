-- ===== src/Driver/Arguments/Accepted.antt =====
-- The settings that an accepted command line gives, against a description of its arguments.
use millie.Prelude.{
  ℕ, ◌≡◌, refl, sym, ap, subst, ◌∙◌, inl, inr, Bool, Bool-cases, true, false, ◌||◌, List, [], ◌∷◌,
  ◌++◌, Option, none, some, ◌==◌, if◌then◌else◌, arith,
}
use millie.Lexer.{Bytes}
use millie.Driver.{bytes}
use millie.Driver.Arguments.{
  Settings, Reading, go_on, usage, rejected, and_read, same, short_switch, short_switches,
  starts_with_dash, read_switch, read_file_name, read_argument, read_arguments, no_settings,
}
use millie.Driver.Arguments.Asks.{
  has, asks, any_asks, file_names, names_of, Makes, or_false, go_on-injective, Makes-trans,
  Makes-refl, Makes-type, Makes-verbose, Makes-go_on, same_eq,
}

and_read-cases :
    (r : Reading) (f : Settings → Reading) {s : Settings}
    → and_read r f ≡ go_on s
    → (s' : Settings) × (r ≡ go_on s') × (f s' ≡ go_on s)
and_read-cases (go_on s') f h = (s', refl, h)
and_read-cases usage f h = cc
and_read-cases rejected f h = cc

short_switch-Makes :
    (c : ℕ) (s : Settings) {s' : Settings}
    → short_switch c s ≡ go_on s'
    → Makes [] (c == b't') (c == b'v') s s'
short_switch-Makes c s h = elim (Bool-cases (c == b't')) [
  | inl q ↦
      let other : (c == b'v') ≡ false = ground (arith, q) in
      rw (q, other) (Makes-go_on (Makes-type s) (rw q at h))
  | inr q ↦ elim (Bool-cases (c == b'v')) [
    | inl r ↦ rw (q, r) (Makes-go_on (Makes-verbose s) (rw (q, r) at h))
    | inr r ↦ elim (Bool-cases ((c == b'h') || (c == b'?'))) [
      | inl u ↦ let no : usage ≡ go_on _ = rw (q, r, u) at h in cc
      | inr u ↦ let no : rejected ≡ go_on _ = rw (q, r, u) at h in cc
    ]
  ]
]

short_switches-Makes :
    (cs : Bytes) (s : Settings) {s' : Settings}
    → short_switches cs s ≡ go_on s'
    → Makes [] (has b't' cs) (has b'v' cs) s s'
unfolding short_switches
short_switches-Makes [] s h = Makes-go_on (Makes-refl s) h
short_switches-Makes (c ∷ cs) s h =
    let r = and_read-cases (short_switch c s) (short_switches cs) h in
    Makes-trans (short_switch-Makes c s r.1) (short_switches-Makes cs r.0 r.2)

if-true : {b : Bool} (x y : Reading) {z : Reading} → b ≡ true → (if b then x else y) ≡ z → x ≡ z
if-true {b} x y {z} q h = subst (λ d. (if d then x else y) ≡ z) q h

if-false : {b : Bool} (x y : Reading) {z : Reading} → b ≡ false → (if b then x else y) ≡ z → y ≡ z
if-false {b} x y {z} q h = subst (λ d. (if d then x else y) ≡ z) q h

Makes-as :
    {names : List Bytes} {t t' v v' : Bool} {s s' : Settings}
    → t' ≡ t
    → v' ≡ v
    → Makes names t v s s'
    → Makes names t' v' s s'
Makes-as p q m = rw (p, q) m

Makes-names :
    {names names' : List Bytes} {t v : Bool} {s s' : Settings}
    → names' ≡ names
    → Makes names t v s s'
    → Makes names' t v s s'
Makes-names p m = rw p m

asks-short :
    (letter c : ℕ) (long rest : Bytes)
    → (c == b'-') ≡ true
    → starts_with_dash rest ≡ false
    → asks letter long (c ∷ rest) ≡ has letter rest
asks-short letter c long rest dash one = rw (dash, one) refl

read_switch-Makes :
    (c : ℕ) (rest : Bytes) (s : Settings) {s' : Settings}
    → (c == b'-') ≡ true
    → read_switch (c ∷ rest) rest s ≡ go_on s'
    → Makes []
        (asks b't' (bytes "--print-type") (c ∷ rest))
        (asks b'v' (bytes "--verbose") (c ∷ rest))
        s
        s'
unfolding read_switch
read_switch-Makes c rest s {s'} dash h = elim (Bool-cases (same (c ∷ rest) (bytes "--verbose"))) [
  | inl q ↦
      let e = same_eq (c ∷ rest) (bytes "--verbose") q in
      Makes-as (ap (asks b't' (bytes "--print-type")) e) (ap (asks b'v' (bytes "--verbose")) e)
        (Makes-go_on (Makes-verbose s) (if-true _ _ q h))
  | inr q ↦ elim (Bool-cases (same (c ∷ rest) (bytes "--print-type"))) [
    | inl r ↦
        let e = same_eq (c ∷ rest) (bytes "--print-type") r in
        Makes-as (ap (asks b't' (bytes "--print-type")) e) (ap (asks b'v' (bytes "--verbose")) e)
          (Makes-go_on (Makes-type s) (if-true _ _ r (if-false _ _ q h)))
    | inr r ↦ others (if-false _ _ r (if-false _ _ q h))
  ]
]
  where
    others :
        (if same (c ∷ rest) (bytes "--help")
            then usage
            else if starts_with_dash rest
            then rejected
            else short_switches rest s)
          ≡ go_on s'
        → Makes []
            (asks b't' (bytes "--print-type") (c ∷ rest))
            (asks b'v' (bytes "--verbose") (c ∷ rest))
            s
            s'
    others k = elim (Bool-cases (same (c ∷ rest) (bytes "--help"))) [
      | inl u ↦ let no = if-true _ _ u k in cc
      | inr u ↦ elim (Bool-cases (starts_with_dash rest)) [
        | inl w ↦ let no = if-true _ _ w (if-false _ _ u k) in cc
        | inr w ↦
            Makes-as (asks-short b't' c (bytes "--print-type") rest dash w)
              (asks-short b'v' c (bytes "--verbose") rest dash w)
              (short_switches-Makes rest s (if-false _ _ w (if-false _ _ u k)))
      ]
    ]

read_file_name-Makes :
    (arg : Bytes) (s : Settings) {s' : Settings}
    → read_file_name arg s ≡ go_on s'
    → Makes (arg ∷ []) false false s s'
read_file_name-Makes arg s {s'} h = first s.fname refl h
  where
    first :
        (name : Option Bytes)
        → s.fname ≡ name
        → (elim name [ some _ ↦ rejected | none ↦ go_on (record s { fname = some arg }) ])
          ≡ go_on s'
        → Makes (arg ∷ []) false false s s'
    first none e k =
        Makes-go_on
          (record {
            named = sym (ap (λ o. names_of o ++ (arg ∷ [])) e);
            typed = or_false s.print_type;
            spoken = or_false s.verbose;
          })
          k
    first (some _) e k = cc

read_argument-Makes :
    (arg : Bytes) (s : Settings) {s' : Settings}
    → read_argument arg s ≡ go_on s'
    → Makes
        (file_names (arg ∷ []))
        (asks b't' (bytes "--print-type") arg)
        (asks b'v' (bytes "--verbose") arg)
        s
        s'
unfolding read_argument
read_argument-Makes [] s h = read_file_name-Makes [] s h
read_argument-Makes (c ∷ rest) s h = elim (Bool-cases (c == b'-')) [
  | inl q ↦ Makes-names (no_name q) (read_switch-Makes c rest s q (if-true _ _ q h))
  | inr q ↦ rw q (read_file_name-Makes (c ∷ rest) s (if-false _ _ q h))
]
  where
    no_name : (c == b'-') ≡ true → file_names ((c ∷ rest) ∷ []) ≡ []
    no_name q = rw q refl

file_names-cons :
    (arg : Bytes) (args : List Bytes)
    → file_names (arg ∷ args) ≡ file_names (arg ∷ []) ++ file_names args
file_names-cons arg args = elim (Bool-cases (starts_with_dash arg)) [
  | inl q ↦ rw q refl
  | inr q ↦ rw q refl
]

read_arguments-Makes :
    (args : List Bytes) (s : Settings) {s' : Settings}
    → read_arguments args s ≡ go_on s'
    → Makes
        (file_names args)
        (any_asks b't' (bytes "--print-type") args)
        (any_asks b'v' (bytes "--verbose") args)
        s
        s'
      × (name : Bytes) × (s'.fname ≡ some name)
unfolding read_arguments
read_arguments-Makes [] s {s'} h = named s.fname refl h
  where
    named :
        (name : Option Bytes)
        → s.fname ≡ name
        → (elim name [ none ↦ rejected | some _ ↦ go_on s ]) ≡ go_on s'
        → Makes [] false false s s' × (name : Bytes) × (s'.fname ≡ some name)
    named none e k = cc
    named (some name) e k = (
      Makes-go_on (Makes-refl s) k,
      name,
      ap (λ (x : Settings). x.fname) (sym (go_on-injective k)) ∙ e,
    )
read_arguments-Makes (arg ∷ args) s h =
    let r = and_read-cases (read_argument arg s) (read_arguments args) h in
    let others = read_arguments-Makes args r.0 r.2 in
    (
      Makes-names (file_names-cons arg args) (Makes-trans (read_argument-Makes arg s r.1) others.0),
      others.1,
      others.2,
    )

-- When `main` goes on with the settings of a command line, exactly one of the arguments begins with
-- no dash, and it is the file name; the type is printed if an argument is `--print-type` or has a
-- `t` behind a single dash, and more is printed if one is `--verbose` or has a `v` there.
pub read_arguments-described :
    (args : List Bytes) (s : Settings)
    → read_arguments args no_settings ≡ go_on s
    → (name : Bytes) × (file_names args ≡ name ∷ [])
      × (s.fname ≡ some name)
      × (s.print_type ≡ any_asks b't' (bytes "--print-type") args)
      × (s.verbose ≡ any_asks b'v' (bytes "--verbose") args)
read_arguments-described args s h =
    let (m, name, e) = read_arguments-Makes args no_settings h in
    (name, sym m.named ∙ ap names_of e, e, m.typed, m.spoken)
