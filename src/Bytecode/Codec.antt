-- ===== src/Bytecode/Codec.antt =====
-- What the compiler writes into code, the machine reads back.
use millie.Prelude.{
  sym, ltb, Bool-cases, inl, inr, ◌-◌, ℕ, zero, suc, ◌+◌, ◌^◌, ◌<◌, ◌≡◌, refl, List, [], ◌∷◌, ◌++◌,
  some, arith, ap, get_elem?, length, length-append, ◌∙◌,
}
use millie.Bytecode.{
  Code, bytes_u8, bytes_u16, bytes_u32, bytes_u64, read_u8, read_u16, read_u32, read_u64,
}

-- Some bytes stand in code at a position.
abbrev pub At : Code → ℕ → Code → Type 0
At code ip bytes = (k : ℕ) → k < length bytes → get_elem? code (ip + k) ≡ get_elem? bytes k

pub get_elem?-append {ℓ} :
    {A : Type ℓ} (pre rest : List A) (k : ℕ)
    → get_elem? (pre ++ rest) (length pre + k) ≡ get_elem? rest k
get_elem?-append [] rest k = ap (get_elem? rest) (omega arith)
get_elem?-append (x ∷ pre) rest k =
    let next : suc (length pre) + k ≡ suc (length pre + k) = omega arith in
    rw next (get_elem?-append pre rest k)

pub get_elem?-front {ℓ} :
    {A : Type ℓ} (xs ys : List A) (k : ℕ) → k < length xs → get_elem? (xs ++ ys) k ≡ get_elem? xs k
get_elem?-front [] ys k h = absurd (omega arith)
get_elem?-front (x ∷ xs) ys zero h = refl
get_elem?-front (x ∷ xs) ys (suc k) h = get_elem?-front xs ys k (omega (arith, h))

pub At-written : (pre bytes post : Code) → At (pre ++ (bytes ++ post)) (length pre) bytes
At-written pre bytes post k h =
    get_elem?-append pre (bytes ++ post) k ∙ get_elem?-front bytes post k h

pub At-behind : (code xs ys : Code) (ip : ℕ) → At code ip (xs ++ ys) → At code (ip + length xs) ys
At-behind code xs ys ip at k h =
    let there : ip + length xs + k ≡ ip + (length xs + k) = omega arith in
    ap (get_elem? code) there
    ∙ at (length xs + k) (omega (arith, h, length-append xs ys))
    ∙ get_elem?-append xs ys k

pub At-front : (code xs ys : Code) (ip : ℕ) → At code ip (xs ++ ys) → At code ip xs
At-front code xs ys ip at k h =
    at k (omega (arith, h, length-append xs ys)) ∙ get_elem?-front xs ys k h

At-first :
    (code bytes : Code) (ip : ℕ)
    → 0 < length bytes
    → At code ip bytes
    → get_elem? code ip ≡ get_elem? bytes 0
At-first code bytes ip h at =
    let same : ip ≡ ip + 0 = omega arith in ap (get_elem? code) same ∙ at 0 h

pub At-op : (code bytes : Code) (op ip : ℕ) → At code ip (op ∷ bytes) → get_elem? code ip ≡ some op
At-op code bytes op ip at = At-first code (op ∷ bytes) ip (omega arith) at

pub At-join :
    (code xs ys : Code) (ip : ℕ)
    → At code ip xs
    → At code (ip + length xs) ys
    → At code ip (xs ++ ys)
At-join code xs ys ip at at' k h = elim (Bool-cases (ltb k (length xs))) [
  | inl t ↦
      let inside : k < length xs = ground (arith, t) in
      at k inside ∙ sym (get_elem?-front xs ys k inside)
  | inr t ↦
      let j = k - length xs in
      let from : ip + k ≡ ip + length xs + j = ground (arith, t) in
      let to : length xs + j ≡ k = ground (arith, t) in
      ap (get_elem? code) from
      ∙ at' j (ground (arith, t, h, length-append xs ys))
      ∙ sym (get_elem?-append xs ys j)
      ∙ ap (get_elem? (xs ++ ys)) to
]

module _ (code : Code) (value ip : ℕ) where
  pub read_u8-bytes : value < 2 ^ 8 → At code ip (bytes_u8 value) → read_u8 code ip ≡ some value
  unfolding read_u8
  read_u8-bytes h at = At-first code (bytes_u8 value) ip (omega arith) at ∙ ap some (omega arith)

  pub read_u16-bytes : value < 2 ^ 16 → At code ip (bytes_u16 value) → read_u16 code ip ≡ some value
  unfolding read_u16
  read_u16-bytes h at =
      rw (At-first code (bytes_u16 value) ip (omega arith) at, at 1 (omega arith))
        (ap some (omega arith))

  pub read_u32-bytes : value < 2 ^ 32 → At code ip (bytes_u32 value) → read_u32 code ip ≡ some value
  unfolding read_u32
  read_u32-bytes h at =
      rw
        (
          At-first code (bytes_u32 value) ip (omega arith) at,
          at 1 (omega arith),
          at 2 (omega arith),
          at 3 (omega arith),
        )
        (ap some (omega arith))

  -- Where the eight bytes that `_WriteCodeU64` writes for a number of 64 bits stand in code,
  -- `_ReadU64` reads that number.
  pub read_u64-bytes : value < 2 ^ 64 → At code ip (bytes_u64 value) → read_u64 code ip ≡ some value
  unfolding read_u64
  read_u64-bytes h at =
      rw
        (
          At-first code (bytes_u64 value) ip (omega arith) at,
          at 1 (omega arith),
          at 2 (omega arith),
          at 3 (omega arith),
          at 4 (omega arith),
          at 5 (omega arith),
          at 6 (omega arith),
          at 7 (omega arith),
        )
        (ap some (omega arith))
