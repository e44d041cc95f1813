-- ===== src/Execution/Patches.antt =====
-- compiler.c, `_CompileIf`: the code in which the offset of a jump has been patched.
use millie.Prelude.{
  ℕ, ◌+◌, ◌-◌, ◌≤◌, ◌<◌, ◌≡◌, ◌++◌, length, take, drop, get_elem?, arith, ap, sym, subst, ◌∙◌,
  append_assoc, length-take, take-append_front, drop-append_front, get_elem?-take, get_elem?-drop,
}
use millie.Bytecode.{Code, bytes_u16}
use millie.Bytecode.Codec.{At, At-written, get_elem?-append, get_elem?-front}
use millie.Compiler.Context.{CompileContext, overwrite_u16, patch_u16}
use millie.Compiler.Stability.{length-patch_u16}
use millie.Execution.Covers.{Covers}

module _ (code : Code) (loc v : ℕ) (inside : loc + 2 ≤ length code) where
  front-length : length (take loc code) ≡ loc
  front-length = length-take loc code (omega (arith, inside))

  below : (i : ℕ) → i < loc → get_elem? (overwrite_u16 code loc v) i ≡ get_elem? code i
  below i h =
      get_elem?-front (take loc code) (bytes_u16 v ++ drop (loc + 2) code) i
        (omega (arith, h, front-length))
      ∙ get_elem?-take loc i code h

  above : (i : ℕ) → loc + 2 ≤ i → get_elem? (overwrite_u16 code loc v) i ≡ get_elem? code i
  above i h =
      let k = i - (loc + 2) in
      let from : i ≡ length (take loc code) + (2 + k) = omega (arith, h, front-length) in
      let to : loc + 2 + k ≡ i = omega (arith, h) in
      let two : 2 + k ≡ length (bytes_u16 v) + k = omega arith in
      let rest = drop (loc + 2) code in
      ap (get_elem? (overwrite_u16 code loc v)) from
      ∙ get_elem?-append (take loc code) (bytes_u16 v ++ rest) (2 + k)
      ∙ ap (get_elem? (bytes_u16 v ++ rest)) two
      ∙ get_elem?-append (bytes_u16 v) rest k
      ∙ get_elem?-drop (loc + 2) k code
      ∙ ap (get_elem? code) to

  patched_bytes : At (overwrite_u16 code loc v) loc (bytes_u16 v)
  patched_bytes =
      subst (λ n. At (overwrite_u16 code loc v) n (bytes_u16 v)) front-length
        (At-written (take loc code) (bytes_u16 v) (drop (loc + 2) code))

  pub overwrite_u16-front :
      (rest : Code) → overwrite_u16 (code ++ rest) loc v ≡ overwrite_u16 code loc v ++ rest
  overwrite_u16-front rest =
      rw
        (
          take-append_front loc code rest (omega (arith, inside)),
          drop-append_front (loc + 2) code rest inside,
        )
        (sym (append_assoc (take loc code) (bytes_u16 v ++ drop (loc + 2) code) rest))

-- What the machine's code holds, where it holds the code of `c'` with two bytes patched.
module _ {code : Code} (c c' : CompileContext) (loc v : ℕ)
    (covers : Covers code c (patch_u16 c' loc v)) (inside : loc + 2 ≤ length c'.code) where
  pub patched-front :
      (a b : CompileContext) (more : Code)
      → length c.code ≤ length a.code
      → c'.code ≡ b.code ++ more
      → length b.code ≤ loc
      → Covers code a b
  unfolding patch_u16
  patched-front a b more h e le = record {
    covered = λ i l u.
        covers.covered i (omega (arith, h, l))
          (omega (arith, u, le, inside, length-patch_u16 c' loc v inside))
        ∙ below c'.code loc v inside i (omega (arith, u, le))
        ∙ ap (λ xs. get_elem? xs i) e
        ∙ get_elem?-front b.code more i u;
  }

  pub patched-back :
      (a : CompileContext)
      → length c.code ≤ length a.code
      → loc + 2 ≤ length a.code
      → Covers code a c'
  unfolding patch_u16
  patched-back a h le = record {
    covered = λ i l u.
        covers.covered i (omega (arith, h, l)) (omega (arith, u, length-patch_u16 c' loc v inside))
        ∙ above c'.code loc v inside i (omega (arith, l, le));
  }

  pub patched-At : length c.code ≤ loc → At code loc (bytes_u16 v)
  unfolding patch_u16
  patched-At h k l =
      covers.covered (loc + k) (omega (arith, h))
        (omega (arith, l, inside, length-patch_u16 c' loc v inside))
      ∙ patched_bytes c'.code loc v inside k l
