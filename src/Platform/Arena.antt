-- ===== src/Platform/Arena.antt =====
-- Arenas: where allocations come to lie. `ArenaAllocate` takes the used part of a block for the
-- part that remains.
use millie.Prelude.{
  ℕ, ◌+◌, ◌-◌, ◌%◌, ◌≤◌, ◌<◌, ◌≡◌, ◌≢◌, inl, inr, ap, false, [], ◌∷◌, some, ltb, ◌==◌,
  if◌then◌else◌, arith, Bool-cases,
}
use millie.Platform.{Arena, arena_size, align, place_in, arena_allocate, arena_allocated}

align_bounds : (n : ℕ) → (n ≤ align n) × (align n < n + 8) × (align n % 8 ≡ 0)
align_bounds n = elim (Bool-cases (n % 8 == 0)) [
  | inl even ↦ ground (arith, even)
  | inr odd ↦
      let up : align n ≡ n + (8 - n % 8) = ap (λ b. if b then n else n + (8 - n % 8)) odd in
      (omega (arith, up), omega (arith, up, ground_ne odd), omega (arith, up))
]
  where
    ground_ne : (n % 8 == 0) ≡ false → n % 8 ≢ 0
    ground_ne odd e = ground (arith, odd, e)

place_in-allocated :
    (start size : ℕ) (rest : Arena)
    → (start + arena_allocated rest + size ≤ arena_allocated (place_in start rest size).1)
      × (arena_allocated (place_in start rest size).1 < start + arena_allocated rest + size + 8)
unfolding arena_allocated
place_in-allocated start size rest =
    let b = align_bounds (start + size) in (omega (arith, b.0, b.1), omega (arith, b.0, b.1))

-- An allocation of at most the size of a block returns, and `ArenaAllocated` grows by its size and
-- at most seven bytes more, on any arena, whether or not a new block is begun.
pub arena_allocate-allocated :
    (arena : Arena) (size : ℕ)
    → size ≤ arena_size
    → (place : ℕ) × (arena' : Arena) × (arena_allocate arena size ≡ some (place, arena'))
      × (arena_allocated arena + size ≤ arena_allocated arena')
      × (arena_allocated arena' < arena_allocated arena + size + 8)
unfolding arena_allocate arena_allocated
arena_allocate-allocated [] size small =
    let p = place_in-allocated 0 size [] in
    (0, (place_in 0 [] size).1, ground (arith, small), omega (arith, p.0), omega (arith, p.1))
arena_allocate-allocated (start ∷ rest) size small = elim (Bool-cases (ltb start size)) [
  | inl begin ↦
      let p = place_in-allocated 0 size (start ∷ rest) in
      (
        0,
        (place_in 0 (start ∷ rest) size).1,
        ground (arith, small, begin),
        omega (arith, p.0),
        omega (arith, p.1),
      )
  | inr stay ↦
      let p = place_in-allocated start size rest in
      (
        start,
        (place_in start rest size).1,
        ground (arith, small, stay),
        omega (arith, p.0),
        omega (arith, p.1),
      )
]

-- Two allocations of one size from a fresh arena, where a block has room for one of them and not for
-- both: both return, and the memory of the second ends behind the block.
pub arena_allocate-overrun :
    (size : ℕ)
    → size ≤ arena_size
    → arena_size < size + size
    → (first second : ℕ) × (arena arena' : Arena) × (arena_allocate [] size ≡ some (first, arena))
      × (arena_allocate arena size ≡ some (second, arena'))
      × (arena_size < second + size)
unfolding arena_allocate
arena_allocate-overrun size small twice =
    let start = align (0 + size) in
    let b = align_bounds (0 + size) in
    (
      0,
      start,
      start ∷ [],
      align (start + size) ∷ [],
      ground (arith, small),
      ground (arith, small, b.0),
      omega (arith, b.0, twice),
    )
