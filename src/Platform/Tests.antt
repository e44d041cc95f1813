-- ===== src/Platform/Tests.antt =====
-- Runs of arenas and array lists on small inputs.
use millie.Prelude.{ℕ, ◌+◌, ◌≤◌, ◌<◌, ◌≡◌, refl, [], ◌∷◌, none, some, ◌>>=◌, arith}
use millie.Platform.{
  Arena, arena_size, arena_allocate, arena_allocated, ArrayList, array_list_create, array_list_add,
  array_list_index,
}
use millie.Platform.Arena.{arena_allocate-allocated, arena_allocate-overrun}
use millie.Platform.Array.{
  Represents, array_list_create-Represents, array_list_add-Represents, array_list_index-Represents,
}

-- Two allocations of 1.5 MB in a fresh arena: the second one begins behind the first.
two_large :
    (arena_allocate [] 1500000 >>= λ r. arena_allocate r.1 1500000) ≡ some (1500000, 3000000 ∷ [])
unfolding arena_allocate
two_large = refl

arena_allocate-overrun_example :
    (first second : ℕ) × (arena arena' : Arena) × (arena_allocate [] 1500000 ≡ some (first, arena))
    × (arena_allocate arena 1500000 ≡ some (second, arena'))
    × (arena_size < second + 1500000)
arena_allocate-overrun_example = arena_allocate-overrun 1500000 (omega arith) (omega arith)

arena_allocate-allocated_example :
    (place : ℕ) × (arena' : Arena) × (arena_allocate (16 ∷ []) 100 ≡ some (place, arena'))
    × (arena_allocated (16 ∷ []) + 100 ≤ arena_allocated arena')
    × (arena_allocated arena' < arena_allocated (16 ∷ []) + 100 + 8)
arena_allocate-allocated_example = arena_allocate-allocated (16 ∷ []) 100 (omega arith)

-- An array list of one slot, which has to grow for the second item.
grown :
    (array_list_add {A = ℕ} (array_list_create 1) 7 >>= λ r.
    array_list_add r.1 8 >>= λ s. array_list_index s.1 1)
    ≡ some (some 8)
unfolding array_list_add array_list_create array_list_index
grown = refl

array_list_add-Represents_example :
    (array' : ArrayList ℕ) × (array_list_add (array_list_create 1) 7 ≡ some (0, array'))
    × Represents (7 ∷ []) array'
unfolding array_list_create
array_list_add-Represents_example =
    array_list_add-Represents [] (array_list_create 1) 7 (array_list_create-Represents 1)
      (omega arith)

array_list_index-Represents_example : array_list_index {A = ℕ} (array_list_create 4) 0 ≡ none
array_list_index-Represents_example =
    array_list_index-Represents [] (array_list_create 4) 0 (array_list_create-Represents 4)
