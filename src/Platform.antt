-- ===== src/Platform.antt =====
-- platform.c: memory in arenas, and array lists.
pub mod Arena
pub mod Array
mod Tests
use millie.Prelude.{
  ℕ, zero, suc, ◌+◌, ◌-◌, ◌*◌, ◌%◌, ◌^◌, Bool, true, false, List, [], ◌∷◌, ◌++◌, Option, none, some,
  ◌>>=◌, ltb, leb, ◌==◌, if◌then◌else◌, length, get_elem?, set, take, replicate,
}

abbrev pub arena_size : ℕ
arena_size = 2 ^ 21

-- `struct Arena`: the blocks, the current one first, each as the distance of its `start` from its
-- `arena`, which is aligned to 8.
abbrev pub Arena : Type 0
Arena = List ℕ

-- `new_start & 7` is not 0: up to the next multiple of 8.
abbrev pub align : ℕ → ℕ
align new_start = if new_start % 8 == 0 then new_start else new_start + (8 - new_start % 8)

abbrev pub place_in : ℕ → Arena → ℕ → ℕ × Arena
place_in start rest size = (start, align (start + size) ∷ rest)

-- `ArenaAllocate`: the place of the result in the block that is current then, and the arena; `none`
-- is the call of `Fail`. The variable `space_remaining` is -1 without a block.
unfoldable pub arena_allocate : Arena → ℕ → Option (ℕ × Arena)
arena_allocate [] size = if ltb arena_size size then none else some (place_in 0 [] size)
arena_allocate (start ∷ rest) size =
    if ltb arena_size size
    then none
    else let space_remaining = start in
      if ltb space_remaining size
      then some (place_in 0 (start ∷ rest) size)
      else some (place_in start rest size)

unfoldable pub arena_allocated : Arena → ℕ
arena_allocated [] = 0
arena_allocated (start ∷ blocks) = start + arena_allocated blocks

-- `struct ArrayList`: the memory of the buffer, of which `none` is not written yet, in items.
pub record ArrayList (A : Type 0) : Type 0 where
  pub item_count : ℕ
  pub capacity : ℕ
  pub buffer : List (Option A)

module _ {A : Type 0} where
  unfoldable pub array_list_create : ℕ → ArrayList A
  array_list_create capacity =
      let room : ℕ = if capacity == 0 then 4 else capacity in
      record { item_count = 0; capacity = room; buffer = replicate room none }

  -- The item that `ArrayListIndex` leads to; `none` where it calls `Fail`.
  unfoldable pub array_list_index : ArrayList A → ℕ → Option (Option A)
  array_list_index array index =
      if leb array.item_count index then none else get_elem? array.buffer index

  -- `realloc`, which keeps what there is as far as it fits.
  abbrev pub doubled : ArrayList A → ArrayList A
  doubled array =
      let room : ℕ = array.capacity * 2 % 2 ^ 32 in
      record array {
        capacity = room;
        buffer = take room (array.buffer ++ replicate (room - length array.buffer) none);
      }

  -- A write behind the end of the buffer is a fault.
  abbrev pub write_item : ArrayList A → ℕ → A → Option (ℕ × ArrayList A)
  write_item array index item =
      if ltb index (length array.buffer)
      then some (
        index,
        record array { item_count = index + 1; buffer = set array.buffer index (some item) },
      )
      else none

  unfoldable pub array_list_add : ArrayList A → A → Option (ℕ × ArrayList A)
  array_list_add array item =
      write_item (if array.item_count == array.capacity then doubled array else array)
        array.item_count item
