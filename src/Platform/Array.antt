-- ===== src/Platform/Array.antt =====
-- Array lists: adding appends, and an index reads what was added there.
use mathlib.Core.Option
use millie.Prelude.{
  ℕ, zero, suc, ◌+◌, ◌-◌, ◌*◌, ◌%◌, ◌^◌, ◌≤◌, ◌<◌, ◌≡◌, inl, inr, refl, sym, ap, ◌∙◌, List, [], ◌∷◌,
  ◌++◌, map, append_assoc, Option, none, some, leb, ◌==◌, if◌then◌else◌, length, length-append,
  length-replicate, get_elem?, set, length-set, take, replicate, arith, Bool-cases,
}
use millie.Platform.{
  ArrayList, array_list_create, array_list_index, array_list_add, doubled, write_item,
}

module _ {A : Type 0} where
  -- The array list has the items of a list, and room that is not written yet.
  pub record Represents (xs : List A) (array : ArrayList A) : Type 0 where
    pub count : array.item_count ≡ length xs
    pub size : length array.buffer ≡ array.capacity
    pub some_room : 0 < array.capacity
    pub unwritten : List (Option A)
    pub contents : array.buffer ≡ map some xs ++ unwritten

  length-map : (xs : List A) → length (map {B = Option A} some xs) ≡ length xs
  length-map [] = refl
  length-map (x ∷ xs) = ap suc (length-map xs)

  set-end :
      (xs : List A) (u : Option A) (us : List (Option A)) (x : A)
      → set (map some xs ++ u ∷ us) (length xs) (some x) ≡ map some (xs ++ x ∷ []) ++ us
  set-end [] u us x = refl
  set-end (y ∷ xs) u us x = ap (λ zs. some y ∷ zs) (set-end xs u us x)

  get_elem?-map :
      (xs : List A) (us : List (Option A)) (i : ℕ)
      → i < length xs
      → (x : A) × (get_elem? xs i ≡ some x) × (get_elem? (map some xs ++ us) i ≡ some (some x))
  get_elem?-map [] us i h = absurd (omega (arith, h))
  get_elem?-map (y ∷ xs) us zero h = (y, refl, refl)
  get_elem?-map (y ∷ xs) us (suc i) h = get_elem?-map xs us i (omega (arith, h))

  pub array_list_create-Represents : (capacity : ℕ) → Represents [] (array_list_create capacity)
  unfolding array_list_create
  array_list_create-Represents capacity = record {
    count = refl;
    size = length-replicate _ none;
    some_room = ground arith;
    unwritten = replicate (if capacity == 0 then 4 else capacity) none;
    contents = refl;
  }

  -- An index below the number of items reads the item, and any other fails.
  pub array_list_index-Represents :
      (xs : List A) (array : ArrayList A) (i : ℕ)
      → Represents xs array
      → array_list_index array i ≡ Option.map some (get_elem? xs i)
  unfolding array_list_index
  array_list_index-Represents xs array i r = elim (Bool-cases (leb array.item_count i)) [
    | inl behind ↦
        ap (λ b. if b then none else get_elem? array.buffer i) behind
        ∙ ap (Option.map some) (sym (outside xs i (ground (arith, behind, r.count))))
    | inr before ↦
        let item = get_elem?-map xs r.unwritten i (ground (arith, before, r.count)) in
        ap (λ b. if b then none else get_elem? array.buffer i) before
        ∙ ap (λ us. get_elem? us i) r.contents
        ∙ item.2
        ∙ ap (Option.map some) (sym item.1)
  ]
    where
      outside : (ys : List A) (k : ℕ) → length ys ≤ k → get_elem? ys k ≡ none
      outside [] k h = refl
      outside (y ∷ ys) zero h = absurd (omega (arith, h))
      outside (y ∷ ys) (suc k) h = outside ys k (omega (arith, h))

  write_item-Represents :
      (xs : List A) (array : ArrayList A) (x : A) (unwritten : List (Option A))
      → Represents xs array
      → array.buffer ≡ map some xs ++ unwritten
      → array.item_count < array.capacity
      → (array' : ArrayList A) × (write_item array array.item_count x ≡ some (length xs, array'))
        × Represents (xs ++ x ∷ []) array'
  write_item-Represents xs array x [] r contents room = absurd (
      omega (
        arith,
        room,
        r.count,
        r.size,
        ap length contents,
        length-append (map {B = Option A} some xs) [],
        length-map xs,
      ))
  write_item-Represents xs array x (u ∷ us) r contents room =
      let inside : array.item_count < length array.buffer = omega (arith, room, r.size) in
      (
        record array {
          item_count = array.item_count + 1;
          buffer = set array.buffer array.item_count (some x);
        },
        ground (arith, inside, r.count),
        record {
          count = omega (arith, r.count, length-append xs (x ∷ []));
          size = length-set array.buffer array.item_count (some x) ∙ r.size;
          some_room = r.some_room;
          unwritten = us;
          contents =
              ap (λ bs. set bs array.item_count (some x)) contents
              ∙ ap (λ i. set (map some xs ++ u ∷ us) i (some x)) r.count
              ∙ set-end xs u us x;
        },
      )

  doubled-Represents :
      (xs : List A) (array : ArrayList A)
      → Represents xs array
      → array.capacity < 2 ^ 31
      → Represents xs (doubled array) × (array.capacity < (doubled array).capacity)
  doubled-Represents xs array r small =
      let room : ℕ = array.capacity * 2 % 2 ^ 32 in
      let room_is : room ≡ array.capacity * 2 = omega (arith, small) in
      let more : List (Option A) = replicate (room - length array.buffer) none in
      let size : length (array.buffer ++ more) ≡ room = omega (
        arith,
        length-append array.buffer more,
        length-replicate {A = Option A} (room - length array.buffer) none,
        r.size,
        room_is,
      ) in
      let whole : take room (array.buffer ++ more) ≡ array.buffer ++ more =
        take-whole room (array.buffer ++ more) size in
      (
        record {
          count = r.count;
          size = ap length whole ∙ size;
          some_room = omega (arith, room_is, r.some_room);
          unwritten = r.unwritten ++ more;
          contents =
              whole
              ∙ ap (λ bs. bs ++ more) r.contents
              ∙ append_assoc (map some xs) r.unwritten more;
        },
        omega (arith, room_is, r.some_room),
      )
    where
      take-whole : (n : ℕ) (bs : List (Option A)) → length bs ≡ n → take n bs ≡ bs
      take-whole zero [] e = refl
      take-whole zero (b ∷ bs) e = absurd (omega (arith, e))
      take-whole (suc n) [] e = refl
      take-whole (suc n) (b ∷ bs) e = ap (λ cs. b ∷ cs) (take-whole n bs (omega (arith, e)))

  -- Adding to an array list always works while it has fewer than 2 ^ 31 slots: it gives the number
  -- of items before, and an array list that has the item behind them, whether or not the buffer has
  -- to grow.
  pub array_list_add-Represents :
      (xs : List A) (array : ArrayList A) (x : A)
      → Represents xs array
      → array.capacity < 2 ^ 31
      → (array' : ArrayList A) × (array_list_add array x ≡ some (length xs, array'))
        × Represents (xs ++ x ∷ []) array'
  unfolding array_list_add
  array_list_add-Represents xs array x r small =
      elim (Bool-cases (array.item_count == array.capacity)) [
        | inl full ↦
            let d = doubled-Represents xs array r small in
            let w =
              write_item-Represents xs (doubled array) x d.0.unwritten d.0 d.0.contents
                (ground (arith, full, d.1)) in
            (
              w.0,
              ap (λ b. write_item (if b then doubled array else array) array.item_count x) full
                  ∙ w.1,
              w.2,
            )
        | inr roomy ↦
            let w = write_item-Represents xs array x r.unwritten r r.contents (
              ground (
                arith,
                roomy,
                r.size,
                r.count,
                ap length r.contents,
                length-append (map {B = Option A} some xs) r.unwritten,
                length-map xs,
              )) in
            (
              w.0,
              ap (λ b. write_item (if b then doubled array else array) array.item_count x) roomy
                  ∙ w.1,
              w.2,
            )
      ]
