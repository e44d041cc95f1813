-- ===== src/SymbolTable/Carry.antt =====
-- A round of the loop of `_InsertHelper`: what it carries on, and what it leaves behind.
use millie.Prelude.{
  ℕ, suc, ◌+◌, ◌≤◌, ◌<◌, ◌≡◌, ◌≢◌, ◌⊎◌, ◌↔◌, inl, inr, refl, sym, ap, ◌∙◌, subst, true, List,
  length, length-set, set, ◌==◌, ==_iff, arith,
}
use millie.Ast.{Symbol}
use millie.Parser.{Bytes}
use millie.SymbolTable.{Slot, next, probe_distance}
use millie.SymbolTable.Probe.{next-lt, next-injective, probe-next}
use millie.SymbolTable.Order.{IsIn, fill, load, load-IsIn, IsOrdered, set-IsOrdered, load-lt}
use millie.SymbolTable.Entries.{
  Holds, Has, Each, used, set-IsIn, set-Each, Has-set_from, Has-set_old, Has-set_new, used-set,
}

-- What an insertion of `item` makes of the slots.
pub record Inserted (P : Slot → Type 0) (slots : List Slot) (item : Slot) (slots' : List Slot)
    : Type 0 where
  pub same_length : length slots' ≡ length slots
  pub order : IsOrdered slots'
  pub all_slots : Each P slots'
  pub one_more : used slots' ≡ suc (used slots)
  pub entries : (k : Bytes) (v : Symbol) → Has slots' k v ↔ (Has slots k v ⊎ Holds k v item)

-- The entry that is carried: it is `dist` away from its place at `pos`, and no farther than one
-- more than the entry before is from its own.
pub record IsCarried (P : Slot → Type 0) (slots : List Slot) (item : Slot) (pos dist : ℕ)
    : Type 0 where
  pub inside : pos < length slots
  pub order : IsOrdered slots
  pub all_slots : Each P slots
  pub good : P item
  pub full : item.hash ≢ 0
  pub away : probe_distance (length slots) item.hash pos ≡ dist
  pub close :
      (before : ℕ)
      → before < length slots
      → next (length slots) before ≡ pos
      → dist ≤ load slots before

pub full_fill :
    (cap pos : ℕ) (slot : Slot)
    → slot.hash ≢ 0
    → fill cap pos slot ≡ suc (probe_distance cap slot.hash pos)
unfolding fill
full_fill cap pos slot full = ground (arith, full)

pub free_fill : (cap pos : ℕ) (slot : Slot) → (slot.hash == 0) ≡ true → fill cap pos slot ≡ 0
unfolding fill
free_fill cap pos slot empty = rw empty refl

module _ (P : Slot → Type 0) (slots : List Slot) (item : Slot) (pos dist : ℕ)
    (c : IsCarried P slots item pos dist) (existing : Slot) (here : IsIn slots pos existing) where
  -- A write keeps the order where it puts an entry farther from its place.
  write-IsOrdered : load slots pos ≤ suc dist → IsOrdered (set slots pos item)
  write-IsOrdered more =
      let filled = full_fill (length slots) pos item c.full ∙ ap suc c.away in
      set-IsOrdered slots pos item existing c.order here (omega (arith, more, filled))
        λ q inside e. omega (arith, c.close q inside e, filled)

  -- At an empty slot the entry is written down.
  pub fill-Inserted : (existing.hash == 0) ≡ true → Inserted P slots item (set slots pos item)
  fill-Inserted empty = record {
    same_length = length-set slots pos item;
    order = write-IsOrdered (
        omega
          (arith, load-IsIn slots pos existing here, free_fill (length slots) pos existing empty));
    all_slots = set-Each slots pos item existing here c.all_slots c.good;
    one_more = ground (arith, used-set slots pos item existing here, empty, c.full);
    entries = λ k v. (
      Has-set_from slots pos item existing here k v,
      λ h. elim h [
        | inl old ↦ elim (Has-set_old slots pos item existing here k v old) [
          | inl still ↦ still
          | inr over ↦ absurd (over.occupied ((==_iff existing.hash 0).0 empty))
        ]
        | inr new ↦ Has-set_new slots pos item existing here k v new
      ],
    );
  }

  -- An entry that is nearer to its place is taken up instead, and carried on.
  pub swap-Inserted :
      (slots' : List Slot)
      → existing.hash ≢ 0
      → Inserted P (set slots pos item) existing slots'
      → Inserted P slots item slots'
  swap-Inserted slots' full r = record {
    same_length = r.same_length ∙ length-set slots pos item;
    order = r.order;
    all_slots = r.all_slots;
    one_more = ground (arith, used-set slots pos item existing here, r.one_more, full, c.full);
    entries = λ k v. (
      λ h. elim ((r.entries k v).0 h) [
        | inl was ↦ Has-set_from slots pos item existing here k v was
        | inr taken ↦ inl (pos, existing, here, taken)
      ],
      λ h. (r.entries k v).1 (elim h [
        | inl old ↦ Has-set_old slots pos item existing here k v old
        | inr new ↦ inl (Has-set_new slots pos item existing here k v new)
      ]),
    );
  }

-- The next round: what is carried then.
module _ (P : Slot → Type 0) (slots : List Slot) (item : Slot) (pos dist : ℕ)
    (c : IsCarried P slots item pos dist) (existing : Slot) (here : IsIn slots pos existing)
    (full : existing.hash ≢ 0) (free : ℕ) (room : free < length slots)
    (gap : load slots free ≡ 0) where
  here_load : load slots pos ≡ suc (probe_distance (length slots) existing.hash pos)
  here_load = load-IsIn slots pos existing here ∙ full_fill (length slots) pos existing full

  here_short : suc (probe_distance (length slots) existing.hash pos) < length slots
  here_short = omega (arith, load-lt slots free pos c.order room gap c.inside, here_load)

  -- Only `pos` is in front of the next position.
  before_is :
      (before : ℕ)
      → before < length slots
      → next (length slots) before ≡ next (length slots) pos
      → pos ≡ before
  before_is before inside e = sym (next-injective (length slots) before pos inside c.inside e)

  pub pass-IsCarried :
      dist ≤ probe_distance (length slots) existing.hash pos
      → IsCarried P slots item (next (length slots) pos) (dist + 1)
  pass-IsCarried far = record {
    inside = next-lt (length slots) pos c.inside;
    order = c.order;
    all_slots = c.all_slots;
    good = c.good;
    full = c.full;
    away =
        probe-next (length slots) item.hash pos c.inside (omega (arith, c.away, far, here_short))
        ∙ omega (arith, c.away);
    close = λ q inside e.
        subst (λ p. dist + 1 ≤ load slots p) (before_is q inside e) (omega (arith, here_load, far));
  }

  pub swap-IsCarried :
      probe_distance (length slots) existing.hash pos < dist
      → IsCarried P
          (set slots pos item)
          existing
          (next (length slots) pos)
          (probe_distance (length slots) existing.hash pos + 1)
  swap-IsCarried near =
      let size = length-set slots pos item in
      record {
        inside =
            subst (λ n. next (length slots) pos < n) (sym size)
              (next-lt (length slots) pos c.inside);
        order =
            write-IsOrdered P slots item pos dist c existing here (omega (arith, here_load, near));
        all_slots = set-Each slots pos item existing here c.all_slots c.good;
        good = c.all_slots.each pos existing here full;
        full = full;
        away =
            ap (λ n. probe_distance n existing.hash (next (length slots) pos)) size
            ∙ probe-next (length slots) existing.hash pos c.inside here_short
            ∙ omega arith;
        close = λ q inside e.
            let q_is =
              before_is q (subst (λ n. q < n) size inside) (ap (λ n. next n q) (sym size) ∙ e) in
            subst
              (λ p.
                probe_distance (length slots) existing.hash pos + 1 ≤ load (set slots pos item) p)
              q_is
              (omega (
                arith,
                near,
                load-IsIn (set slots pos item) pos item (set-IsIn slots pos item existing here),
                ap (λ n. fill n pos item) size,
                full_fill (length slots) pos item c.full,
                c.away,
              ));
      }
