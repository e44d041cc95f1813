-- ===== src/SymbolTable/Probe.antt =====
-- Positions in the table: walking from slot to slot around the table, and the distance of a slot
-- from the place that a hash asks for.
use millie.Prelude.{
  ℕ, zero, suc, ◌+◌, ◌-◌, ◌%◌, ◌≤◌, ◌<◌, ◌≡◌, ◌⊎◌, inl, inr, sym, ap, ◌∙◌, arith, subst,
}
use native.Mathlib.Nat.{mod-lt, mod-eq_of_lt, mod-eq-sub-mod, mod-add-mod}
use native.Mathlib.Decide.{dec_lt}
use millie.SymbolTable.{next, desired_position, probe_distance}

mod_wrap : (cap n : ℕ) → cap ≤ n → n < cap + cap → n % cap ≡ n - cap
mod_wrap cap n low high = mod-eq-sub-mod low ∙ mod-eq_of_lt (omega (arith, low, high))

-- Once around the table, from `a` to `b`.
around : (cap a b : ℕ) → a < cap → b < cap → (a + (b + cap - a) % cap) % cap ≡ b
around cap a b ha hb = elim (dec_lt b a) [
  | yes before ↦
      ap (λ k. (a + k) % cap) (mod-eq_of_lt (omega (arith, before)))
      ∙ mod_wrap cap (a + (b + cap - a)) (omega (arith, before)) (omega (arith, before, hb))
      ∙ omega (arith, before)
  | no after ↦
      ap (λ k. (a + k) % cap)
        (mod_wrap cap (b + cap - a) (omega (arith, after)) (omega (arith, after, hb)))
      ∙ ap (λ k. k % cap) (omega (arith, after))
      ∙ mod-eq_of_lt hb
]

next-cases :
    (cap pos : ℕ)
    → pos < cap
    → ((suc pos < cap) × (next cap pos ≡ suc pos)) ⊎ ((suc pos ≡ cap) × (next cap pos ≡ 0))
next-cases cap pos h = elim (dec_lt (suc pos) cap) [
  | yes room ↦ inl (room, ap (λ k. k % cap) (omega arith) ∙ mod-eq_of_lt room)
  | no full ↦ inr (
    omega (arith, full, h),
    mod_wrap cap (pos + 1) (omega (arith, full)) (omega (arith, h)) ∙ omega (arith, full, h),
  )
]

pub next-lt : (cap pos : ℕ) → pos < cap → next cap pos < cap
next-lt cap pos h = mod-lt (pos + 1) (omega (arith, h))

pub next-injective : (cap a b : ℕ) → a < cap → b < cap → next cap a ≡ next cap b → a ≡ b
next-injective cap a b ha hb e = elim (next-cases cap a ha) [
  | inl (_, p) ↦ elim (next-cases cap b hb) [
    | inl (_, q) ↦ omega (arith, sym p ∙ e ∙ q)
    | inr (_, q) ↦ absurd (omega (arith, sym p ∙ e ∙ q))
  ]
  | inr (full, p) ↦ elim (next-cases cap b hb) [
    | inl (_, q) ↦ absurd (omega (arith, sym p ∙ e ∙ q))
    | inr (full', q) ↦ omega (arith, full, full')
  ]
]

-- `k` steps from a position.
abbrev pub steps : ℕ → ℕ → ℕ → ℕ
steps cap zero pos = pos
steps cap (suc k) pos = steps cap k (next cap pos)

pub steps-lt : (cap k pos : ℕ) → pos < cap → steps cap k pos < cap
steps-lt cap zero pos h = h
steps-lt cap (suc k) pos h = steps-lt cap k (next cap pos) (next-lt cap pos h)

pub steps-add : (cap k pos : ℕ) → pos < cap → steps cap k pos ≡ (pos + k) % cap
steps-add cap zero pos h = sym (mod-eq_of_lt h) ∙ ap (λ k. k % cap) (omega arith)
steps-add cap (suc k) pos h =
    steps-add cap k (next cap pos) (next-lt cap pos h)
    ∙ mod-add-mod (pos + 1) cap k
    ∙ ap (λ m. m % cap) (omega arith)

-- Every position is reached from every other.
pub reached : (cap a b : ℕ) → a < cap → b < cap → (k : ℕ) × (k < cap) × (steps cap k a ≡ b)
reached cap a b ha hb = (
  (b + cap - a) % cap,
  mod-lt (b + cap - a) (omega (arith, ha)),
  steps-add cap ((b + cap - a) % cap) a ha ∙ around cap a b ha hb,
)

pub probe_distance-lt : (cap hash pos : ℕ) → pos < cap → probe_distance cap hash pos < cap
unfolding probe_distance
probe_distance-lt cap hash pos h = mod-lt _ (omega (arith, h))

-- From the place that a hash asks for it is that distance.
pub steps-probe :
    (cap hash pos : ℕ)
    → pos < cap
    → steps cap (probe_distance cap hash pos) (desired_position cap hash) ≡ pos
unfolding probe_distance
steps-probe cap hash pos h =
    let place = mod-lt hash (omega (arith, h)) in
    steps-add cap _ (hash % cap) place ∙ around cap (hash % cap) pos place h

distance-next :
    (cap a pos : ℕ)
    → a < cap
    → pos < cap
    → suc ((pos + cap - a) % cap) < cap
    → (next cap pos + cap - a) % cap ≡ suc ((pos + cap - a) % cap)
distance-next cap a pos ha h room = elim (dec_lt pos a) [
  | yes before ↦
      let here = mod-eq_of_lt {n = pos + cap - a} {m = cap} (omega (arith, before)) in
      let far = subst (λ m. suc m < cap) here room in
      ap (λ k. (k + cap - a) % cap) (mod-eq_of_lt {n = pos + 1} {m = cap} (omega (arith, far, ha)))
      ∙ mod-eq_of_lt {n = pos + 1 + cap - a} {m = cap} (omega (arith, far, before))
      ∙ omega (arith, here, before, ha)
  | no after ↦
      let here = mod_wrap cap (pos + cap - a) (omega (arith, after)) (omega (arith, after, h)) in
      let far = subst (λ m. suc m < cap) here room in
      elim (next-cases cap pos h) [
        | inl (more, step) ↦
            ap (λ k. (k + cap - a) % cap) step
            ∙ mod_wrap cap (suc pos + cap - a) (omega (arith, after)) (omega (arith, after, more))
            ∙ omega (arith, here, after, h)
        | inr (full, step) ↦
            ap (λ k. (k + cap - a) % cap) step
            ∙ mod-eq_of_lt {n = 0 + cap - a} {m = cap} (omega (arith, far, full, ha))
            ∙ omega (arith, here, after, full)
      ]
]

-- The distance at the place itself, and at the next place.
pub probe-desired :
    (cap hash : ℕ) → 0 < cap → probe_distance cap hash (desired_position cap hash) ≡ 0
unfolding probe_distance
probe-desired cap hash h =
    mod_wrap cap (hash % cap + cap - hash % cap) (omega arith) (omega (arith, h)) ∙ omega arith

pub probe-next :
    (cap hash pos : ℕ)
    → pos < cap
    → suc (probe_distance cap hash pos) < cap
    → probe_distance cap hash (next cap pos) ≡ suc (probe_distance cap hash pos)
unfolding probe_distance
probe-next cap hash pos h room =
    distance-next cap (hash % cap) pos (mod-lt hash (omega (arith, h))) h room
