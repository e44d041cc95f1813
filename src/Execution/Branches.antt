-- ===== src/Execution/Branches.antt =====
-- compiler.c, `_CompileIf`, and the jumps of runtime.c.
use millie.Prelude.{
  ℕ, ◌+◌, ◌-◌, ◌%◌, ◌^◌, ◌≤◌, ◌<◌, ◌≡◌, refl, ltb, ◌==◌, true, false, if◌then◌else◌, [], ◌∷◌, ◌++◌,
  some, length, get_elem?, arith, ap, sym, subst, ◌∙◌, >>=-eq-some, Bool-cases, inl, inr, ==_iff,
  length-append, length-set,
}
use millie.Ast.{Expression, exp_if}
use millie.Bytecode.{Code, Module, bytes_u16, op_mov}
use millie.Bytecode.Codec.{At}
use millie.Compiler.Context.{CompileContext, reserve_u16}
use millie.Compiler.Expressions.{write_two, jump_offset}
use millie.Compiler.Growth.{get_elem?-set, Extends, ◌▸◌, longer, reserve_u16-Extends}
use millie.Compiler.Stability.{length-reserve_u16}
use millie.Compiler.Stale.{get_elem?-set_same}
use millie.Compiler.Invariant.{move-Extends}
use millie.Runtime.{num}
use millie.Runtime.Step.{Frame}
use millie.Execution.Meaning.{Env, meaning, own_register}
use millie.Execution.Steps.{Steps, StepsTo, stay, one, ◌then◌}
use millie.Execution.Instructions.{jz-step, jmp-step, mov-step, written}
use millie.Execution.Covers.{Covers, Covers-At, Covers-front, Covers-back, write_two-code}
use millie.Execution.Bindings.{Bound-Extends}
use millie.Execution.Frames.{Starts, Computes}
use millie.Execution.Registers.{Fresh}
use millie.Execution.Simulation.{Works}
use millie.Execution.Layout.{
  tested, jumped, false_loc, end_loc, false_offset, otherwise, moved, end_offset, ended,
  ended-length, tested-max, taken-max, other-max, tested-length, jumped-length, to_tested,
  arm_inside, otherwise-length, end_inside, to_otherwise, to_ended, other-Covers, test-Covers,
  arm-Covers, jz-At, jmp-At,
}

-- A jump over code that is short enough.
jump_offset-short :
    (target loc : ℕ)
    → loc + 2 ≤ target
    → target < 2 ^ 15
    → jump_offset target loc ≡ target - loc - 2
jump_offset-short target loc h k = omega (arith, h, k)

module _ (m : Module) (code : Code) where
  -- The machine gets behind the move of a value, if there is one.
  record Moves (g : Frame) (b v end : ℕ) : Type 0 where
    after : Frame
    steps : Steps m code g after
    there : after.ip ≡ end
    same_heap : after.heap ≡ g.heap
    same_room : length after.registers ≡ length g.registers
    kept : (i : ℕ) → i < b → get_elem? after.registers i ≡ get_elem? g.registers i
    result : get_elem? after.registers b ≡ some (num v)

  moves :
      (a b v : ℕ) (o : CompileContext) (g : Frame)
      → g.ip ≡ length o.code
      → get_elem? g.registers a ≡ some (num v)
      → Covers code o (if a == b then o else write_two o op_mov a b)
      → a < 2 ^ 8
      → b < 2 ^ 8
      → b < length g.registers
      → Moves g b v (length (if a == b then o else write_two o op_mov a b).code)
  moves a b v o g here value covers a_low b_low room = elim (Bool-cases (a == b)) [
    | inl q ↦ rw q (record {
      after = g;
      steps = stay;
      there = here;
      same_heap = refl;
      same_room = refl;
      kept = λ i h. refl;
      result = subst (λ r. get_elem? g.registers r ≡ some (num v)) ((==_iff a b).0 q) value;
    })
    | inr q ↦ rw q (record {
      after = written g 3 b (num v);
      steps =
          let a_is : a % 2 ^ 8 ≡ a = omega (arith, a_low) in
          let b_is : b % 2 ^ 8 ≡ b = omega (arith, b_low) in
          let fits : ltb b (length g.registers) ≡ true = ground (arith, room) in
          let bytes : (write_two o op_mov a b).code ≡ o.code ++ (17 ∷ a ∷ b ∷ []) =
            rw (a_is, b_is) at (write_two-code o op_mov a b) in
          let at = Covers-At o (write_two o op_mov a b) _ bytes (rw q at covers) in
          one (λ evaluate.
            mov-step evaluate m code g a b v value fits
              (subst (λ ip. At code ip (17 ∷ a ∷ b ∷ [])) (sym here) at));
      there = omega (
        arith,
        here,
        ap length (write_two-code o op_mov a b),
        length-append o.code (17 ∷ a % 2 ^ 8 ∷ b % 2 ^ 8 ∷ []),
      );
      same_heap = refl;
      same_room = length-set g.registers b (num v);
      kept = λ i h. get_elem?-set g.registers i b (num v) h;
      result = get_elem?-set_same g.registers b (num v) room;
    })
  ]

  module _ (s e : ℕ) (test then_arm else_arm : Expression) (c : CompileContext)
      (t taken other : ℕ × CompileContext) (x : Works m code test c t)
      (y : Works m code then_arm (reserve_u16 (tested t taken other)) taken)
      (z : Works m code else_arm (otherwise t taken other) other)
      (own : own_register then_arm ≡ true) where
    ends : Extends c (ended t taken other)
    ends = to_ended t taken other c x.extends y.extends z.extends

    to_arm : Extends c (reserve_u16 (tested t taken other))
    to_arm =
        x.extends ▸ to_tested t taken other c x.extends y.extends z.extends ▸ reserve_u16-Extends _

    low_taken : taken.1.max_registers ≤ (ended t taken other).max_registers
    low_taken = taken-max t taken other c x.extends y.extends z.extends

    if-Fresh : Fresh c (taken.0, ended t taken other)
    if-Fresh counted few =
        let o = y.own own (to_arm.counted counted) (omega (arith, few, low_taken)) in
        (omega (arith, o.0, to_arm.more_registers), omega (arith, o.1, low_taken))

    module _ (env : Env) (f : Frame) (value : ℕ) (st : Starts m code env c (ended t taken other) f)
        (v : ℕ) (tests : meaning test env ≡ some v) where
      test_low : t.1.max_registers ≤ taken.1.max_registers
      test_low = omega (
        arith,
        tested-max t taken other c x.extends y.extends z.extends,
        y.extends.more_registers,
      )

      end_short : length (moved t taken other).code < 2 ^ 15
      end_short =
          omega (arith, st.short, ended-length t taken other c x.extends y.extends z.extends)

      end_in : end_loc t taken other + 2 ≤ length (moved t taken other).code
      end_in = end_inside t taken other c x.extends y.extends z.extends

      arm_in : false_loc t taken other + 2 ≤ end_loc t taken other
      arm_in = arm_inside t taken other c x.extends y.extends z.extends

      loc_is : false_loc t taken other ≡ length t.1.code + 2
      loc_is = tested-length t taken other c x.extends y.extends z.extends

      test_part : Computes m code c t.1 f t.0 v
      test_part = x.runs env f v tests (record {
        counted = st.counted;
        few = omega (arith, st.few, test_low, low_taken);
        room = omega (arith, st.room, test_low, low_taken);
        short = omega (arith, end_short, end_in, arm_in, loc_is);
        covers = test-Covers t taken other c x.extends y.extends z.extends code st.covers;
        here = st.here;
        bound = st.bound;
      })

      false_is :
          false_offset t taken other ≡ end_loc t taken other + 2 - false_loc t taken other - 2
      false_is =
          jump_offset-short (length (reserve_u16 (jumped t taken other)).code)
            (false_loc t taken other)
            (omega (arith, arm_in, length-reserve_u16 (jumped t taken other)))
            (omega (arith, end_in, end_short, length-reserve_u16 (jumped t taken other)))
          ∙ ap (λ n. n - false_loc t taken other - 2) (length-reserve_u16 (jumped t taken other))

      end_is :
          end_offset t taken other ≡ length (moved t taken other).code - end_loc t taken other - 2
      end_is =
          jump_offset-short (length (moved t taken other).code) (end_loc t taken other) end_in
            end_short

      -- The frame behind the test's jump.
      g : Frame
      g = record test_part.after {
        ip =
            if v == 0
            then test_part.after.ip + 4 + false_offset t taken other
            else test_part.after.ip + 4;
      }

      jumps : StepsTo m code test_part.after g
      unfolding g
      jumps evaluate =
          let same : t.0 % 2 ^ 8 ≡ t.0 =
            omega (arith, test_part.low, test_low, low_taken, st.few) in
          jz-step evaluate m code test_part.after (t.0 % 2 ^ 8) v (false_offset t taken other)
            (omega (arith, false_is, end_in, end_short))
            (ap (get_elem? test_part.after.registers) same ∙ test_part.result)
            (subst (λ ip. At code ip (16 ∷ t.0 % 2 ^ 8 ∷ bytes_u16 (false_offset t taken other)))
              (sym test_part.there)
              (jz-At t taken other c x.extends y.extends z.extends code st.covers))

      -- The first arm, and the jump behind it.
      then-Computes :
          (v == 0) ≡ false
          → meaning then_arm env ≡ some value
          → Computes m code c (ended t taken other) f taken.0 value
      unfolding g
      then-Computes not_zero h =
          let g_ip : g.ip ≡ length (reserve_u16 (tested t taken other)).code =
            rw not_zero
              (omega (arith, test_part.there, loc_is, length-reserve_u16 (tested t taken other))) in
          let d = y.runs env g value h (record {
            counted = to_arm.counted st.counted;
            few = omega (arith, st.few, low_taken);
            room = omega (arith, st.room, low_taken, test_part.same_room);
            short = omega (
              arith,
              end_short,
              end_in,
              jumped-length t taken other c x.extends y.extends z.extends,
            );
            covers = arm-Covers t taken other c x.extends y.extends z.extends code st.covers;
            here = g_ip;
            bound = Bound-Extends to_arm test_part.kept st.bound;
          }) in
          let jump : StepsTo m code d.after
              (record d.after { ip = d.after.ip + 3 + end_offset t taken other }) =
            λ evaluate.
              jmp-step evaluate m code d.after (end_offset t taken other)
                (omega (arith, end_is, end_short))
                (subst (λ ip. At code ip (15 ∷ bytes_u16 (end_offset t taken other))) (sym d.there)
                  (jmp-At t taken other c x.extends y.extends z.extends code st.covers)) in
          record {
            after = record d.after { ip = d.after.ip + 3 + end_offset t taken other };
            steps = test_part.steps then one jumps then d.steps then one jump;
            there = omega (
              arith,
              d.there,
              end_is,
              end_in,
              jumped-length t taken other c x.extends y.extends z.extends,
              ended-length t taken other c x.extends y.extends z.extends,
            );
            same_heap = d.same_heap ∙ test_part.same_heap;
            same_room = d.same_room ∙ test_part.same_room;
            kept = λ i low.
                d.kept i (omega (arith, low, to_arm.more_registers)) ∙ test_part.kept i low;
            low = omega (arith, d.low, low_taken);
            result = d.result;
          }

      -- The second arm, and the move behind it.
      else-Computes :
          (v == 0) ≡ true
          → meaning else_arm env ≡ some value
          → Computes m code c (ended t taken other) f taken.0 value
      unfolding g
      else-Computes is_zero h =
          let to = to_otherwise t taken other c x.extends y.extends z.extends in
          let len = otherwise-length t taken other c x.extends y.extends z.extends in
          let covers = other-Covers t taken other c x.extends y.extends z.extends code st.covers in
          let low_other = other-max t taken other c x.extends y.extends z.extends in
          let fresh = if-Fresh st.counted st.few in
          let g_ip : g.ip ≡ length (otherwise t taken other).code =
            rw is_zero (omega (arith, test_part.there, loc_is, arm_in, false_is, len)) in
          let d = z.runs env g value h (record {
            counted = to.counted st.counted;
            few = omega (arith, st.few, low_other);
            room = omega (arith, st.room, low_other, test_part.same_room);
            short = omega (arith, end_short, longer (move-Extends other.0 taken.0 other.1));
            covers = Covers-front (move-Extends other.0 taken.0 other.1) covers;
            here = g_ip;
            bound = Bound-Extends to test_part.kept st.bound;
          }) in
          let move =
            moves other.0 taken.0 value other.1 d.after d.there d.result
              (Covers-back z.extends covers) (omega (arith, d.low, low_other, st.few))
              (omega (arith, fresh.1, st.few))
              (omega (arith, fresh.1, st.room, d.same_room, test_part.same_room)) in
          record {
            after = move.after;
            steps = test_part.steps then one jumps then d.steps then move.steps;
            there = move.there ∙ sym (ended-length t taken other c x.extends y.extends z.extends);
            same_heap = move.same_heap ∙ d.same_heap ∙ test_part.same_heap;
            same_room = move.same_room ∙ d.same_room ∙ test_part.same_room;
            kept = λ i low.
                move.kept i (omega (arith, low, fresh.0))
                ∙ d.kept i (omega (arith, low, to.more_registers))
                ∙ test_part.kept i low;
            low = fresh.1;
            result = move.result;
          }

    pub if-Works : Works m code (exp_if s e test then_arm else_arm) c (taken.0, ended t taken other)
    unfolding meaning
    if-Works = record {
      extends = ends;
      own = λ _. if-Fresh;
      runs = λ env f value h st.
          let v = >>=-eq-some (meaning test env) _ h in
          elim (Bool-cases (v.0 == 0)) [
            | inl is_zero ↦ else-Computes env f value st v.0 v.1 is_zero (rw is_zero at v.2)
            | inr not_zero ↦ then-Computes env f value st v.0 v.1 not_zero (rw not_zero at v.2)
          ];
    }
