-- ===== src/Execution/Frames.antt =====
-- What holds of the machine before and behind the code of an expression.
use millie.Prelude.{ℕ, ◌+◌, ◌^◌, ◌≤◌, ◌<◌, ◌≡◌, some, length, get_elem?, arith, ◌∙◌, length-set}
use millie.Bytecode.{Code, Module}
use millie.Compiler.Context.{CompileContext, get_free_int_register}
use millie.Compiler.Growth.{Extends, Counted, longer, get_elem?-set}
use millie.Compiler.Stale.{get_elem?-set_same}
use millie.Runtime.{num}
use millie.Runtime.Step.{Frame}
use millie.Execution.Steps.{Steps, StepsTo, one, ◌then◌}
use millie.Execution.Instructions.{written}
use millie.Execution.Covers.{Covers, Covers-front, Covers-back}
use millie.Execution.Bindings.{Bound, Bound-Extends}
use millie.Execution.Meaning.{Env}

-- The next register is that of the count, as long as it has not wrapped around.
pub get_free_int_register-fresh :
    (c : CompileContext)
    → Counted c
    → c.max_registers < 2 ^ 8
    → (get_free_int_register c).0 ≡ c.max_registers
unfolding get_free_int_register
get_free_int_register-fresh c k h = omega (arith, k, h)

module _ (m : Module) (code : Code) where
  -- The machine stands before the code from `c` to `c'`: that code is there, it has few enough
  -- registers and is short enough for jumps, and the names have their values.
  pub record Starts (env : Env) (c c' : CompileContext) (f : Frame) : Type 0 where
    pub counted : Counted c
    pub few : c'.max_registers ≤ 2 ^ 8
    pub room : c'.max_registers ≤ length f.registers
    pub short : length c'.code < 2 ^ 15
    pub covers : Covers code c c'
    pub here : f.ip ≡ length c.code
    pub bound : Bound env c f.registers

  -- The machine gets behind that code, with a value in a register, and changes nothing that was
  -- there before.
  pub record Computes (c c' : CompileContext) (f : Frame) (reg value : ℕ) : Type 0 where
    pub after : Frame
    pub steps : Steps m code f after
    pub there : after.ip ≡ length c'.code
    pub same_heap : after.heap ≡ f.heap
    pub same_room : length after.registers ≡ length f.registers
    pub kept : (i : ℕ) → i < c.max_registers → get_elem? after.registers i ≡ get_elem? f.registers i
    pub low : reg < c'.max_registers
    pub result : get_elem? after.registers reg ≡ some (num value)

  pub Starts-front :
      {env : Env} {c c₁ c₂ : CompileContext} {f : Frame}
      → Extends c₁ c₂
      → Starts env c c₂ f
      → Starts env c c₁ f
  Starts-front x s = record {
    counted = s.counted;
    few = omega (arith, x.more_registers, s.few);
    room = omega (arith, x.more_registers, s.room);
    short = omega (arith, longer x, s.short);
    covers = Covers-front x s.covers;
    here = s.here;
    bound = s.bound;
  }

  pub Starts-next :
      {env : Env} {c c₁ c₂ : CompileContext} {f : Frame} {reg value : ℕ}
      → Starts env c c₂ f
      → Extends c c₁
      → (d : Computes c c₁ f reg value) → Starts env c₁ c₂ d.after
  Starts-next s x d = record {
    counted = x.counted s.counted;
    few = s.few;
    room = omega (arith, s.room, d.same_room);
    short = s.short;
    covers = Covers-back x s.covers;
    here = d.there;
    bound = Bound-Extends x d.kept s.bound;
  }

  -- The last instruction of an expression writes a register that was free before.
  pub Computes-write :
      {c c' : CompileContext} {f g : Frame} {reg value : ℕ} (size : ℕ)
      → Steps m code f g
      → g.heap ≡ f.heap
      → length g.registers ≡ length f.registers
      → ((i : ℕ) → i < c.max_registers → get_elem? g.registers i ≡ get_elem? f.registers i)
      → StepsTo m code g (written g size reg (num value))
      → g.ip + size ≡ length c'.code
      → c.max_registers ≤ reg
      → reg < c'.max_registers
      → c'.max_registers ≤ length f.registers
      → Computes c c' f reg value
  Computes-write {c} {c'} {f} {g} {reg} {value} size steps heap room kept e there new low fits =
      record {
        after = written g size reg (num value);
        steps = steps then one e;
        there = there;
        same_heap = heap;
        same_room = length-set g.registers reg (num value) ∙ room;
        kept =
            λ i h. get_elem?-set g.registers i reg (num value) (omega (arith, h, new)) ∙ kept i h;
        low = low;
        result = get_elem?-set_same g.registers reg (num value) (omega (arith, low, fits, room));
      }
