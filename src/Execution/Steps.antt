-- ===== src/Execution/Steps.antt =====
-- runtime.c, the loop of `EvaluateCode`: sequences of steps in which nothing is called.
use millie.Prelude.{ℕ, zero, suc, ◌<◌, ◌≡◌, refl, some, arith}
use millie.Bytecode.{Code, Module}
use millie.Runtime.Step.{Frame, Evaluates, halt, go_on, step, run}

-- A step that is the same whatever calls do.
abbrev pub StepsTo : Module → Code → Frame → Frame → Type 0
StepsTo m code f g = (evaluate : Evaluates) → step evaluate m code f ≡ some (go_on g)

-- The machine goes from one frame to another.
pub data Steps (m : Module) (code : Code) : Frame → Frame → Type 0 where
  stay : {f : Frame} → Steps m code f f
  go : {f g h : Frame} → StepsTo m code f g → Steps m code g h → Steps m code f h

module _ {m : Module} {code : Code} where
  infixl 4 ◌then◌
  pub ◌then◌ : {f g h : Frame} → Steps m code f g → Steps m code g h → Steps m code f h
  stay then y = y
  (go e x) then y = go e (x then y)

  pub one : {f g : Frame} → StepsTo m code f g → Steps m code f g
  one e = go e stay

  pub count : {f g : Frame} → Steps m code f g → ℕ
  count stay = 0
  count (go e x) = suc (count x)

  -- Where a halting instruction is reached, the loop ends, given enough fuel.
  pub run-Steps :
      (evaluate : Evaluates) {f g h : Frame} (x : Steps m code f g) (fuel : ℕ)
      → count x < fuel
      → step evaluate m code g ≡ some (halt h)
      → run evaluate m code fuel f ≡ some h
  unfolding run count
  run-Steps evaluate stay (suc fuel) enough e = rw e refl
  run-Steps evaluate (go e' x) (suc fuel) enough e =
      rw (e' evaluate) (run-Steps evaluate x fuel (omega (arith, enough)) e)
  run-Steps evaluate stay zero enough e = absurd (omega (arith, enough))
  run-Steps evaluate (go e' x) zero enough e = absurd (omega (arith, enough))
