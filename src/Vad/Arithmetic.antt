-- ===== src/Vad/Arithmetic.antt =====
-- float64 as the detector uses it. The arithmetic is a parameter; of its laws only one is needed:
-- `<` is irreflexive, as IEEE 754 has it. `literal m k` is the float64 nearest to m / 10 ^ k.
use ai_assistant_driver.Common.{ℕ, ◌*◌, ◌/◌, ◌+◌, ◌^◌, ◌≡◌, Bool, false, ltb, arith}
use ai_assistant_driver.Common.Int.{ℤ, pos_part}

pub record Float : Type 1 where
  pub Num : Type 0
  pub lt : Num → Num → Bool
  pub add : Num → Num → Num
  pub mul : Num → Num → Num
  pub div : Num → Num → Num
  pub sqrt : Num → Num
  pub of_int : ℤ → Num
  pub literal : ℕ → ℕ → Num
  pub lt_irrefl : (x : Num) → lt x x ≡ false

pub ltb_irrefl : (x : ℕ) → ltb x x ≡ false
ltb_irrefl x = ground arith

-- Whole thousandths, an arithmetic that has the law, for runs. Its square root is the identity.
abbrev pub thousandths : Float
thousandths = record {
  Num = ℕ;
  lt = ltb;
  add = ◌+◌;
  mul = λ x y. x * y / 1000;
  div = λ x y. x * 1000 / y;
  sqrt = λ x. x;
  of_int = λ n. pos_part n * 1000;
  literal = λ m k. m * 1000 / 10 ^ k;
  lt_irrefl = ltb_irrefl;
}
