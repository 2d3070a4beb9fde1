-- ===== src/Common/Words/Numbers.antt =====
-- Decimal numbers, read back.
use Prim.Native.Nat.{ℕ, zero, suc, ◌+◌, ◌-◌, ◌*◌, ◌/◌, ◌%◌, ◌≤◌, ◌<◌, ◌^◌}
use mathlib.Core.Path.{◌≡◌, refl, sym, ap, ◌∙◌}
use mathlib.Core.Logic.{inl, inr}
use mathlib.Core.List.{[], ◌∷◌, ◌++◌, append_assoc, append-nil}
use mathlib.Core.Bool.{false}
use native.Mathlib.Omega.{arith}
use ai_assistant_driver.Common.Tests.{ltb, Bool-cases}
use ai_assistant_driver.Common.Strings.{Text, decimal_digits, decimal}
use ai_assistant_driver.Common.Words.{is_space, max_uint64, parse_digits, parse_uint}
use ai_assistant_driver.Common.Words.Joined.{Dense, IsWord}

parse_one_digit :
    (d n : ℕ) (rest : Text)
    → d < 10
    → n * 10 + d ≤ max_uint64
    → parse_digits ((48 + d) ∷ rest) n ≡ parse_digits rest (n * 10 + d)
unfolding parse_digits
parse_one_digit d n rest small fits =
    let same : n * 10 + (48 + d - 48) ≡ n * 10 + d = omega arith in rw same (ground arith)

parse_digits-decimal :
    (f n : ℕ) (rest : Text)
    → n < f
    → n ≤ max_uint64
    → parse_digits (decimal_digits f n ++ rest) 0 ≡ parse_digits rest n
unfolding decimal_digits
parse_digits-decimal zero n rest enough fits = absurd (omega arith)
parse_digits-decimal (suc f) n rest enough fits = elim (Bool-cases (ltb n 10)) [
  | inl small ↦
      rw small (
        parse_one_digit n 0 rest (ground arith) (omega arith)
        ∙ ap (parse_digits rest) (omega arith))
  | inr large ↦
      let big : 10 ≤ n = ground arith in
      rw large (
        ap (λ (s : Text). parse_digits s 0)
          (append_assoc (decimal_digits f (n / 10)) ((48 + n % 10) ∷ []) rest)
        ∙ parse_digits-decimal f (n / 10) ((48 + n % 10) ∷ rest) (omega arith) (omega arith)
        ∙ parse_one_digit (n % 10) (n / 10) rest (omega arith) (omega arith)
        ∙ ap (parse_digits rest) (omega arith))
]

-- Every uint64 is read back from its decimal print.
pub parse_uint-decimal : (n : ℕ) → n < 2 ^ 64 → parse_uint (decimal n) ≡ n
unfolding parse_uint decimal parse_digits
parse_uint-decimal n h =
    ap (λ (s : Text). parse_digits s 0) (sym (append-nil (decimal_digits (n + 1) n)))
    ∙ parse_digits-decimal (n + 1) n [] (omega arith) (omega arith)

pub IsWord-append : (u : Text) (d : ℕ) → Dense u → is_space d ≡ false → IsWord (u ++ d ∷ [])
IsWord-append [] d h hd = (refl, (hd, tt))
IsWord-append (c ∷ u) d (hc, hu) hd = (refl, (hc, (IsWord-append u d hu hd).1))

digit-Dense : (d : ℕ) → d < 10 → is_space (48 + d) ≡ false
digit-Dense d h = ground arith

IsWord-decimal_digits : (f n : ℕ) → n < f → IsWord (decimal_digits f n)
unfolding decimal_digits
IsWord-decimal_digits zero n enough = absurd (omega arith)
IsWord-decimal_digits (suc f) n enough = elim (Bool-cases (ltb n 10)) [
  | inl small ↦ rw small (refl, (digit-Dense n (ground arith), tt))
  | inr large ↦
      let big : 10 ≤ n = ground arith in
      let (full, dense) = IsWord-decimal_digits f (n / 10) (omega arith) in
      rw large (
        IsWord-append (decimal_digits f (n / 10)) (48 + n % 10) dense
          (digit-Dense (n % 10) (omega arith)))
]

-- A decimal print is a word.
pub IsWord-decimal : (n : ℕ) → IsWord (decimal n)
unfolding decimal
IsWord-decimal n = IsWord-decimal_digits (n + 1) n (omega arith)
