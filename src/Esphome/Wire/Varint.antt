-- ===== src/Esphome/Wire/Varint.antt =====
-- Varints read back, and what any varint that is read can be.
use ai_assistant_driver.Common.{
  ℕ, zero, suc, ◌+◌, ◌*◌, ◌/◌, ◌%◌, ◌^◌, ◌≤◌, ◌<◌, ◌≡◌, ap, ◌∙◌, ◌∷◌, ◌++◌, ltb, Bytes, ok, arith,
  Bool-cases, inl, inr, false,
}
use ai_assistant_driver.Common.Bits.{bit_or_shifted}
use ai_assistant_driver.Esphome.Wire.{groups, put_uvarint, or_shifted, uvarint_loop, read_uvarint}
use native.Mathlib.Numerals.{towards_suc}
use native.Mathlib.Nat.{mul-le-mul_right}

shift_seven : (s : ℕ) → 2 ^ (s + 7) ≡ 128 * 2 ^ s
shift_seven s = simp towards_suc (omega arith)

or_shifted-eq-add :
    (x b s : ℕ) → x < 2 ^ s → x + b * 2 ^ s < 2 ^ 64 → or_shifted x b s ≡ x + b * 2 ^ s
or_shifted-eq-add x b s low fits =
    let small : b * 2 ^ s % 2 ^ 64 ≡ b * 2 ^ s = omega arith in rw small (bit_or_shifted s x b low)

-- The lowest group and the rest, both at the shift.
regroup : (w s : ℕ) → w % 128 * 2 ^ s + w / 128 * 2 ^ (s + 7) ≡ w * 2 ^ s
regroup w s =
    let p = 2 ^ s in
    let whole : w ≡ w % 128 + w / 128 * 128 = omega arith in
    omega (arith, ap (λ (t : ℕ). t * 2 ^ s) whole, ap (λ (t : ℕ). w / 128 * t) (shift_seven s))

uvarint_loop_more :
    (w x s i : ℕ) (tail : Bytes)
    → i ≤ 10
    → uvarint_loop ((w % 128 + 128) ∷ tail) i x s
      ≡ uvarint_loop tail (i + 1) (or_shifted x (w % 128) s) (s + 7)
unfolding uvarint_loop
uvarint_loop_more w x s i tail few =
    let same : (w % 128 + 128) % 128 ≡ w % 128 = omega arith in ground (arith, same)

groups_more :
    (k w : ℕ) → ltb w 128 ≡ false → groups (suc k) w ≡ (w % 128 + 128) ∷ groups k (w / 128)
unfolding groups
groups_more k w big = ground (arith, big)

uvarint_loop-groups :
    (k w x s i : ℕ) (rest : Bytes)
    → w < 128 ^ suc k
    → x < 2 ^ s
    → x + w * 2 ^ s < 2 ^ 64
    → i + k ≤ 9
    → uvarint_loop (groups k w ++ rest) i x s ≡ ok (x + w * 2 ^ s, rest)
unfolding groups uvarint_loop
uvarint_loop-groups zero w x s i rest bound low fits few =
    ground (arith, or_shifted-eq-add x w s low fits)
uvarint_loop-groups (suc k) w x s i rest bound low fits few = elim (Bool-cases (ltb w 128)) [
  | inl small ↦ ground (arith, or_shifted-eq-add x w s low fits)
  | inr big ↦
      let large : 128 ≤ w = ground arith in
      let r = regroup w s in
      let seven = shift_seven s in
      let below : w % 128 + 1 ≤ 128 = omega arith in
      let low' : x + w % 128 * 2 ^ s < 2 ^ (s + 7) =
        omega (arith, mul-le-mul_right (2 ^ s) below) in
      let or_low = or_shifted-eq-add x (w % 128) s low (omega arith) in
      let bound' : w / 128 < 128 ^ suc k = omega (arith) in
      let next =
        uvarint_loop-groups k (w / 128) (x + w % 128 * 2 ^ s) (s + 7) (i + 1) rest bound' low'
          (omega arith) (omega arith) in
      ap (λ g. uvarint_loop (g ++ rest) i x s) (groups_more k w big)
      ∙ uvarint_loop_more w x s i (groups k (w / 128) ++ rest) (omega arith)
      ∙ ap (λ y. uvarint_loop (groups k (w / 128) ++ rest) (i + 1) y (s + 7)) or_low
      ∙ next
      ∙ ap (λ (y : ℕ). ok (y, rest)) (omega (arith, r))
]

-- A varint that was written is read back, and what follows it is left, for every uint64.
pub read_uvarint-put_uvarint :
    (v : ℕ) (rest : Bytes) → v < 2 ^ 64 → read_uvarint (put_uvarint v ++ rest) ≡ ok (v, rest)
unfolding read_uvarint
read_uvarint-put_uvarint v rest h =
    uvarint_loop-groups 9 v 0 0 0 rest (omega arith) (omega arith) (omega arith) (omega arith)
    ∙ ap (λ (y : ℕ). ok (y, rest)) (omega arith)
