-- ===== src/Vad/Pcm.antt =====
-- The samples that the detector reads, against how little-endian PCM is written.
use ai_assistant_driver.Common.{
  ℕ, ◌-◌, ◌*◌, ◌/◌, ◌%◌, ◌^◌, ◌<◌, ◌≡◌, refl, List, [], ◌∷◌, Bytes, All, arith, bit_or,
}
use ai_assistant_driver.Common.Int.{ℤ, pos, negsuc, signed16}
use ai_assistant_driver.Common.Bits.{bit_or_shifted}
use ai_assistant_driver.Vad.{samples}

-- The two's complement pattern of a number, and the numbers that have one in 16 bits.
abbrev pattern16 : ℤ → ℕ
pattern16 (pos n) = n
pattern16 (negsuc n) = 2 ^ 16 - 1 - n

abbrev IsInt16 : ℤ → Type 0
IsInt16 (pos n) = n < 2 ^ 15
IsInt16 (negsuc n) = n < 2 ^ 15

abbrev little_endian : List ℤ → Bytes
little_endian [] = []
little_endian (s ∷ rest) = pattern16 s % 256 ∷ pattern16 s / 256 ∷ little_endian rest

signed16-pattern16 : (s : ℤ) → IsInt16 s → signed16 (pattern16 s) ≡ s
signed16-pattern16 (pos n) h = ground arith
signed16-pattern16 (negsuc n) h = ground arith

two_bytes : (w : ℕ) → w < 2 ^ 16 → bit_or (w % 256) (w / 256 * 2 ^ 8 % 2 ^ 16) ≡ w
two_bytes w h =
    let fits : w / 256 * 2 ^ 8 % 2 ^ 16 ≡ w / 256 * 2 ^ 8 = omega arith in
    rw fits (omega (arith, bit_or_shifted 8 (w % 256) (w / 256) (omega arith)))

pattern16_fits : (s : ℤ) → IsInt16 s → pattern16 s < 2 ^ 16
pattern16_fits (pos n) h = omega arith
pattern16_fits (negsuc n) h = omega arith

-- Reading back the little-endian bytes of int16 samples gives the samples.
samples-little_endian : (ss : List ℤ) → All IsInt16 ss → samples (little_endian ss) ≡ ss
unfolding samples
samples-little_endian [] h = refl
samples-little_endian (s ∷ ss) (fits, rest) = cc (
  two_bytes (pattern16 s) (pattern16_fits s fits),
  signed16-pattern16 s fits,
  samples-little_endian ss rest,
)
