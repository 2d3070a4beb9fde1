-- ===== src/Tts/Converted.antt =====
-- Which samples a conversion keeps.
use ai_assistant_driver.Common.{
  ℕ, ◌+◌, ◌*◌, ◌/◌, ◌%◌, ◌^◌, ◌<◌, ◌≡◌, refl, sym, ap, ◌∙◌, false, List, [], ◌∷◌, ◌++◌, length,
  length-append, drop, drop_append, All, Bytes, arith, lt→ltb, ◌==◌,
}
use ai_assistant_driver.Common.Bits.{bit_or_shifted}
use native.Mathlib.Nat.{mul-div_cancel}
use ai_assistant_driver.Tts.Wav.{put_uint16, pattern32, keep_left, keep_upper, convert}

-- A frame of 16-bit samples: the two bytes of the first channel, and those of the others.
pub record Frame : Type 0 where
  pub low : ℕ
  pub high : ℕ
  pub others : Bytes

abbrev frame_bytes : Frame → Bytes
frame_bytes f = f.low ∷ f.high ∷ f.others

unfoldable interleaved : List Frame → Bytes
interleaved [] = []
interleaved (f ∷ fs) = frame_bytes f ++ interleaved fs

unfoldable lefts : List Frame → Bytes
lefts [] = []
lefts (f ∷ fs) = f.low ∷ f.high ∷ lefts fs

abbrev HasSize : ℕ → Frame → Type 0
HasSize size f = length (frame_bytes f) ≡ size

length-interleaved :
    (size : ℕ) (fs : List Frame)
    → All (HasSize size) fs
    → length (interleaved fs) ≡ length fs * size
unfolding interleaved
length-interleaved size [] sized = omega arith
length-interleaved size (f ∷ fs) (one, sized) =
    omega
      (arith, one, length-append (frame_bytes f) (interleaved fs), length-interleaved size fs sized)

drop-frame :
    (size : ℕ) (f : Frame) (rest : Bytes)
    → HasSize size f
    → drop size (frame_bytes f ++ rest) ≡ rest
drop-frame size f rest one =
    ap (λ k. drop k (frame_bytes f ++ rest)) (sym one) ∙ drop_append (frame_bytes f) rest

keep_left-interleaved :
    (size : ℕ) (fs : List Frame)
    → All (HasSize size) fs
    → keep_left (length fs) size (interleaved fs) ≡ lefts fs
unfolding keep_left interleaved lefts
keep_left-interleaved size [] sized = refl
keep_left-interleaved size (f ∷ fs) (one, sized) =
    ap (λ b. f.low ∷ f.high ∷ b)
      (ap (keep_left (length fs) size) (drop-frame size f (interleaved fs) one)
        ∙ keep_left-interleaved size fs sized)

-- Of 16-bit sound with several channels, whole frames of them, the conversion keeps the first
-- channel.
convert_channels :
    (channels : ℕ) (fs : List Frame)
    → 1 < channels
    → All (HasSize (2 * channels)) fs
    → convert 16 channels (interleaved fs) ≡ lefts fs
unfolding convert
convert_channels channels fs several sized =
    let not_mono : (channels == 1) ≡ false = ground arith in
    let count : length (interleaved fs) / (2 * channels) ≡ length fs =
      rw (length-interleaved (2 * channels) fs sized) (mul-div_cancel (length fs) (omega arith)) in
    rw not_mono
      (rw (lt→ltb 1 channels several) (rw count (keep_left-interleaved (2 * channels) fs sized)))

-- A 32-bit sample by its bytes.
pub record Sample : Type 0 where
  pub b0 : ℕ
  pub b1 : ℕ
  pub b2 : ℕ
  pub b3 : ℕ

abbrev IsSample : Sample → Type 0
IsSample s = (s.b0 < 256) × (s.b1 < 256) × (s.b2 < 256) × (s.b3 < 256)

unfoldable mono32 : List Sample → Bytes
mono32 [] = []
mono32 (s ∷ ss) = s.b0 ∷ s.b1 ∷ s.b2 ∷ s.b3 ∷ mono32 ss

unfoldable uppers : List Sample → Bytes
uppers [] = []
uppers (s ∷ ss) = s.b2 ∷ s.b3 ∷ uppers ss

pattern32-bytes :
    (s : Sample) (rest : Bytes)
    → IsSample s
    → pattern32 (s.b0 ∷ s.b1 ∷ s.b2 ∷ s.b3 ∷ rest)
      ≡ s.b0 + s.b1 * 2 ^ 8 + s.b2 * 2 ^ 16 + s.b3 * 2 ^ 24
unfolding pattern32
pattern32-bytes s rest (h0, h1, h2, h3) =
    let e1 : s.b1 * 2 ^ 8 % 2 ^ 32 ≡ s.b1 * 2 ^ 8 = omega arith in
    let e2 : s.b2 * 2 ^ 16 % 2 ^ 32 ≡ s.b2 * 2 ^ 16 = omega arith in
    let e3 : s.b3 * 2 ^ 24 % 2 ^ 32 ≡ s.b3 * 2 ^ 24 = omega arith in
    let o1 = bit_or_shifted 8 s.b0 s.b1 (omega arith) in
    let o2 = bit_or_shifted 16 (s.b0 + s.b1 * 2 ^ 8) s.b2 (omega arith) in
    let o3 = bit_or_shifted 24 (s.b0 + s.b1 * 2 ^ 8 + s.b2 * 2 ^ 16) s.b3 (omega arith) in cc

upper_bytes :
    (a b c d : ℕ)
    → a < 256
    → b < 256
    → c < 256
    → d < 256
    → put_uint16 ((a + b * 2 ^ 8 + c * 2 ^ 16 + d * 2 ^ 24) / 2 ^ 16) ≡ c ∷ d ∷ []
unfolding put_uint16
upper_bytes a b c d ha hb hc hd =
    let top : (a + b * 2 ^ 8 + c * 2 ^ 16 + d * 2 ^ 24) / 2 ^ 16 ≡ c + d * 256 = omega arith in
    let low : (c + d * 256) % 256 ≡ c = omega arith in
    let high : (c + d * 256) / 256 % 256 ≡ d = omega arith in rw top (rw low (rw high refl))

length-mono32 : (ss : List Sample) → length (mono32 ss) ≡ length ss * 4
unfolding mono32
length-mono32 [] = refl
length-mono32 (s ∷ ss) = omega (arith, length-mono32 ss)

keep_upper-mono32 :
    (ss : List Sample) → All IsSample ss → keep_upper (length ss) 4 (mono32 ss) ≡ uppers ss
unfolding keep_upper mono32 uppers
keep_upper-mono32 [] sampled = refl
keep_upper-mono32 (s ∷ ss) ((h0, h1, h2, h3), sampled) =
    let p = pattern32-bytes s (mono32 ss) (h0, h1, h2, h3) in
    let rest = keep_upper-mono32 ss sampled in
    rw p
      (rw rest (ap (λ (b : Bytes). b ++ uppers ss) (upper_bytes s.b0 s.b1 s.b2 s.b3 h0 h1 h2 h3)))

-- Of 32-bit sound with one channel, whole samples of it, the conversion keeps the upper 16 bits of
-- every sample.
convert_depth : (ss : List Sample) → All IsSample ss → convert 32 1 (mono32 ss) ≡ uppers ss
unfolding convert
convert_depth ss sampled =
    let count : length (mono32 ss) / 4 ≡ length ss = omega (arith, length-mono32 ss) in
    rw count (keep_upper-mono32 ss sampled)
