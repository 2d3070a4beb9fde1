-- ===== src/Tts/Encoded.antt =====
-- The whole WAV file, as a player reads it.
use ai_assistant_driver.Common.{
  ℕ, zero, suc, ◌+◌, ◌*◌, ◌/◌, ◌^◌, ◌<◌, ◌≡◌, ◌≢◌, refl, inl, inr, false, some, [], ◌∷◌, ◌++◌, ◌==◌,
  ◌&&◌, ltb, if◌then◌else◌, length, drop, Bytes, arith, Bool-cases,
}
use ai_assistant_driver.Common.Int.{pos}
use ai_assistant_driver.Tts.Wav.{put_uint16, convert, create_wav_header}
use ai_assistant_driver.Tts.Header.{read_wav, read_wav-create_wav_header}
use ai_assistant_driver.Tts.Files.{
  Truncating, copied, sample_at, source_index, ratio_of, mixed, resample_round, resample_from,
  resample_into, linear_resample, resample_and_convert, encoded, encode_wav,
}

-- float64 counts `k` samples that come out of `samples`, and starts each from one of these.
abbrev pub IsRounded : Truncating → (rate samples k : ℕ) → Type 0
IsRounded rs rate samples k =
    let ratio = rs.float.div (rs.float.of_int (pos 16000)) (rs.float.of_int (pos rate)) in
    (rs.to_int (rs.float.mul (rs.float.of_int (pos samples)) ratio) ≡ pos k)
    × ((i : ℕ)
        → i < k
        → (at : ℕ) × (rs.to_int (rs.float.div (rs.float.of_int (pos i)) ratio) ≡ pos at)
          × (at < samples))

-- The bytes that come out: sound at 16000 Hz is left as long as it is.
abbrev pub length_at : (rate k : ℕ) → Bytes → ℕ
length_at rate k data_of = if rate == 16000 then length data_of else 2 * k

length-copied : (n : ℕ) (bytes : Bytes) → length (copied n bytes) ≡ n
unfolding copied
length-copied zero bytes = refl
length-copied (suc n) [] = omega (arith, length-copied n [])
length-copied (suc n) (b ∷ bytes) = omega (arith, length-copied n bytes)

module _ (rs : Truncating) where
  -- A round that starts from a sample that there is gives two bytes for each sample to go.
  resample_round_fills :
      (src_idx : rs.float.Num) (data_of : Bytes) (k at : ℕ) (rest : Bytes)
      → at < length data_of / 2
      → length rest ≡ 2 * k
      → (bytes : Bytes) × (resample_round rs src_idx data_of k (pos at) (some rest) ≡ some bytes)
        × (length bytes ≡ 2 * suc k)
  unfolding resample_round put_uint16
  resample_round_fills src_idx data_of k at rest h sized =
      elim (Bool-cases (ltb (at + 1) (length data_of / 2))) [
        | inl more ↦
            let sample = mixed rs src_idx at (sample_at at data_of) (sample_at (at + 1) data_of) in
            (put_uint16 sample ++ rest, rw more refl, omega (arith, sized))
        | inr last ↦
            let inside : ltb (length data_of) (2 * at) ≡ false = ground (arith, h) in
            (
              copied (2 * suc k) (drop (2 * at) data_of),
              rw (last, inside) refl,
              length-copied (2 * suc k) (drop (2 * at) data_of),
            )
      ]

  -- The loop gives two bytes for each sample to go.
  resample_from_fills :
      (rate : ℕ) (data_of : Bytes) (k i : ℕ)
      → ((j : ℕ)
          → j < i + k
          → (at : ℕ) × (rs.to_int (source_index rs rate j) ≡ pos at) × (at < length data_of / 2))
      → (bytes : Bytes) × (resample_from rs rate data_of k i ≡ some bytes) × (length bytes ≡ 2 * k)
  unfolding resample_from
  resample_from_fills rate data_of zero i within = ([], refl, refl)
  resample_from_fills rate data_of (suc k) i within =
      let (rest, found, sized) =
        resample_from_fills rate data_of k (suc i) (λ j h. within j (omega arith)) in
      let (at, starts, inside) = within i (omega arith) in
      let (bytes, is, length_of) =
        resample_round_fills (source_index rs rate i) data_of k at rest inside sized in
      (bytes, rw (starts, found) is, length_of)

  linear_resample_fills :
      (rate : ℕ) (data_of : Bytes) (k : ℕ)
      → IsRounded rs rate (length data_of / 2) k
      → (bytes : Bytes) × (linear_resample rs rate data_of ≡ some bytes)
        × (length bytes ≡ length_at rate k data_of)
  unfolding linear_resample resample_into source_index ratio_of
  linear_resample_fills rate data_of k (counted, within) = elim (Bool-cases (rate == 16000)) [
    | inl same ↦ (data_of, rw same refl, rw same refl)
    | inr other ↦
        let (bytes, found, sized) =
          resample_from_fills rate data_of k 0 (λ j below. within j (omega arith)) in
        (bytes, rw (other, counted) found, rw other sized)
  ]

  converted_fills :
      (rate bit_depth channels k : ℕ) (pcm : Bytes)
      → IsRounded rs rate (length (convert bit_depth channels pcm) / 2) k
      → (bytes : Bytes) × (resample_and_convert rs rate bit_depth channels pcm ≡ some bytes)
        × (length bytes ≡ length_at rate k (convert bit_depth channels pcm))
  unfolding resample_and_convert
  converted_fills rate bit_depth channels k pcm h =
      elim (Bool-cases (rate == 16000 && bit_depth == 16 && channels == 1)) [
        | inl same ↦ (pcm, rw same refl, unfold convert in ground (arith, same))
        | inr other ↦
            let (bytes, found, sized) =
              linear_resample_fills rate (convert bit_depth channels pcm) k h in
            (bytes, rw (other, found) refl, sized)
      ]

  -- EncodeWAV of sound that is not empty, at any rate, depth and number of channels, gives a file that a
  -- player reads as 16-bit mono PCM at 16000 Hz with its sizes; its data is what the conversion gave, at
  -- a rate other than 16000 Hz two bytes for each of the n * (16000 / rate) samples, rounded down. This
  -- takes that they fit in 2 ^ 32 - 37 bytes, and that i / (16000 / rate), as float64 rounds it, stays
  -- below n for each of them.
  pub read_wav-encode_wav :
      (rate bit_depth channels k : ℕ) (pcm : Bytes)
      → pcm ≢ []
      → IsRounded rs rate (length (convert bit_depth channels pcm) / 2) k
      → 36 + length_at rate k (convert bit_depth channels pcm) < 2 ^ 32
      → (file : Bytes) × (bytes : Bytes) × (encode_wav rs rate bit_depth channels pcm
          ≡ encoded file)
        × (resample_and_convert rs rate bit_depth channels pcm ≡ some bytes)
        × (length bytes ≡ length_at rate k (convert bit_depth channels pcm))
        × (read_wav file
            ≡ some (
              record {
                riff_size = 36 + length bytes;
                encoding = 1;
                channels = 1;
                sample_rate = 16000;
                byte_rate = 32000;
                block_align = 2;
                bits_per_sample = 16;
                data_size = length bytes;
              },
              bytes,
            ))
  unfolding encode_wav
  read_wav-encode_wav rate bit_depth channels k [] full h fits = absurd (full refl)
  read_wav-encode_wav rate bit_depth channels k (b ∷ pcm) full h fits =
      let (bytes, found, sized) = converted_fills rate bit_depth channels k (b ∷ pcm) h in
      (
        create_wav_header (length bytes) 16000 16 1 ++ bytes,
        bytes,
        rw found refl,
        found,
        sized,
        read_wav-create_wav_header (length bytes) 16000 16 1 bytes (omega (arith, sized, fits))
            (omega arith) (omega arith) (omega arith) (omega arith) (omega arith),
      )
