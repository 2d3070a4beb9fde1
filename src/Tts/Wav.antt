-- ===== src/Tts/Wav.antt =====
-- internal/tts/wav.go: the WAV header, and the conversion to 16-bit mono before resampling.
use ai_assistant_driver.Common.{
  ℕ, zero, suc, ◌+◌, ◌*◌, ◌/◌, ◌%◌, ◌^◌, ◌&&◌, [], ◌∷◌, ◌++◌, ◌==◌, ltb, if◌then◌else◌, length,
  drop, get_or, Bytes, codes, bit_or,
}

-- binary.LittleEndian's PutUint16 and PutUint32 of a converted int.
unfoldable pub put_uint16 : ℕ → Bytes
put_uint16 n = n % 256 ∷ n / 256 % 256 ∷ []

unfoldable put_uint32 : ℕ → Bytes
put_uint32 n = n % 256 ∷ n / 2 ^ 8 % 256 ∷ n / 2 ^ 16 % 256 ∷ n / 2 ^ 24 % 256 ∷ []

unfoldable pub create_wav_header : ℕ → ℕ → ℕ → ℕ → Bytes
unfolding put_uint16 put_uint32
create_wav_header data_size sample_rate bits_per_sample channels =
    codes "RIFF"
    ++ (put_uint32 (36 + data_size)
        ++ (codes "WAVE"
            ++ (codes "fmt "
                ++ (put_uint32 16
                    ++ (put_uint16 1
                        ++ (put_uint16 channels
                            ++ (put_uint32 sample_rate
                                ++ (put_uint32 (sample_rate * channels * bits_per_sample / 8)
                                    ++ (put_uint16 (channels * bits_per_sample / 8)
                                        ++ (put_uint16 bits_per_sample
                                            ++ (codes "data" ++ put_uint32 data_size)))))))))))

-- The 32-bit pattern at the start of a slice, with the shifts of an int32.
unfoldable pub pattern32 : Bytes → ℕ
pattern32 bytes =
    bit_or
      (bit_or (bit_or (get_or bytes 0 0) (get_or bytes 1 0 * 2 ^ 8 % 2 ^ 32))
        (get_or bytes 2 0 * 2 ^ 16 % 2 ^ 32))
      (get_or bytes 3 0 * 2 ^ 24 % 2 ^ 32)

-- The loops of resampleAndConvert: `count` samples, each `size` bytes from the one before.
unfoldable pub keep_left : ℕ → ℕ → Bytes → Bytes
keep_left zero size bytes = []
keep_left (suc count) size bytes =
    get_or bytes 0 0 ∷ get_or bytes 1 0 ∷ keep_left count size (drop size bytes)

-- The upper half of a 32-bit sample: `int16(val >> 16)`, written as a uint16.
unfoldable pub keep_upper : ℕ → ℕ → Bytes → Bytes
unfolding pattern32 put_uint16
keep_upper zero size bytes = []
keep_upper (suc count) size bytes =
    put_uint16 (pattern32 bytes / 2 ^ 16) ++ keep_upper count size (drop size bytes)

-- resampleAndConvert before it resamples.
unfoldable pub convert : ℕ → ℕ → Bytes → Bytes
unfolding keep_left keep_upper
convert bit_depth channels pcm =
    if bit_depth == 16 && channels == 1
    then pcm
    else if bit_depth == 16 && ltb 1 channels
    then keep_left (length pcm / (2 * channels)) (2 * channels) pcm
    else if bit_depth == 32 && channels == 1
    then keep_upper (length pcm / 4) 4 pcm
    else if bit_depth == 32 && ltb 1 channels
    then keep_upper (length pcm / (4 * channels)) (4 * channels) pcm
    else pcm
