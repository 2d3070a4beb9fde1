-- ===== src/Tts/Header.antt =====
-- The header read as a player reads it, and the samples that a conversion keeps.
use ai_assistant_driver.Common.{
  ℕ, ◌+◌, ◌*◌, ◌/◌, ◌%◌, ◌^◌, ◌<◌, ◌≡◌, Bool, Option, none, some, ◌++◌, drop, take, get_or, Bytes,
  Text, codes, text_eq, arith, if◌then◌else◌, ◌&&◌, ◌==◌,
}
use ai_assistant_driver.Tts.Wav.{create_wav_header}

-- What the header says of the data that follows it.
pub record Format : Type 0 where
  pub riff_size : ℕ
  pub encoding : ℕ
  pub channels : ℕ
  pub sample_rate : ℕ
  pub byte_rate : ℕ
  pub block_align : ℕ
  pub bits_per_sample : ℕ
  pub data_size : ℕ

abbrev uint16 : ℕ → ℕ → ℕ
uint16 a b = a + b * 256

abbrev uint32 : ℕ → ℕ → ℕ → ℕ → ℕ
uint32 a b c d = a + b * 2 ^ 8 + c * 2 ^ 16 + d * 2 ^ 24

abbrev get_uint16 : ℕ → Bytes → ℕ
get_uint16 k bytes = uint16 (get_or bytes k 0) (get_or bytes (k + 1) 0)

abbrev get_uint32 : ℕ → Bytes → ℕ
get_uint32 k bytes =
    uint32 (get_or bytes k 0) (get_or bytes (k + 1) 0) (get_or bytes (k + 2) 0)
      (get_or bytes (k + 3) 0)

abbrev tag : ℕ → Bytes → Text → Bool
tag k bytes name = text_eq (take 4 (drop k bytes)) name

-- The format and the data of a WAV file with one `fmt ` chunk of 16 bytes and then its data.
unfoldable pub read_wav : Bytes → Option (Format × Bytes)
read_wav file =
    if tag 0 file (codes "RIFF")
      && tag 8 file (codes "WAVE")
      && tag 12 file (codes "fmt ")
      && get_uint32 16 file == 16
      && tag 36 file (codes "data")
    then some (
      record {
        riff_size = get_uint32 4 file;
        encoding = get_uint16 20 file;
        channels = get_uint16 22 file;
        sample_rate = get_uint32 24 file;
        byte_rate = get_uint32 28 file;
        block_align = get_uint16 32 file;
        bits_per_sample = get_uint16 34 file;
        data_size = get_uint32 40 file;
      },
      drop 44 file,
    )
    else none

uint16_back : (n : ℕ) → n < 2 ^ 16 → uint16 (n % 256) (n / 256 % 256) ≡ n
uint16_back n h = omega arith

uint32_back :
    (n : ℕ)
    → n < 2 ^ 32
    → uint32 (n % 256) (n / 2 ^ 8 % 256) (n / 2 ^ 16 % 256) (n / 2 ^ 24 % 256) ≡ n
uint32_back n h = omega arith

-- The header of a file of at most 2 ^ 32 - 37 bytes of data, with sizes and rates that fit their
-- fields, is read back as PCM of that format, and what follows it as the data.
pub read_wav-create_wav_header :
    (size rate bits channels : ℕ) (bytes : Bytes)
    → 36 + size < 2 ^ 32
    → rate < 2 ^ 32
    → bits < 2 ^ 16
    → channels < 2 ^ 16
    → rate * channels * bits / 8 < 2 ^ 32
    → channels * bits / 8 < 2 ^ 16
    → read_wav (create_wav_header size rate bits channels ++ bytes)
      ≡ some (
        record {
          riff_size = 36 + size;
          encoding = 1;
          channels = channels;
          sample_rate = rate;
          byte_rate = rate * channels * bits / 8;
          block_align = channels * bits / 8;
          bits_per_sample = bits;
          data_size = size;
        },
        bytes,
      )
unfolding read_wav create_wav_header
read_wav-create_wav_header size rate bits channels bytes total rate_fits bits_fit channels_fit
      bytes_fit block_fits =
    cc (
      uint32_back (36 + size) total,
      uint16_back channels channels_fit,
      uint32_back rate rate_fits,
      uint32_back (rate * channels * bits / 8) bytes_fit,
      uint16_back (channels * bits / 8) block_fits,
      uint16_back bits bits_fit,
      uint32_back size (omega arith),
    )
