-- ===== src/Tts/Files.antt =====
-- internal/tts/wav.go: the whole WAV file, and the temporary file that it is saved to.
-- The float64 arithmetic of linearResample is a parameter; its formulas are not.
use ai_assistant_driver.Common.{
  ℕ, zero, suc, ◌+◌, ◌-◌, ◌*◌, ◌/◌, ◌%◌, ◌^◌, ◌&&◌, Bool, Option, none, some, List, [], ◌∷◌, ◌++◌,
  ◌==◌, ltb, if◌then◌else◌, length, drop, get_or, Bytes, Text, text_eq,
}
use ai_assistant_driver.Common.Int.{ℤ, pos, negsuc, signed16}
use ai_assistant_driver.Vad.Arithmetic.{Float}
use ai_assistant_driver.Tts.Wav.{put_uint16, create_wav_header, convert}

abbrev output_sample_rate : ℕ
output_sample_rate = 16000

abbrev output_channels : ℕ
output_channels = 1

abbrev output_bit_depth : ℕ
output_bit_depth = 16

-- float64 with what linearResample needs beside: the difference, and the conversion to an int.
pub record Truncating : Type 1 where
  pub float : Float
  pub sub : float.Num → float.Num → float.Num
  pub to_int : float.Num → ℤ

-- `copy` into n zero bytes.
unfoldable pub copied : ℕ → Bytes → Bytes
copied zero bytes = []
copied (suc n) [] = 0 ∷ copied n []
copied (suc n) (b ∷ bytes) = b ∷ copied n bytes

-- The 16 bits at a sample.
abbrev pub sample_at : ℕ → Bytes → ℕ
sample_at i data_of = get_or data_of (2 * i) 0 + get_or data_of (2 * i + 1) 0 * 256

-- The ends of EncodeWAV.
pub data Encoding : Type 0 where
  no_pcm panicked : Encoding
  encoded : Bytes → Encoding

unfoldable wav_of : Option Bytes → Encoding
unfolding create_wav_header
wav_of none = panicked
wav_of (some data_of) = encoded (
    create_wav_header (length data_of) output_sample_rate output_bit_depth output_channels
    ++ data_of)

-- The 16 bits of an int16 that is made of an int.
abbrev uint16_of : ℤ → ℕ
uint16_of (pos n) = n % 2 ^ 16
uint16_of (negsuc n) = 2 ^ 16 - 1 - n % 2 ^ 16

module _ (rs : Truncating) where
  abbrev float_of : ℤ → rs.float.Num
  float_of n = rs.float.of_int n

  unfoldable pub ratio_of : ℕ → rs.float.Num
  ratio_of rate = rs.float.div (float_of (pos output_sample_rate)) (float_of (pos rate))

  unfoldable pub source_index : ℕ → ℕ → rs.float.Num
  unfolding ratio_of
  source_index rate i = rs.float.div (float_of (pos i)) (ratio_of rate)

  -- The sample between two neighbours, of which the first is at `at`.
  unfoldable pub mixed : rs.float.Num → ℕ → ℕ → ℕ → ℕ
  mixed src_idx at sample1 sample2 =
      let frac = rs.sub src_idx (float_of (pos at)) in
      uint16_of (
        rs.to_int (
          rs.float.add
            (rs.float.mul (float_of (signed16 sample1)) (rs.sub (rs.float.literal 1 0) frac))
            (rs.float.mul (float_of (signed16 sample2)) frac)))

  -- One round of the loop, with `k` samples to go after it, which give `rest`; `none` for a slice that
  -- starts before the beginning or behind the end, which panics.
  unfoldable pub resample_round : rs.float.Num → Bytes → ℕ → ℤ → Option Bytes → Option Bytes
  unfolding put_uint16 copied mixed
  resample_round src_idx data_of k (negsuc n) rest = none
  resample_round src_idx data_of k (pos at) rest =
      if ltb (at + 1) (length data_of / 2)
      then (elim rest [
        | none ↦ none
        | some bytes ↦ some (
            put_uint16 (mixed src_idx at (sample_at at data_of) (sample_at (at + 1) data_of))
            ++ bytes)
      ])
      else if ltb (length data_of) (2 * at)
      then none
      else some (copied (2 * suc k) (drop (2 * at) data_of))

  -- The loop from `i` with `k` samples to go.
  unfoldable pub resample_from : ℕ → Bytes → ℕ → ℕ → Option Bytes
  unfolding resample_round source_index
  resample_from rate data_of zero i = some []
  resample_from rate data_of (suc k) i =
      resample_round (source_index rate i) data_of k (rs.to_int (source_index rate i))
        (resample_from rate data_of k (suc i))

  -- The slice that is made for the new number of samples; a negative number panics.
  unfoldable pub resample_into : ℕ → Bytes → ℤ → Option Bytes
  unfolding resample_from
  resample_into rate data_of (negsuc n) = none
  resample_into rate data_of (pos new_num_samples) = resample_from rate data_of new_num_samples 0

  unfoldable pub linear_resample : ℕ → Bytes → Option Bytes
  unfolding resample_into ratio_of
  linear_resample rate data_of =
      if rate == output_sample_rate
      then some data_of
      else resample_into rate data_of
          (rs.to_int (rs.float.mul (float_of (pos (length data_of / 2))) (ratio_of rate)))

  unfoldable pub resample_and_convert : ℕ → ℕ → ℕ → Bytes → Option Bytes
  unfolding linear_resample convert
  resample_and_convert rate bit_depth channels pcm =
      if rate == output_sample_rate && bit_depth == output_bit_depth && channels == output_channels
      then some pcm
      else linear_resample rate (convert bit_depth channels pcm)

  unfoldable pub encode_wav : ℕ → ℕ → ℕ → Bytes → Encoding
  unfolding wav_of resample_and_convert
  encode_wav rate bit_depth channels [] = no_pcm
  encode_wav rate bit_depth channels (b ∷ pcm) =
      wav_of (resample_and_convert rate bit_depth channels (b ∷ pcm))

-- What the system answers: making the directory, the name that os.CreateTemp chooses, writing,
-- closing, and removing.
pub record FileAnswers : Type 0 where
  pub mkdir_works : Bool
  pub created : Option Text
  pub write_works : Bool
  pub close_works : Bool
  pub remove_works : Bool

pub data SaveError : Type 0 where
  encode_failed mkdir_failed create_failed write_failed close_failed : SaveError

-- The ends of SaveWAVFile.
pub data Saved : Type 0 where
  crashed : Saved
  failed : SaveError → Saved
  saved : (name : Text) → Saved

-- The files of the directory, each with its contents.
abbrev pub Directory : Type 0
Directory = List (Text × Bytes)

unfoldable pub remove_named : Text → Directory → Directory
remove_named name [] = []
remove_named name ((n, contents) ∷ files) =
    let rest = remove_named name files in if text_eq name n then rest else (n, contents) ∷ rest

-- os.Remove, whose error is dropped.
unfoldable pub removed : Bool → Text → Directory → Directory
unfolding remove_named
removed works name files = if works then remove_named name files else files

-- From the temporary file on; a failed write leaves nothing of the data.
unfoldable pub write_and_close : FileAnswers → Text → Bytes → Directory → Directory × Saved
unfolding removed
write_and_close answers name file files =
    if answers.write_works
    then if answers.close_works
      then ((name, file) ∷ files, saved name)
      else (removed answers.remove_works name ((name, file) ∷ files), failed close_failed)
    else (removed answers.remove_works name ((name, []) ∷ files), failed write_failed)

unfoldable pub save_encoded : FileAnswers → Encoding → Directory → Directory × Saved
unfolding write_and_close
save_encoded answers no_pcm files = (files, failed encode_failed)
save_encoded answers panicked files = (files, crashed)
save_encoded answers (encoded file) files =
    if answers.mkdir_works
    then (elim answers.created [
      | none ↦ (files, failed create_failed)
      | some name ↦ write_and_close answers name file files
    ])
    else (files, failed mkdir_failed)

-- SaveWAVFile
unfoldable pub save_wav_file :
    Truncating → FileAnswers → ℕ → ℕ → ℕ → Bytes → Directory → Directory × Saved
unfolding save_encoded encode_wav
save_wav_file rs answers rate bit_depth channels pcm files =
    save_encoded answers (encode_wav rs rate bit_depth channels pcm) files
