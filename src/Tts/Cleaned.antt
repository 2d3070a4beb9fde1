-- ===== src/Tts/Cleaned.antt =====
-- internal/tts/wav.go: what SaveWAVFile leaves in the directory.
use ai_assistant_driver.Common.{
  ℕ, ◌≡◌, refl, Bool, true, false, Option, none, some, [], ◌∷◌, All, Bytes, Text, text_eq,
  text_eq_refl,
}
use ai_assistant_driver.Tts.Files.{
  Truncating, FileAnswers, SaveError, encode_failed, mkdir_failed, create_failed, write_failed,
  close_failed, Saved, crashed, failed, saved, Directory, remove_named, removed, Encoding, no_pcm,
  panicked, encoded, write_and_close, save_encoded, encode_wav, save_wav_file,
}

-- No file of the directory has the name.
abbrev IsFresh : Text → Directory → Type 0
IsFresh name files = All (λ f. text_eq name f.0 ≡ false) files

-- os.CreateTemp chooses a name that no file has.
abbrev IsTemporary : FileAnswers → Directory → Type 0
IsTemporary answers files = (name : Text) → answers.created ≡ some name → IsFresh name files

-- A file is saved with what was encoded, beside the others; otherwise the directory is as it was.
pub data IsClean (wav : Encoding) (before after : Directory) : Saved → Type 0 where
  added :
      (name : Text) (file : Bytes)
      → wav ≡ encoded file
      → after ≡ (name, file) ∷ before
      → IsClean wav before after (saved name)
  unchanged : (e : SaveError) → after ≡ before → IsClean wav before after (failed e)
  broken_off : after ≡ before → wav ≡ panicked → IsClean wav before after crashed

remove_named_fresh :
    (name : Text) (files : Directory) → IsFresh name files → remove_named name files ≡ files
unfolding remove_named
remove_named_fresh name [] h = refl
remove_named_fresh name ((n, contents) ∷ files) (apart, h) =
    rw (apart, remove_named_fresh name files h) refl

remove_named_added :
    (name : Text) (contents : Bytes) (files : Directory)
    → IsFresh name files
    → remove_named name ((name, contents) ∷ files) ≡ files
unfolding remove_named
remove_named_added name contents files h =
    rw (text_eq_refl name, remove_named_fresh name files h) refl

write_and_close-IsClean :
    (answers : FileAnswers) (name : Text) (file : Bytes) (files : Directory)
    → answers.remove_works ≡ true
    → IsFresh name files
    → let (files', result) = write_and_close answers name file files in
      IsClean (encoded file) files files' result
unfolding write_and_close removed
write_and_close-IsClean answers name file files removes fresh =
    go answers.write_works answers.close_works
  where
    go :
        (writes closes : Bool)
        → let (files', result) =
            write_and_close
              (record answers { write_works = writes; close_works = closes })
              name
              file
              files in
          IsClean (encoded file) files files' result
    go true true = added name file refl refl
    go true false = unchanged close_failed (rw removes (remove_named_added name file files fresh))
    go false closes = unchanged write_failed (rw removes (remove_named_added name [] files fresh))

save_encoded-IsClean :
    (answers : FileAnswers) (wav : Encoding) (files : Directory)
    → answers.remove_works ≡ true
    → IsTemporary answers files
    → let (files', result) = save_encoded answers wav files in IsClean wav files files' result
unfolding save_encoded
save_encoded-IsClean answers no_pcm files removes fresh = unchanged encode_failed refl
save_encoded-IsClean answers panicked files removes fresh = broken_off refl refl
save_encoded-IsClean answers (encoded file) files removes fresh =
    go answers.mkdir_works answers.created fresh
  where
    go :
        (makes : Bool) (created : Option Text)
        → ((name : Text) → created ≡ some name → IsFresh name files)
        → let (files', result) =
            save_encoded
              (record answers { mkdir_works = makes; created = created })
              (encoded file)
              files in
          IsClean (encoded file) files files' result
    go false created fresh = unchanged mkdir_failed refl
    go true none fresh = unchanged create_failed refl
    go true (some name) fresh =
        write_and_close-IsClean answers name file files removes (fresh name refl)

-- If the system chooses a temporary name that is not taken and removes a file when it is asked to,
-- SaveWAVFile either adds one file with all that was encoded and returns its name, or leaves the
-- directory as it was, whatever else fails.
pub save_wav_file-IsClean :
    (rs : Truncating) (answers : FileAnswers) (rate bit_depth channels : ℕ) (pcm : Bytes)
    (files : Directory)
    → answers.remove_works ≡ true
    → IsTemporary answers files
    → let (files', result) = save_wav_file rs answers rate bit_depth channels pcm files in
      IsClean (encode_wav rs rate bit_depth channels pcm) files files' result
unfolding save_wav_file
save_wav_file-IsClean rs answers rate bit_depth channels pcm files removes fresh =
    save_encoded-IsClean answers (encode_wav rs rate bit_depth channels pcm) files removes fresh
