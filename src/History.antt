-- ===== src/History.antt =====
-- internal/history/manager.go: the conversation buffer, its file and its summaries.
-- A method that holds the mutex is one function on the state. `Codec` is encoding/json as the file
-- uses it; the directory holds the temporary file and the final one. int64 is its bit pattern.
pub mod Prompt
pub mod Context
pub mod Window
pub mod Durable
pub mod Schedules
pub mod Overwritten
mod Tests
use ai_assistant_driver.Common.{
  ℕ, ◌+◌, ◌-◌, ◌%◌, ◌^◌, ◌≡◌, Bool, true, false, ◌&&◌, Option, none, some, List, [], ◌∷◌, ◌++◌, ltb,
  ◌==◌, if◌then◌else◌, length, drop, Text, Bytes, Result, ok, err,
}
use ai_assistant_driver.History.Prompt.{Message, summarization_prompt}

abbrev pub buffer_size : ℕ
buffer_size = 10

pub record Storage : Type 0 where
  pub summary : Text
  pub messages : List Message
  pub total_message_count : ℕ

-- `has_client` is `aiClient != nil`.
pub record Manager : Type 0 where
  pub buffer : List Message
  pub summary : Text
  pub total_count : ℕ
  pub has_client : Bool

-- json.MarshalIndent of a Storage, which may fail, and json.Unmarshal of what it wrote.
pub record Codec : Type 0 where
  pub marshal : Storage → Option Bytes
  pub unmarshal : Bytes → Option Storage
  pub unmarshal-marshal : (s : Storage) (b : Bytes) → marshal s ≡ some b → unmarshal b ≡ some s

-- The two files of the storage directory.
pub record Disk : Type 0 where
  pub temp : Option Bytes
  pub final : Option Bytes

-- What the operating system answers. A failed write leaves something in the temporary file.
pub data WriteAnswer : Type 0 where
  written : WriteAnswer
  broken : Option Bytes → WriteAnswer

pub record Answers : Type 0 where
  pub mkdir_works : Bool
  pub write : WriteAnswer
  pub rename_works : Bool

pub data SaveError : Type 0 where
  mkdir_failed marshal_failed write_failed rename_failed : SaveError

-- `totalCount % 10 == 0` on the int64 with this bit pattern.
unfoldable divides_by_ten : ℕ → Bool
divides_by_ten w = if ltb w (2 ^ 63) then w % 10 == 0 else (2 ^ 64 - w) % 10 == 0

unfoldable pub push : Message → List Message → List Message
push msg buffer =
    let longer = buffer ++ msg ∷ [] in
    if ltb buffer_size (length longer) then drop 1 longer else longer

abbrev pub snapshot : Manager → Storage
snapshot m = record {
  summary = m.summary;
  messages = m.buffer;
  total_message_count = m.total_count;
}

-- AddMessage up to `m.mu.Unlock()`: the new state, what is to be saved, whether to summarize.
unfoldable pub add_locked : Message → Manager → Manager × Storage × Bool
unfolding push divides_by_ten
add_locked msg m =
    let total = (m.total_count + 1) % 2 ^ 64 in
    let m' = record m { buffer = push msg m.buffer; total_count = total } in
    (m', snapshot m', divides_by_ten total && m.has_client)

module _ (codec : Codec) where
  write_temp : Answers → Bytes → Disk → Disk × Option SaveError
  write_temp answers bytes disk = elim answers.write [
    | broken left ↦ (record disk { temp = left }, some write_failed)
    | written ↦
        if answers.rename_works
        then (record { temp = none; final = some bytes }, none)
        else (record disk { temp = some bytes }, some rename_failed)
  ]

  unfoldable pub save_internal : Answers → Storage → Disk → Disk × Option SaveError
  unfolding write_temp
  save_internal answers storage disk =
      if answers.mkdir_works
      then (elim (codec.marshal storage) [
        | none ↦ (disk, some marshal_failed)
        | some bytes ↦ write_temp answers bytes disk
      ])
      else (disk, some mkdir_failed)

  -- The whole of AddMessage, no other goroutine coming between. The Bool says whether it starts
  -- `go m.summarize()`. A save that fails is logged only.
  unfoldable pub add_message : Answers → Message → Manager × Disk → Manager × Disk × Bool
  unfolding add_locked save_internal
  add_message answers msg (m, disk) =
      let (m', storage, trigger) = add_locked msg m in
      (m', (save_internal answers storage disk).0, trigger)

  -- The second half of `summarize`: what it does with the client's answer.
  unfoldable pub finish_summary : Answers → Result Text Text → Manager × Disk → Manager × Disk
  unfolding save_internal
  finish_summary answers (err e) (m, disk) = (m, disk)
  finish_summary answers (ok new_summary) (m, disk) =
      let m' = record m { summary = new_summary } in
      (m', (save_internal answers (snapshot m') disk).0)

  unfoldable pub restore : Option Storage → Manager → Manager
  restore none m = m
  restore (some storage) m = record m {
    buffer =
        drop
          (if ltb buffer_size (length storage.messages)
            then length storage.messages - buffer_size
            else 0)
          storage.messages;
    summary = storage.summary;
    total_count = storage.total_message_count;
  }

  -- NewConversationManager on what os.ReadFile returned, `none` for any error. A file that is
  -- missing or that does not parse gives a fresh manager.
  unfoldable pub new_conversation_manager : Bool → Option Bytes → Manager
  unfolding restore
  new_conversation_manager has_client contents =
      let fresh : Manager = record {
        buffer = [];
        summary = [];
        total_count = 0;
        has_client = has_client;
      } in
      elim contents [ none ↦ fresh | some bytes ↦ restore (codec.unmarshal bytes) fresh ]

-- The first half of `summarize`: the prompt from what it copied under the read lock.
unfoldable summary_prompt : Manager → Text
unfolding summarization_prompt
summary_prompt m = summarization_prompt m.summary m.buffer
