-- ===== src/History/Durable.antt =====
-- The file: it is replaced whole or not at all, and a restart reads back what was saved.
use ai_assistant_driver.Common.{
  ◌-◌, ◌≤◌, ◌≡◌, refl, ◌≢◌, Bool, Option, none, some, [], length, length-drop, Bytes, Text, ok,
  arith, Option-cases, inl, inr,
}
use ai_assistant_driver.History.{
  Manager, Storage, Codec, Disk, Answers, SaveError, buffer_size, snapshot, save_internal,
  finish_summary, new_conversation_manager, restore,
}

-- What a save leaves in the final file, by the error that it returns.
pub data IsAtomic (codec : Codec) (storage : Storage) (before after : Disk)
    : Option SaveError → Type 0 where
  kept : (e : SaveError) → after.final ≡ before.final → IsAtomic codec storage before after (some e)
  replaced :
      (b : Bytes)
      → codec.marshal storage ≡ some b
      → after.final ≡ some b
      → IsAtomic codec storage before after none

module _ (codec : Codec) where
  save_internal_kept :
      (answers : Answers) (storage : Storage) (disk : Disk)
      → (save_internal codec answers storage disk).1 ≢ none
      → (save_internal codec answers storage disk).0.final ≡ disk.final
  unfolding save_internal
  save_internal_kept answers storage disk failed = ground arith

  save_internal_replaced :
      (answers : Answers) (storage : Storage) (disk : Disk)
      → (save_internal codec answers storage disk).1 ≡ none
      → (b : Bytes) × (codec.marshal storage ≡ some b)
        × ((save_internal codec answers storage disk).0.final ≡ some b)
  unfolding save_internal
  save_internal_replaced answers storage disk succeeded =
      elim (Option-cases (codec.marshal storage)) [
        | inl refused ↦ absurd (ground arith)
        | inr (b, marshalled) ↦ (b, marshalled, ground arith)
      ]

  IsAtomic-cases :
      (storage : Storage) (before after : Disk) (e : Option SaveError)
      → (e ≢ none → after.final ≡ before.final)
      → (e ≡ none → (b : Bytes) × (codec.marshal storage ≡ some b) × (after.final ≡ some b))
      → IsAtomic codec storage before after e
  IsAtomic-cases storage before after (some e) old new = kept e (old (λ p. cc))
  IsAtomic-cases storage before after none old new =
      let (b, marshalled, final_is) = new refl in replaced b marshalled final_is

  -- Whatever fails, the final file is either the old one, and an error is returned, or the complete
  -- new one, and none is.
  pub save_internal-IsAtomic :
      (answers : Answers) (storage : Storage) (disk : Disk)
      → let (disk', e) = save_internal codec answers storage disk in
        IsAtomic codec storage disk disk' e
  save_internal-IsAtomic answers storage disk =
      let (disk', e) = save_internal codec answers storage disk in
      IsAtomic-cases storage disk disk' e (save_internal_kept answers storage disk)
        (save_internal_replaced answers storage disk)

  length-restore :
      (found : Option Storage) (m : Manager)
      → length m.buffer ≤ buffer_size
      → length (restore codec found m).buffer ≤ buffer_size
  unfolding restore
  length-restore none m h = h
  length-restore (some storage) m h =
      ground (arith, length-drop (length storage.messages - 10) storage.messages)

  restore-snapshot :
      (m fresh : Manager)
      → length m.buffer ≤ buffer_size
      → fresh.has_client ≡ m.has_client
      → restore codec (some (snapshot m)) fresh ≡ m
  unfolding restore
  restore-snapshot m fresh h same = ground arith

  -- The buffer of a manager that is made from any file contents holds at most ten messages.
  pub length-new_conversation_manager :
      (has_client : Bool) (contents : Option Bytes)
      → length (new_conversation_manager codec has_client contents).buffer ≤ buffer_size
  unfolding new_conversation_manager
  length-new_conversation_manager has_client none = omega arith
  length-new_conversation_manager has_client (some bytes) =
      length-restore (codec.unmarshal bytes) _ (omega arith)

  new_conversation_manager_reads :
      (bytes : Bytes) (m : Manager)
      → length m.buffer ≤ buffer_size
      → codec.unmarshal bytes ≡ some (snapshot m)
      → new_conversation_manager codec m.has_client (some bytes) ≡ m
  unfolding new_conversation_manager
  new_conversation_manager_reads bytes m h e = rw e (
      restore-snapshot m
        (record { buffer = []; summary = []; total_count = 0; has_client = m.has_client }) h refl)

  -- After a save that reports no error, a restart from the file gives the manager that was saved, if
  -- its buffer is within the limit.
  pub new_conversation_manager-save_internal :
      (answers : Answers) (m : Manager) (disk : Disk)
      → length m.buffer ≤ buffer_size
      → (save_internal codec answers (snapshot m) disk).1 ≡ none
      → new_conversation_manager codec m.has_client
          (save_internal codec answers (snapshot m) disk).0.final
        ≡ m
  new_conversation_manager-save_internal answers m disk h saved =
      let (b, marshalled, final_is) = save_internal_replaced answers (snapshot m) disk saved in
      rw final_is (new_conversation_manager_reads b m h (codec.unmarshal-marshal _ b marshalled))

  -- After a summary that was saved without an error, a restart from the file gives the manager with
  -- the client's answer as its summary and all else as it was, if its buffer is within the limit.
  finish_summary-restart :
      (answers : Answers) (answer : Text) (m : Manager) (disk : Disk)
      → length m.buffer ≤ buffer_size
      → (save_internal codec answers (snapshot (record m { summary = answer })) disk).1 ≡ none
      → new_conversation_manager codec m.has_client
          (finish_summary codec answers (ok answer) (m, disk)).1.final
        ≡ record m { summary = answer }
  unfolding finish_summary
  finish_summary-restart answers answer m disk h saved =
      new_conversation_manager-save_internal answers (record m { summary = answer }) disk h saved
