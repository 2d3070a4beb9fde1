-- ===== src/History/Overwritten.antt =====
-- internal/history/manager.go: a summary that is set and saved can be lost again from the file.
use ai_assistant_driver.Common.{◌≡◌, refl, Bool, false, none, some, [], ◌∷◌, Text, Bytes}
use ai_assistant_driver.History.Prompt.{Message}
use ai_assistant_driver.History.{
  Storage, Manager, Codec, Disk, add_locked, snapshot, new_conversation_manager, restore,
}
use ai_assistant_driver.History.Schedules.{
  Shared, Schedule, add, write_temp, rename_temp, set_summary, take_summary, done, part_then,
  add_part, rename, one_more_if,
}

-- One summary is asked for and nothing else is under way.
abbrev summarizing : Manager → Disk → Shared
summarizing m disk = record {
  manager = m;
  disk = disk;
  to_save = [];
  to_rename = 0;
  asked = 1;
  answered = 0;
}

-- Nothing is under way.
abbrev pub quiet : Manager → Disk → Shared
quiet m disk = record {
  manager = m;
  disk = disk;
  to_save = [];
  to_rename = 0;
  asked = 0;
  answered = 0;
}

module _ (codec : Codec) where
  restart_summary :
      (has_client : Bool) (b : Bytes) (storage : Storage)
      → codec.marshal storage ≡ some b
      → (new_conversation_manager codec has_client (some b)).summary ≡ storage.summary
  unfolding new_conversation_manager restore
  restart_summary has_client b storage marshalled =
      rw (codec.unmarshal-marshal storage b marshalled) refl

  -- The storage of a message is taken, then the summary is set, saved and renamed, and then the
  -- message's storage is.
  overwriting :
      (msg : Message) (m : Manager) (disk : Disk) (text : Text) (older newer : Bytes)
      → let (m', storage, trigger) = add_locked msg m in
        trigger ≡ false
        → codec.marshal storage ≡ some older
        → codec.marshal (snapshot (record m' { summary = text })) ≡ some newer
        → Schedule codec
            (msg ∷ [])
            (summarizing m disk)
            (quiet (record m' { summary = text }) (record { temp = none; final = some older }))
  unfolding add_part rename one_more_if
  overwriting msg m disk text older newer untriggered old new =
      let (m', storage, trigger) = add_locked msg m in
      let told = record m' { summary = text } in
      let begun : Shared = add_part msg (summarizing m disk) in
      let saving : Shared = record (quiet told disk) { to_save = storage ∷ snapshot told ∷ [] } in
      let saved = rename (record disk { temp = some newer }) in
      part_then (add msg (summarizing m disk)) (
        part_then (set_summary 0 text begun (rw untriggered refl)) (
          part_then
            (take_summary 0 (record (quiet told disk) { to_save = storage ∷ []; answered = 1 })
              refl)
            (part_then (write_temp (storage ∷ []) [] (snapshot told) newer saving refl new) (
              part_then
                (rename_temp 0
                  (record (quiet told (record disk { temp = some newer })) {
                    to_save = storage ∷ [];
                    to_rename = 1;
                  })
                  refl)
                (part_then
                  (write_temp [] [] storage older
                    (record (quiet told saved) { to_save = storage ∷ [] }) refl old)
                  (part_then
                    (rename_temp 0
                      (record (quiet told (record saved { temp = some older })) { to_rename = 1 })
                      refl)
                    (done _)))))))

  -- If a summary is under way when a message is added that starts no other, there is an order in
  -- which every save succeeds and all calls end, and after which the manager has the new summary
  -- while a restart from the file has the old one.
  summary_overwritten :
      (msg : Message) (m : Manager) (disk : Disk) (text : Text) (older newer : Bytes)
      → (add_locked msg m).2 ≡ false
      → codec.marshal (add_locked msg m).1 ≡ some older
      → codec.marshal (snapshot (record (add_locked msg m).0 { summary = text })) ≡ some newer
      → (m' : Manager) × (disk' : Disk) × Schedule codec
          (msg ∷ [])
          (summarizing m disk)
          (quiet m' disk')
        × (m'.summary ≡ text)
        × ((new_conversation_manager codec m.has_client disk'.final).summary ≡ m.summary)
  unfolding add_locked
  summary_overwritten msg m disk text older newer untriggered old new = (
    record (add_locked msg m).0 { summary = text },
    record { temp = none; final = some older },
    overwriting msg m disk text older newer untriggered old new,
    refl,
    restart_summary m.has_client older _ old,
  )
