-- ===== src/History/Schedules.antt =====
-- internal/history/manager.go: the methods beside one another.
-- AddMessage, summarize and save let the mutex go between their parts, so the parts of several calls
-- mix. saveInternal holds the read lock only, which keeps no other save away, and all saves use the
-- same temporary file: writing it and renaming it are two steps.
use ai_assistant_driver.Common.{
  ℕ, ◌+◌, ◌≡◌, Bool, true, false, Option, none, some, List, [], ◌∷◌, ◌++◌, append-nil, append_assoc,
  Text, Bytes,
}
use ai_assistant_driver.History.Prompt.{Message}
use ai_assistant_driver.History.{Storage, Manager, Codec, Disk, add_locked, snapshot}
use ai_assistant_driver.History.Window.{Tracks, add_locked-Tracks}

-- `to_save` are the storages that were taken and not yet written, `to_rename` counts the saves that
-- have written the temporary file; `asked` counts the goroutines of summarize that wait for an
-- answer, `answered` those that have set the summary and not yet taken a storage.
pub record Shared : Type 0 where
  pub manager : Manager
  pub disk : Disk
  pub to_save : List Storage
  pub to_rename : ℕ
  pub asked : ℕ
  pub answered : ℕ

unfoldable pub one_more_if : Bool → ℕ → ℕ
one_more_if true n = n + 1
one_more_if false n = n

-- AddMessage up to `m.mu.Unlock()`, and the start of `go m.summarize()`.
unfoldable pub add_part : Message → Shared → Shared
unfolding add_locked one_more_if
add_part msg s =
    let (m, storage, trigger) = add_locked msg s.manager in
    record s {
      manager = m;
      to_save = s.to_save ++ storage ∷ [];
      asked = one_more_if trigger s.asked;
    }

-- os.Rename of the temporary file, which fails if there is none.
unfoldable pub rename : Disk → Disk
rename disk = elim disk.temp [ none ↦ disk | some b ↦ record { temp = none; final = some b } ]

-- One part of a call, with the message that it adds.
pub data Part (codec : Codec) : List Message → Shared → Shared → Type 0 where
  add : (msg : Message) (s : Shared) → Part codec (msg ∷ []) s (add_part msg s)
  write_temp :
      (before after : List Storage) (storage : Storage) (b : Bytes) (s : Shared)
      → s.to_save ≡ before ++ storage ∷ after
      → codec.marshal storage ≡ some b
      → Part codec [] s (record s {
        disk = record s.disk { temp = some b };
        to_save = before ++ after;
        to_rename = s.to_rename + 1;
      })
  fail_save :
      (before after : List Storage) (storage : Storage) (left : Option Bytes) (s : Shared)
      → s.to_save ≡ before ++ storage ∷ after
      → Part codec [] s
          (record s { disk = record s.disk { temp = left }; to_save = before ++ after })
  rename_temp :
      (n : ℕ) (s : Shared)
      → s.to_rename ≡ n + 1
      → Part codec [] s (record s { disk = rename s.disk; to_rename = n })
  fail_rename :
      (n : ℕ) (s : Shared) → s.to_rename ≡ n + 1 → Part codec [] s (record s { to_rename = n })
  fail_summary : (n : ℕ) (s : Shared) → s.asked ≡ n + 1 → Part codec [] s (record s { asked = n })
  set_summary :
      (n : ℕ) (text : Text) (s : Shared)
      → s.asked ≡ n + 1
      → Part codec [] s (record s {
        manager = record s.manager { summary = text };
        asked = n;
        answered = s.answered + 1;
      })
  take_summary :
      (n : ℕ) (s : Shared)
      → s.answered ≡ n + 1
      → Part codec [] s (record s { to_save = s.to_save ++ snapshot s.manager ∷ []; answered = n })

-- Parts in the order in which they happen, with the messages that they add.
pub data Schedule (codec : Codec) : List Message → Shared → Shared → Type 0 where
  done : (s : Shared) → Schedule codec [] s s
  part_then :
      {s t u : Shared} {added more : List Message}
      → Part codec added s t
      → Schedule codec more t u
      → Schedule codec (added ++ more) s u

module _ (codec : Codec) where
  Part-Tracks :
      (log added : List Message) (s t : Shared)
      → Part codec added s t
      → Tracks log s.manager
      → Tracks (log ++ added) t.manager
  unfolding add_part
  Part-Tracks log _ s _ (add msg _) h = add_locked-Tracks msg log s.manager h
  Part-Tracks log _ s _ (write_temp before after storage b _ e f) h = rw append-nil h
  Part-Tracks log _ s _ (fail_save before after storage left _ e) h = rw append-nil h
  Part-Tracks log _ s _ (rename_temp n _ e) h = rw append-nil h
  Part-Tracks log _ s _ (fail_rename n _ e) h = rw append-nil h
  Part-Tracks log _ s _ (fail_summary n _ e) h = rw append-nil h
  Part-Tracks log _ s _ (set_summary n text _ e) h =
      rw append-nil (record { buffer_is = h.buffer_is; count_is = h.count_is })
  Part-Tracks log _ s _ (take_summary n _ e) h = rw append-nil h

  -- However the parts of the calls mix and whichever saves fail, the buffer is the last ten of the
  -- messages in the order in which AddMessage took the lock, and the count is their number modulo
  -- 2 ^ 64, if that was so before.
  pub Schedule-Tracks :
      (log added : List Message) (s t : Shared)
      → Schedule codec added s t
      → Tracks log s.manager
      → Tracks (log ++ added) t.manager
  Schedule-Tracks log _ s _ (done _) h = rw append-nil h
  Schedule-Tracks log _ s u (part_then {t = t} {added = added} {more = more} p rest) h =
      rw (← append_assoc log added more)
        (Schedule-Tracks (log ++ added) more t u rest (Part-Tracks log added s t p h))
