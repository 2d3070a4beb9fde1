-- ===== src/History/Tests.antt =====
-- Runs of the history, and its theorems at concrete inputs.
use mathlib.Core.Path.{subst}
use ai_assistant_driver.Common.{
  ℕ, zero, suc, ◌%◌, ◌≤◌, ◌≡◌, refl, ap, ◌↔◌, ◌∙◌, true, Option, none, some, List, [], ◌∷◌, ◌++◌,
  length, take, drop, take_append, drop_append, Bytes, Text, codes, arith, decimal,
}
use ai_assistant_driver.History.{
  Manager, Storage, Codec, Disk, Answers, written, broken, buffer_size, snapshot, add_locked,
  save_internal, new_conversation_manager,
}
use ai_assistant_driver.History.Prompt.{Message, conversation}
use ai_assistant_driver.History.Window.{Tracks, add_locked_trigger}
use ai_assistant_driver.History.Schedules.{
  Schedule, add, part_then, done, Schedule-Tracks, add_part,
}
use ai_assistant_driver.History.Overwritten.{quiet}
use ai_assistant_driver.History.Durable.{
  IsAtomic, save_internal-IsAtomic, new_conversation_manager-save_internal,
  length-new_conversation_manager,
}

-- A codec that puts its length before each text, over numbers of any size.
abbrev put_text : Text → Bytes → Bytes
put_text t rest = length t ∷ (t ++ rest)

abbrev get_text : Bytes → Text × Bytes
get_text [] = ([], [])
get_text (n ∷ b) = (take n b, drop n b)

abbrev put_messages : List Message → Bytes
put_messages [] = []
put_messages (m ∷ rest) =
    m.timestamp ∷ put_text m.transcript (put_text m.response (put_messages rest))

abbrev message_of : ℕ → Text × Bytes → Text × Bytes → Message
message_of t (x, b) (y, c) = record { transcript = x; response = y; timestamp = t }

abbrev get_messages : ℕ → Bytes → List Message
get_messages zero b = []
get_messages (suc fuel) [] = []
get_messages (suc fuel) (t ∷ b) =
    message_of t (get_text b) (get_text (get_text b).1)
    ∷ get_messages fuel (get_text (get_text b).1).1

get_text-put_text : (t : Text) (rest : Bytes) → get_text (put_text t rest) ≡ (t, rest)
get_text-put_text t rest = λ i. (take_append t rest i, drop_append t rest i)

get_messages-put_messages : (ms : List Message) → get_messages (length ms) (put_messages ms) ≡ ms
get_messages-put_messages [] = refl
get_messages-put_messages (m ∷ rest) =
    ap (λ p. message_of m.timestamp p (get_text p.1) ∷ get_messages (length rest) (get_text p.1).1)
      (get_text-put_text m.transcript (put_text m.response (put_messages rest)))
    ∙ ap (λ p. message_of m.timestamp (m.transcript, []) p ∷ get_messages (length rest) p.1)
        (get_text-put_text m.response (put_messages rest))
    ∙ ap (λ ms. m ∷ ms) (get_messages-put_messages rest)

abbrev encoded : Storage → Bytes
encoded s = length s.messages ∷ s.total_message_count ∷ put_text s.summary (put_messages s.messages)

abbrev marshal_storage : Storage → Option Bytes
marshal_storage s = some (encoded s)

abbrev storage_of : ℕ → ℕ → Text × Bytes → Storage
storage_of n count (summary, b) = record {
  summary = summary;
  messages = get_messages n b;
  total_message_count = count;
}

abbrev unmarshal_storage : Bytes → Option Storage
unmarshal_storage (n ∷ count ∷ b) = some (storage_of n count (get_text b))
unmarshal_storage _ = none

reads_back :
    (s : Storage)
    → storage_of
        (length s.messages)
        s.total_message_count
        (get_text (put_text s.summary (put_messages s.messages)))
      ≡ s
reads_back s =
    ap (storage_of (length s.messages) s.total_message_count)
      (get_text-put_text s.summary (put_messages s.messages))
    ∙ ap (λ ms. record s { messages = ms }) (get_messages-put_messages s.messages)

storage_round_trip :
    (s : Storage) (b : Bytes) → marshal_storage s ≡ some b → unmarshal_storage b ≡ some s
storage_round_trip s b h =
    let same : encoded s ≡ b = cc h in
    subst (λ x. unmarshal_storage x ≡ some s) same (ap (λ x. some x) (reads_back s))

abbrev codec : Codec
codec = record {
  marshal = marshal_storage;
  unmarshal = unmarshal_storage;
  unmarshal-marshal = storage_round_trip;
}

abbrev all_works : Answers
all_works = record { mkdir_works = true; write = written; rename_works = true }

abbrev disk_full : Answers
disk_full = record { mkdir_works = true; write = broken (some (1 ∷ [])); rename_works = true }

abbrev said : ℕ → Message
said n = record { transcript = codes "hi"; response = codes "hello"; timestamp = n }

abbrev empty_disk : Disk
empty_disk = record { temp = none; final = none }

abbrev manager : Manager
manager = record {
  buffer = said 1 ∷ said 2 ∷ [];
  summary = codes "greetings";
  total_count = 2;
  has_client = true;
}

abbrev nine : List Message
nine = said 1 ∷ said 2 ∷ said 3 ∷ said 4 ∷ said 5 ∷ said 6 ∷ said 7 ∷ said 8 ∷ said 9 ∷ []

abbrev after_nine : Manager
after_nine = record { buffer = nine; summary = []; total_count = 9; has_client = true }

one_message : conversation 0 (said 1 ∷ []) ≡ codes "1. User: \"hi\"\n   Assistant: \"hello\"\n\n"
unfolding conversation decimal
one_message = refl

add_locked_trigger_example :
    ((add_locked (said 10) after_nine).2 ≡ true) ↔ ((true ≡ true) × (10 % 10 ≡ 0))
add_locked_trigger_example =
    add_locked_trigger (said 10) nine after_nine (record { buffer_is = refl; count_is = refl })
      (omega arith)

save_internal-IsAtomic_example :
    IsAtomic codec
      (snapshot manager)
      empty_disk
      (save_internal codec disk_full (snapshot manager) empty_disk).0
      (save_internal codec disk_full (snapshot manager) empty_disk).1
save_internal-IsAtomic_example =
    save_internal-IsAtomic codec disk_full (snapshot manager) empty_disk

restart_example :
    new_conversation_manager codec true
      (save_internal codec all_works (snapshot manager) empty_disk).0.final
    ≡ manager
restart_example =
    new_conversation_manager-save_internal codec all_works manager empty_disk (omega arith)
      (unfold save_internal in refl)

length-new_conversation_manager_example :
    length (new_conversation_manager codec true (some (3 ∷ 4 ∷ []))).buffer ≤ buffer_size
length-new_conversation_manager_example =
    length-new_conversation_manager codec true (some (3 ∷ 4 ∷ []))

-- Two calls of AddMessage whose saves are still to come.
abbrev two_added :
    Schedule codec
      (said 3 ∷ said 4 ∷ [])
      (quiet manager empty_disk)
      (add_part (said 4) (add_part (said 3) (quiet manager empty_disk)))
two_added =
    part_then (add (said 3) (quiet manager empty_disk))
      (part_then (add (said 4) (add_part (said 3) (quiet manager empty_disk))) (done _))

Schedule-Tracks_example :
    Tracks
      (said 1 ∷ said 2 ∷ said 3 ∷ said 4 ∷ [])
      (add_part (said 4) (add_part (said 3) (quiet manager empty_disk))).manager
Schedule-Tracks_example =
    Schedule-Tracks codec (said 1 ∷ said 2 ∷ []) (said 3 ∷ said 4 ∷ []) (quiet manager empty_disk) _
      two_added (record { buffer_is = refl; count_is = refl })
