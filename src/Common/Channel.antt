-- ===== src/Common/Channel.antt =====
-- A buffered Go channel as the list of what it holds, oldest first, and the send of a `select` with
-- a `default`, which drops the value when the buffer is full.
use Prim.Native.Nat.{ℕ, ◌≤◌, ◌<◌}
use mathlib.Core.Path.{◌≡◌, refl}
use mathlib.Core.List.{List, [], ◌∷◌, ◌++◌}
use native.Mathlib.Omega.{arith}
use ai_assistant_driver.Common.Tests.{ltb, lt→ltb, if◌then◌else◌}
use ai_assistant_driver.Common.Lists.{length, length-append}

unfoldable pub try_send {ℓ} : {A : Type ℓ} → ℕ → A → List A → List A
try_send cap x buffered = if ltb (length buffered) cap then buffered ++ x ∷ [] else buffered

pub try_send_room {ℓ} :
    {A : Type ℓ} (cap : ℕ) (x : A) (buffered : List A)
    → length buffered < cap
    → try_send cap x buffered ≡ buffered ++ x ∷ []
unfolding try_send
try_send_room cap x buffered h = rw (lt→ltb (length buffered) cap h) refl

pub length-try_send {ℓ} :
    {A : Type ℓ} (cap : ℕ) (x : A) (buffered : List A)
    → length buffered ≤ cap
    → length (try_send cap x buffered) ≤ cap
unfolding try_send
length-try_send cap x buffered h = ground (arith, length-append buffered (x ∷ []))
