-- ===== src/Esphome/Client/Retry.antt =====
-- ConnectWithRetry: the waits between attempts to connect.
use ai_assistant_driver.Common.{
  ℕ, zero, suc, ◌*◌, ◌^◌, ◌≤◌, ◌≡◌, refl, ap, min, max, List, [], ◌∷◌, ltb, if◌then◌else◌, All,
  arith,
}

-- Durations are in nanoseconds; `scale` is the conversion to float64 and back around the multiplier.
pub record ReconnectConfig : Type 0 where
  pub initial_delay : ℕ
  pub max_delay : ℕ
  pub scale : ℕ → ℕ

abbrev pub second : ℕ
second = 1_000_000_000

-- A product with 2.0 is exact at these sizes.
unfoldable pub default_reconnect_config : ReconnectConfig
default_reconnect_config = record {
  initial_delay = second;
  max_delay = 30 * second;
  scale = λ d. d * 2;
}

-- One round of the loop, as it turns out: the context is done before the attempt, the attempt works,
-- it fails and the context is done in the wait, or it fails and the wait is over.
pub data Round : Type 0 where
  cancelled works cancelled_waiting fails : Round

pub data Outcome : Type 0 where
  is_connected is_cancelled still_trying : Outcome

unfoldable next_delay : ReconnectConfig → ℕ → ℕ
next_delay cfg delay =
    let longer = cfg.scale delay in if ltb cfg.max_delay longer then cfg.max_delay else longer

-- The rounds with the waits they have begun.
unfoldable retry_from : ReconnectConfig → ℕ → List Round → List ℕ × Outcome
unfolding next_delay
retry_from cfg delay [] = ([], still_trying)
retry_from cfg delay (cancelled ∷ rounds) = ([], is_cancelled)
retry_from cfg delay (works ∷ rounds) = ([], is_connected)
retry_from cfg delay (cancelled_waiting ∷ rounds) = (delay ∷ [], is_cancelled)
retry_from cfg delay (fails ∷ rounds) =
    let (waits, outcome) = retry_from cfg (next_delay cfg delay) rounds in (delay ∷ waits, outcome)

unfoldable pub connect_with_retry : ReconnectConfig → List Round → List ℕ × Outcome
unfolding retry_from
connect_with_retry cfg rounds = retry_from cfg cfg.initial_delay rounds

abbrev pub failures : ℕ → List Round → List Round
failures zero rounds = rounds
failures (suc n) rounds = fails ∷ failures n rounds

-- `n` waits, from the `k`th on: 2 ^ k seconds, 30 at most.
unfoldable pub backoff : ℕ → ℕ → List ℕ
backoff k zero = []
backoff k (suc n) = min (2 ^ k * second) (30 * second) ∷ backoff (suc k) n

next_delay-doubles :
    (k : ℕ)
    → next_delay default_reconnect_config (min (2 ^ k * second) (30 * second))
      ≡ min (2 ^ suc k * second) (30 * second)
unfolding next_delay default_reconnect_config
next_delay-doubles k = ground arith

retry_from-failures :
    (n k : ℕ)
    → retry_from default_reconnect_config
        (min (2 ^ k * second) (30 * second))
        (failures n (works ∷ []))
      ≡ (backoff k n, is_connected)
unfolding retry_from backoff
retry_from-failures zero k = refl
retry_from-failures (suc n) k =
    rw (next_delay-doubles k)
      (ap (λ r. (min (2 ^ k * second) (30 * second) ∷ r.0, r.1)) (retry_from-failures n (suc k)))

-- With the default configuration, a connection that works after `n` failures is reached, and the
-- waits before it are 1, 2, 4, 8, 16 and from then on 30 seconds.
pub connect_with_retry-failures :
    (n : ℕ)
    → connect_with_retry default_reconnect_config (failures n (works ∷ []))
      ≡ (backoff 0 n, is_connected)
unfolding connect_with_retry default_reconnect_config
connect_with_retry-failures n = retry_from-failures n 0

next_delay_bounded : (cfg : ReconnectConfig) (delay : ℕ) → next_delay cfg delay ≤ cfg.max_delay
unfolding next_delay
next_delay_bounded cfg delay = ground arith

retry_from_bounded :
    (cfg : ReconnectConfig) (rounds : List Round) (delay bound : ℕ)
    → delay ≤ bound
    → cfg.max_delay ≤ bound
    → All (λ d. d ≤ bound) (retry_from cfg delay rounds).0
unfolding retry_from
retry_from_bounded cfg [] delay bound p q = tt
retry_from_bounded cfg (cancelled ∷ rounds) delay bound p q = tt
retry_from_bounded cfg (works ∷ rounds) delay bound p q = tt
retry_from_bounded cfg (cancelled_waiting ∷ rounds) delay bound p q = (p, tt)
retry_from_bounded cfg (fails ∷ rounds) delay bound p q =
    let next = next_delay_bounded cfg delay in
    (p, retry_from_bounded cfg rounds (next_delay cfg delay) bound (omega arith) q)

-- With any configuration, no wait is longer than the first delay and the longest delay.
connect_with_retry_bounded :
    (cfg : ReconnectConfig) (rounds : List Round)
    → All (λ d. d ≤ max cfg.initial_delay cfg.max_delay) (connect_with_retry cfg rounds).0
unfolding connect_with_retry
connect_with_retry_bounded cfg rounds =
    retry_from_bounded cfg rounds cfg.initial_delay (max cfg.initial_delay cfg.max_delay)
      (omega arith) (omega arith)
