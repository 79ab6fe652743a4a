-- ===== src/Connector/Backoff.antt =====
-- The delays between attempts to connect.
use thread_and_net.Prelude.{
  ℕ, zero, suc, ◌*◌, ◌≡◌, ◌≤◌, refl, ap, ap₂, length, ◌∙◌, sym, min, List, [], ◌∷◌, ◌++◌, arith,
  true, append_assoc, append-nil,
}
use thread_and_net.Connector.{Connector, retry, max_retry_delay_ms}

-- Attempts that fail one after the other.
pub retries : Connector → List ℕ → Connector
retries c [] = c
retries c (fd ∷ fds) = retries (retry c fd) fds

-- `n` delays: `d`, then each twice the last, with those above the greatest cut to it.
pub delays : ℕ → ℕ → List ℕ
delays d zero = []
delays d (suc n) = min d max_retry_delay_ms ∷ delays (d * 2) n

delays-min : (d n : ℕ) → delays (min d max_retry_delay_ms) n ≡ delays d n
unfolding delays
delays-min d zero = refl
delays-min d (suc n) =
    let once : min (min d max_retry_delay_ms) max_retry_delay_ms ≡ min d max_retry_delay_ms =
      omega arith in
    ap₂ ◌∷◌ once (
      sym (delays-min (min d max_retry_delay_ms * 2) n)
      ∙ ap (λ k. delays k n) (omega arith)
      ∙ delays-min (d * 2) n)

-- Attempts that fail one after the other, while the user wants to connect, are put off by 500 ms,
-- 1 s, 2 s and so on, never by more than 30 s: each is given a timer with the next delay of the row
-- that starts at the connector's. That delay is within the limit, as the initial one is.
pub retries-delays :
    (c : Connector) (fds : List ℕ)
    → c.connect_wanted ≡ true
    → c.retry_delay_ms ≤ max_retry_delay_ms
    → (retries c fds).timers ≡ c.timers ++ delays c.retry_delay_ms (length fds)
unfolding retries delays retry
retries-delays c [] on le = sym (append-nil c.timers)
retries-delays c (fd ∷ fds) on le =
    let next : (retry c fd).retry_delay_ms ≡ min (c.retry_delay_ms * 2) max_retry_delay_ms =
      ground arith in
    let first : (retry c fd).timers ≡ c.timers ++ c.retry_delay_ms ∷ [] = ground arith in
    let same : c.retry_delay_ms ≡ min c.retry_delay_ms max_retry_delay_ms = omega arith in
    retries-delays (retry c fd) fds (ground arith) (ground arith)
    ∙ ap₂ (λ x y. x ++ delays y (length fds)) first next
    ∙ append_assoc c.timers (c.retry_delay_ms ∷ [])
        (delays (min (c.retry_delay_ms * 2) max_retry_delay_ms) (length fds))
    ∙ ap (◌++◌ c.timers) (ap₂ ◌∷◌ same (delays-min (c.retry_delay_ms * 2) (length fds)))
