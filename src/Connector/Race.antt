-- ===== src/Connector/Race.antt =====
-- A start while an attempt has been put off.
use thread_and_net.Prelude.{ℕ, ◌≡◌, none, some, arith, true, ◌++◌, [], ◌∷◌}
use thread_and_net.Connector.{
  Connector, Errno, einprogress, econnrefused, retry, start_connecting, connect, start_in_loop,
  start,
}

-- When an attempt of a connector that is to connect is refused, so that it is put off with a timer, and the
-- user then calls `start`, whose attempt goes on in the background, then every timer is still there, and the
-- `startInLoop` that it calls ends the process, whatever socket it would get.
pub start-timer-none :
    (c c₁ c₂ : Connector) (fd fd₁ fd₂ : ℕ) (errno : Errno)
    → c.connect_wanted ≡ true
    → connect c fd econnrefused ≡ some c₁
    → start c₁ fd₁ einprogress ≡ some c₂
    → (c₂.timers ≡ c.timers ++ c.retry_delay_ms ∷ []) × (start_in_loop c₂ fd₂ errno ≡ none)
unfolding start start_in_loop connect start_connecting retry
start-timer-none c c₁ c₂ fd fd₁ fd₂ errno wanted failed begun = (ground arith, ground arith)
