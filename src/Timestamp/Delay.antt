-- ===== src/Timestamp/Delay.antt =====
-- The delay that `resetTimerfd` hands to the kernel.
use thread_and_net.Prelude.{ℕ, ◌+◌, ◌*◌, ◌≡◌, ◌≤◌, ◌<◌, ◌⊎◌, arith}
use thread_and_net.Timestamp.{Timespec, how_much_time_from_now, micros_per_second}

-- The delay in nanoseconds.
abbrev pub nanos : Timespec → ℕ
nanos t = t.tv_sec * (micros_per_second * 1000) + t.tv_nsec

-- The delay is a legal `timespec`, is never the zero that would disarm the timer, never ends before
-- `when`, and later than `when` only to reach 100 microseconds.
pub how_much_time_from_now_lem :
    (when now : ℕ)
    → let d = nanos (how_much_time_from_now when now) in
      ((how_much_time_from_now when now).tv_nsec < 1_000_000_000)
      × (0 < d)
      × (when * 1000 ≤ now * 1000 + d)
      × ((d ≡ 100_000) ⊎ (now * 1000 + d ≡ when * 1000))
unfolding how_much_time_from_now
how_much_time_from_now_lem when now = ground arith
