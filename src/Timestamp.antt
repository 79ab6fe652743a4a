-- ===== src/Timestamp.antt =====
-- ThreadAndNetWorkCoding/zdq_timestamp.h, zdq_timestamp.cpp and the delay of zdq_timer.cpp.
-- A time is its microseconds since the epoch. A delay in seconds, a `double` in the source, is the
-- two things that the code asks of it: whether it is above zero, and the microseconds that the
-- conversion in `nowAfter` makes of it. Delays are not negative, and the `double` that a time is
-- passed as is exact (below 2 ^ 53 microseconds, some 285 years).
pub mod Delay
pub mod Examples
use thread_and_net.Prelude.{ℕ, ◌+◌, ◌-◌, ◌*◌, ◌/◌, ◌%◌, Bool, ltb, ◌==◌, if◌then◌else◌}

abbrev pub micros_per_second : ℕ
micros_per_second = 1000 * 1000

pub record Seconds : Type 0 where
  pub positive : Bool
  pub micros : ℕ

-- `nowAfter`
abbrev pub now_after : ℕ → Seconds → ℕ
now_after t s = t + s.micros

-- `valid`
abbrev pub valid : ℕ → Bool
valid t = ltb 0 t

-- `nowMicroSeconds`, from what `gettimeofday` gives
abbrev pub now_micro_seconds : ℕ → ℕ → ℕ
now_micro_seconds tv_sec tv_usec = tv_sec * micros_per_second + tv_usec

pub record Timespec : Type 0 where
  pub tv_sec : ℕ
  pub tv_nsec : ℕ

-- `howMuchTimeFromNow` (zdq_timer.cpp), at the time `now`: a difference below 100 counts as 100.
pub how_much_time_from_now : ℕ → ℕ → Timespec
how_much_time_from_now when now =
    let microseconds = if ltb when (now + 100) then 100 else when - now in
    record {
      tv_sec = microseconds / micros_per_second;
      tv_nsec = microseconds % micros_per_second * 1000;
    }
