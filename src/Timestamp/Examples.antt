-- ===== src/Timestamp/Examples.antt =====
-- The delay's theorem for a time that has passed.
use thread_and_net.Prelude.{◌≡◌, ◌+◌, ◌*◌, ◌<◌, ◌≤◌, ◌⊎◌}
use thread_and_net.Timestamp.{how_much_time_from_now}
use thread_and_net.Timestamp.Delay.{nanos, how_much_time_from_now_lem}

how_much_time_from_now_example :
    let d = nanos (how_much_time_from_now 5 20) in
    ((how_much_time_from_now 5 20).tv_nsec < 1_000_000_000)
    × (0 < d)
    × (5 * 1000 ≤ 20 * 1000 + d)
    × ((d ≡ 100_000) ⊎ (20 * 1000 + d ≡ 5 * 1000))
how_much_time_from_now_example = how_much_time_from_now_lem 5 20
