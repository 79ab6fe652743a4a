-- ===== src/Channel/Examples.antt =====
-- The channel's theorem on a sequence of changes.
use thread_and_net.Prelude.{List, [], ◌∷◌, ◌≡◌, false}
use thread_and_net.Channel.{
  Interest, has, read_event, write_event, enable_reading, enable_writeing, disable_reading,
}
use thread_and_net.Channel.Events.{run, run_wants, run-wants}

abbrev changes : List Interest
changes = enable_reading ∷ enable_writeing ∷ disable_reading ∷ []

run-wants_example :
    (has (run changes 0) read_event ≡ (run_wants changes false false).0)
    × (has (run changes 0) write_event ≡ (run_wants changes false false).1)
run-wants_example = run-wants changes
