-- ===== src/Echo/Examples.antt =====
-- A session that gets three bytes, of which the kernel takes two at once, and then another.
use thread_and_net.Prelude.{◌≡◌, List, [], ◌∷◌, arith, some}
use thread_and_net.Echo.{Session, accept}
use thread_and_net.Echo.Rounds.{Round, run, output, echo-round_trip}

abbrev two_rounds : List Round
two_rounds =
    record { bytes = 1 ∷ 2 ∷ 3 ∷ []; taken = 2 } ∷ record { bytes = 4 ∷ []; taken = 1 } ∷ []

echo-round_trip_example :
    (s : Session) × (s' : Session) × (accept 0 5 ≡ some s)
    × (run s two_rounds ≡ some s')
    × (output s' ≡ 1 ∷ 2 ∷ 3 ∷ 4 ∷ [])
echo-round_trip_example =
    echo-round_trip 0 5 two_rounds
      (
        record { some_bytes = omega arith; at_most = omega arith; taken_fit = omega arith },
        (record { some_bytes = omega arith; at_most = omega arith; taken_fit = omega arith }, tt),
      )
      (omega arith)
