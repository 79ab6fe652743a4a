-- ===== src/Socket/Examples.antt =====
-- A message of nine bytes.
use thread_and_net.Prelude.{ℕ, ◌≡◌, refl, List, [], ◌∷◌, arith, some, replicate}
use thread_and_net.Socket.{of_fd, send_msg, recv_msg, string_of}
use thread_and_net.Socket.Messages.{recv_msg-cut}

abbrev nine : List ℕ
nine = 1 ∷ 2 ∷ 3 ∷ 4 ∷ 5 ∷ 6 ∷ 7 ∷ 8 ∷ 9 ∷ []

abbrev eight : List ℕ
eight = 1 ∷ 2 ∷ 3 ∷ 4 ∷ 5 ∷ 6 ∷ 7 ∷ 8 ∷ []

recv_msg-cut_example : recv_msg (replicate 2048 0) (some eight) ≡ some eight
unfolding of_fd send_msg string_of
recv_msg-cut_example =
    recv_msg-cut (of_fd 5) (record (of_fd 5) { sent = eight }) nine (replicate 2048 0) refl refl
      (omega arith) refl
