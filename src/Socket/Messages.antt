-- ===== src/Socket/Messages.antt =====
-- What of a message arrives.
use thread_and_net.Prelude.{
  ℕ, zero, suc, ◌≡◌, ◌≤◌, refl, ap, ◌∙◌, Bool, true, not, ◌&&◌, ◌==◌, some, List, [], ◌∷◌, ◌++◌,
  arith, length, take, drop, ◌>>=◌, length-append, length-take, take-append_le, take_all,
  Option-cases, inl, inr, append_assoc, append-nil,
}
use thread_and_net.Socket.{Socket, send_msg, recv_msg, string_of}

-- No byte of the message is 0.
abbrev pub has_no_zero : List ℕ → Bool
has_no_zero [] = true
has_no_zero (x ∷ xs) = not (x == 0) && has_no_zero xs

-- What the receiver makes of the bytes that one `sendMsg` sends.
string_of-append :
    (xs ys : List ℕ)
    → has_no_zero xs ≡ true
    → string_of (xs ++ ys) ≡ (string_of ys >>= λ r. some (xs ++ r))
unfolding string_of
string_of-append [] ys h = elim (Option-cases (string_of ys)) [
  | inl e ↦ rw e refl
  | inr (r, e) ↦ rw e refl
]
string_of-append (x ∷ xs) ys h = ground (arith, string_of-append xs ys)

take-has_no_zero : (n : ℕ) (xs : List ℕ) → has_no_zero xs ≡ true → has_no_zero (take n xs) ≡ true
take-has_no_zero zero xs h = refl
take-has_no_zero (suc n) [] h = refl
take-has_no_zero (suc n) (x ∷ xs) h = ground (arith, take-has_no_zero n xs)

send_msg-sent :
    (s s' : Socket) (msg : List ℕ)
    → s.sent ≡ []
    → send_msg s msg true ≡ some s'
    → s'.sent ≡ take 8 (msg ++ 0 ∷ [])
unfolding send_msg
send_msg-sent s s' msg fresh h = ground (arith, fresh)

-- A message of 8 bytes or more, none of them 0, is cut to its first 8 bytes: what one `sendMsg` on
-- a fresh socket sends, a `recvMsg` that gets it all turns into these 8 bytes, and then whatever
-- its buffer held behind them, up to a 0.
pub recv_msg-cut :
    (s s' : Socket) (msg buf : List ℕ)
    → s.sent ≡ []
    → has_no_zero msg ≡ true
    → 8 ≤ length msg
    → send_msg s msg true ≡ some s'
    → recv_msg buf (some s'.sent) ≡ (string_of (drop 8 buf) >>= λ r. some (take 8 msg ++ r))
unfolding recv_msg
recv_msg-cut s s' msg buf fresh plain long h =
    let cut : take 8 (msg ++ 0 ∷ []) ≡ take 8 msg = take-append_le 8 msg (0 ∷ []) long in
    let sent : s'.sent ≡ take 8 msg = send_msg-sent s s' msg fresh h ∙ cut in
    let size : length (take 8 msg) ≡ 8 = omega (arith, length-take 8 msg) in
    rw (sent, size) (string_of-append (take 8 msg) (drop 8 buf) (take-has_no_zero 8 msg plain))

-- One of 7 bytes does.
pub recv_msg-seven :
    (s s' : Socket) (msg buf : List ℕ)
    → s.sent ≡ []
    → has_no_zero msg ≡ true
    → length msg ≡ 7
    → send_msg s msg true ≡ some s'
    → recv_msg buf (some s'.sent) ≡ some msg
unfolding recv_msg string_of
recv_msg-seven s s' msg buf fresh plain seven h =
    let whole : take 8 (msg ++ 0 ∷ []) ≡ msg ++ 0 ∷ [] =
      take_all 8 (msg ++ 0 ∷ []) (omega (arith, length-append msg (0 ∷ []))) in
    let sent : s'.sent ≡ msg ++ 0 ∷ [] = send_msg-sent s s' msg fresh h ∙ whole in
    let tail = drop (length (msg ++ 0 ∷ [])) buf in
    rw sent (
      ap string_of (append_assoc msg (0 ∷ []) tail)
      ∙ string_of-append msg (0 ∷ tail) plain
      ∙ ap some (append-nil msg))
