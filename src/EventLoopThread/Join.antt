-- ===== src/EventLoopThread/Join.antt =====
-- The destructor of an EventLoopThread, when the new thread has not entered its loop yet.
use thread_and_net.Prelude.{◌≡◌, Bool, true, false, not}
use thread_and_net.EventLoopThread.{EventLoopThread, joining, Fresh, entering, looping}

-- The new thread is at the call of `loop`, or in it without a `quit_`.
abbrev is_lost : Fresh → Bool → Bool
is_lost entering _ = true
is_lost looping quit = not quit
is_lost _ _ = false

record Stuck (s : EventLoopThread) : Type 0 where
  joined : s.owner ≡ joining
  lost : is_lost s.fresh s.quit ≡ true
