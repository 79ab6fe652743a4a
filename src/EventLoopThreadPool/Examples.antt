-- ===== src/EventLoopThreadPool/Examples.antt =====
-- The rotation on a pool of two loops.
use thread_and_net.Prelude.{◌≡◌, refl, true, false, [], ◌∷◌, arith, some}
use thread_and_net.EventLoopThreadPool.{EventLoopThreadPool}
use thread_and_net.EventLoopThreadPool.Rotation.{next_loops, next_loops-round}

abbrev pool : EventLoopThreadPool
pool = record {
  base_loop = 9;
  started = true;
  num_threads = 2;
  next = 0;
  loops = 4 ∷ 5 ∷ [];
  init_called = false;
}

next_loops-round_example : next_loops 2 pool ≡ some (4 ∷ 5 ∷ [], pool)
next_loops-round_example = next_loops-round pool refl (λ h. absurd (ground arith)) refl
